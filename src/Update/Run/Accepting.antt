-- ===== src/Update/Run/Accepting.antt =====
-- The manifests and entries that the run accepts.
use fog_agent.Prelude.{
  ◌≡◌, refl, inl, inr, ap, ◌∙◌, ◌++◌, text, Bool-cases, not, ◌||◌, if◌then◌else◌, false, some,
  Option-cases, [], Text, ◌=ᵗ◌, arith,
}
use fog_agent.Prelude.Int.{ℤ, ◌≤ℤ◌}
use fog_agent.Release
use fog_agent.Release.{Crypto, Envelope, Manifest, Artifact, Result-cases, verify, fresh, find}
use fog_agent.Update.Files.{
  sequence_file, sequence_json, File, main, temp, Disk, Faults, same_file, read_file,
  write_file_sync_atomic,
}
use fog_agent.Update.Records.{load_sequence, save_sequence}
use fog_agent.Update.Run.Data.{Desired, Config, Accepted, entry, rejected, Detail}
use fog_agent.Update.Run.{
  accept, accept_verified, from_url, fetch_limited, manifest_for, inline, url_of, after_origin,
}

save_sequence_other :
    (faults : Faults) (d : Disk) (n : ℤ) (f : File)
    → same_file (temp sequence_file) f ≡ false
    → same_file (main sequence_file) f ≡ false
    → (save_sequence faults d n).0 f ≡ d f
unfolding save_sequence
save_sequence_other faults d n f a b =
    ground (arith, write_file_sync_atomic faults d sequence_file (sequence_json n) f)

-- A number that is not below the floor does not lower it, even where the record was not readable.
save_sequence_floor :
    (faults : Faults) (d : Disk) (n : ℤ)
    → (load_sequence faults d).0 ≤ℤ n
    → (load_sequence faults d).0 ≤ℤ (load_sequence faults (save_sequence faults d n).0).0
unfolding save_sequence load_sequence read_file
save_sequence_floor faults d n h = ground (
  arith,
  write_file_sync_atomic faults d sequence_file (sequence_json n) (main sequence_file) refl,
)

fresh_floor : (m : Manifest) (seen : ℤ) → fresh m seen ≡ Release.ok tt → seen ≤ℤ m.sequence
unfolding fresh
fresh_floor m seen h = ground arith

module _ (c : Crypto) (faults : Faults) (d : Desired) (cfg : Config c) where
  -- The manifest passed every check of `verify`, is not below the floor, and holds the entry for the
  -- version and the platform.
  pub record IsAccepted (floor : ℤ) (m : Manifest) (a : Artifact) : Type 0 where
    pub body : Text
    pub env : Envelope
    pub verified : verify c body (some env) cfg.roots cfg.now ≡ Release.ok m
    pub above : floor ≤ℤ m.sequence
    pub found : find m d.version cfg.goos cfg.goarch ≡ Release.ok a

  -- What a call of accept leaves: files other than the record of the floor, and the floor.
  pub record Keeps (before after : Disk) : Type 0 where
    pub files :
        (f : File)
        → same_file (temp sequence_file) f ≡ false
        → same_file (main sequence_file) f ≡ false
        → after f ≡ before f
    pub floor : (load_sequence faults before).0 ≤ℤ (load_sequence faults after).0

  Keeps-refl : (disk : Disk) → Keeps disk disk
  Keeps-refl disk = record { files = λ f a b. refl; floor = omega arith }

  Keeps-trans : {x y z : Disk} → Keeps x y → Keeps y z → Keeps x z
  Keeps-trans k l = record {
    files = λ f a b. l.files f a b ∙ k.files f a b;
    floor = omega (arith, k.floor, l.floor);
  }

  accept_verified-Keeps :
      (disk : Disk) (m : Manifest) → Keeps disk (accept_verified c faults d cfg disk m).0
  unfolding accept_verified
  accept_verified-Keeps disk m = record {
    files = λ f a b. ground (arith, save_sequence_other faults disk m.sequence f a b);
    floor = ground (
      arith,
      save_sequence_floor faults disk m.sequence,
      fresh_floor m (load_sequence faults disk).0,
    );
  }

  accept_verified_ok :
      (disk : Disk) (m m' : Manifest) (a : Artifact)
      → (accept_verified c faults d cfg disk m).1 ≡ entry m' a
      → (m ≡ m')
        × ((load_sequence faults disk).0 ≤ℤ m'.sequence)
        × (find m' d.version cfg.goos cfg.goarch ≡ Release.ok a)
  unfolding accept_verified
  accept_verified_ok disk m m' a h = ground (arith, fresh_floor m (load_sequence faults disk).0)

  accept-Keeps :
      (disk : Disk) (body raw : Text) → Keeps disk (accept c faults d cfg disk body raw).0
  unfolding accept
  accept-Keeps disk body raw = elim (Option-cases (c.parse_envelope raw)) [
    | inl e ↦ rw (e, accept) (Keeps-refl disk)
    | inr (env, e) ↦
        rw (e, accept)
          (elim (Result-cases (verify c body (some env) cfg.roots cfg.now)) [
            | inl (m, v) ↦ rw v (accept_verified-Keeps disk m)
            | inr (x, v) ↦ rw v (Keeps-refl disk)
          ])
  ]

  accept-IsAccepted :
      (disk : Disk) (body raw : Text) (m : Manifest) (a : Artifact)
      → (accept c faults d cfg disk body raw).1 ≡ entry m a
      → IsAccepted (load_sequence faults disk).0 m a
  unfolding accept
  accept-IsAccepted disk body raw m a h = elim (Option-cases (c.parse_envelope raw)) [
    | inl e ↦ absurd (ground arith)
    | inr (env, e) ↦ elim (Result-cases (verify c body (some env) cfg.roots cfg.now)) [
      | inr (x, v) ↦ absurd (ground arith)
      | inl (m', v) ↦
          let (same, above, found) = accept_verified_ok disk m' m a (ground arith) in
          record {
            body = body;
            env = env;
            verified = v ∙ ap Release.ok same;
            above = above;
            found = found;
          }
    ]
  ]

  from_url-Keeps : (disk : Disk) (url : Text) → Keeps disk (from_url c faults d cfg disk url).0
  unfolding from_url
  from_url-Keeps disk url = elim (Result-cases (fetch_limited c faults d cfg url)) [
    | inr (x, e) ↦ rw (e, from_url) (Keeps-refl disk)
    | inl (body, e) ↦
        rw (e, from_url)
          (elim (Result-cases (fetch_limited c faults d cfg (url ++ text ".sig"))) [
            | inr (x, e') ↦ rw e' (Keeps-refl disk)
            | inl (raw, e') ↦ rw e' (accept-Keeps disk body raw)
          ])
  ]

  from_url-IsAccepted :
      (disk : Disk) (url : Text) (m : Manifest) (a : Artifact)
      → (from_url c faults d cfg disk url).1 ≡ entry m a
      → IsAccepted (load_sequence faults disk).0 m a
  unfolding from_url
  from_url-IsAccepted disk url m a h = elim (Result-cases (fetch_limited c faults d cfg url)) [
    | inr (x, e) ↦ absurd (ground arith)
    | inl (body, e) ↦ elim (Result-cases (fetch_limited c faults d cfg (url ++ text ".sig"))) [
      | inr (x, e') ↦ absurd (ground arith)
      | inl (raw, e') ↦ accept-IsAccepted disk body raw m a (ground arith)
    ]
  ]

  lower_floor :
      {x y : ℤ} {m : Manifest} {a : Artifact} → x ≤ℤ y → IsAccepted y m a → IsAccepted x m a
  lower_floor h k = record {
    body = k.body;
    env = k.env;
    verified = k.verified;
    above = omega (arith, k.above);
    found = k.found;
  }

  after_origin-Keeps :
      (disk : Disk) (served : Detail) (end : Disk × Accepted)
      → Keeps disk end.0
      → Keeps disk (after_origin c faults d cfg served end).0
  after_origin-Keeps disk served (disk', entry m a) k = k
  after_origin-Keeps disk served (disk', rejected x r) k = k

  after_origin_entry :
      (served : Detail) (end : Disk × Accepted) (m : Manifest) (a : Artifact)
      → (after_origin c faults d cfg served end).1 ≡ entry m a
      → end.1 ≡ entry m a
  after_origin_entry served (disk', entry m' a') m a h = h
  after_origin_entry served (disk', rejected x r) m a h = cc

  -- The two ways on from the answer to the server's copy.
  after_served :
      (disk disk' : Disk) (answer : Accepted)
      → Keeps disk disk'
      → ((m : Manifest) (a : Artifact)
          → answer ≡ entry m a
          → IsAccepted (load_sequence faults disk).0 m a)
      → let url = url_of c faults d cfg in
        let end : Disk × Accepted = elim answer [
          | entry m a ↦ (disk', entry m a)
          | rejected served refused ↦
              if not refused || url =ᵗ []
              then (disk', rejected served refused)
              else after_origin c faults d cfg served (from_url c faults d cfg disk' url)
        ] in
        Keeps disk end.0
        × ((m : Manifest) (a : Artifact)
            → end.1 ≡ entry m a
            → IsAccepted (load_sequence faults disk).0 m a)
  after_served disk disk' (entry m a) k ok' = (k, ok')
  after_served disk disk' (rejected served refused) k ok' =
      let url = url_of c faults d cfg in
      elim (Bool-cases (not refused || url =ᵗ [])) [
        | inl t ↦ rw t (k, λ m a h. cc)
        | inr t ↦ rw t (
          after_origin-Keeps disk served _ (Keeps-trans k (from_url-Keeps disk' url)),
          λ m a h.
              lower_floor k.floor
                (from_url-IsAccepted disk' url m a (after_origin_entry served _ m a h)),
        )
      ]

  -- Looking for the manifest changes no file but the record of the floor and never lowers the floor,
  -- and the entry that it finds was accepted against the floor of before.
  pub manifest_for_lem :
      (disk : Disk)
      → Keeps disk (manifest_for c faults d cfg disk).0
        × ((m : Manifest) (a : Artifact)
            → (manifest_for c faults d cfg disk).1 ≡ entry m a
            → IsAccepted (load_sequence faults disk).0 m a)
  unfolding manifest_for
  manifest_for_lem disk = elim (Option-cases (inline c d)) [
    | inl e ↦
        rw (e, manifest_for)
          (let url = url_of c faults d cfg in
            elim (Bool-cases (url =ᵗ [])) [
              | inl t ↦ rw t (Keeps-refl disk, λ m a h. cc)
              | inr t ↦ rw t (from_url-Keeps disk url, from_url-IsAccepted disk url)
            ])
    | inr ((body, raw), e) ↦
        rw (e, manifest_for)
          (after_served disk _ _ (accept-Keeps disk body raw) (accept-IsAccepted disk body raw))
  ]

  -- An entry that looking for the manifest answers with was accepted: `verify` returned its manifest
  -- against the roots of the build, its sequence is not below the floor of before, and it is what the
  -- manifest names for the version and the platform.
  pub manifest_for-IsAccepted :
      (disk : Disk) (m : Manifest) (a : Artifact)
      → (manifest_for c faults d cfg disk).1 ≡ entry m a
      → IsAccepted (load_sequence faults disk).0 m a
  manifest_for-IsAccepted disk m a h = (manifest_for_lem disk).1 m a h
