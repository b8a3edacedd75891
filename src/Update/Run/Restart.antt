-- ===== src/Update/Run/Restart.antt =====
-- What a run that asks for a restart has established, and what one that does not has left alone.
use mathlib.Core.Path.{subst, sym}
use fog_agent.Prelude.{
  ℕ, ◌≡◌, ◌≢◌, refl, ◌∙◌, ◌⊎◌, inl, inr, Bool, Bool-cases, true, false, none, Option-cases, [],
  ◌=ᵗ◌, arith,
}
use fog_agent.Prelude.Int.{pos, ◌≤ℤ◌, ◌=ℤ◌}
use fog_agent.Release.{Crypto, Manifest, Artifact}
use fog_agent.Update.Files.{
  exe, exe_prev, probation_file, staged, File, main, Disk, Faults, renaming, same_file,
  remove_other,
}
use fog_agent.Update.Records.{load_sequence, arm, swap, clear_probation}
use fog_agent.Update.Rollback.{arm_other}
use fog_agent.Update.Swap.{swap-Swapped, is_lost}
use fog_agent.Version
use fog_agent.Version.{valid}
use fog_agent.Update.Run.Data.{
  Desired, Config, Accepted, entry, rejected, Staged, staged_as, not_staged, Report, failed,
  artifact_failure,
}
use fog_agent.Update.Run.{replace, obtain, refusal, run, fetch_artifact, record_of}
use fog_agent.Update.Run.Accepting.{IsAccepted, Keeps, manifest_for_lem}
use fog_agent.Update.Run.Staging.{IsDeclared, Fetched, fetch_artifact-Fetched}

module _ (c : Crypto) (faults : Faults) (d : Desired) (cfg : Config c) where
  clear_probation_other :
      (disk : Disk) (f : File)
      → same_file (main probation_file) f ≡ false
      → (clear_probation faults disk).0 f ≡ disk f
  unfolding clear_probation
  clear_probation_other disk f h = remove_other faults disk (main probation_file) f h

  replace_restart :
      (disk : Disk) (m : Manifest) (n : ℕ)
      → (replace c faults d cfg disk m n).2 ≡ true
      → let disk' = (replace c faults d cfg disk m n).0 in
        (disk' (main exe) ≡ disk (main (staged n))) × (disk' (main exe_prev) ≡ disk (main exe))
  unfolding replace
  replace_restart disk m n h =
      let armed = (arm faults disk (record_of c faults d cfg m)).0 in
      let a = arm_other faults disk (record_of c faults d cfg m) in
      let done : (swap faults armed (staged n)).1 ≡ none = ground arith in
      let (fresh, old, gone) = (swap-Swapped faults n armed).replaced done in
      let disk2 = (swap faults armed (staged n)).0 in
      let r = remove_other faults disk2 (main (staged n)) in
      (
        ground (arith, r (main exe) refl, fresh, a (main (staged n)) refl refl refl refl refl),
        ground (arith, r (main exe_prev) refl, old, a (main exe) refl refl refl refl refl),
      )

  -- The binary stands as it did, or putting it back was refused, and it is kept beside its place.
  abbrev Safe : Disk → Disk → Type 0
  Safe disk disk' =
      (disk' (main exe) ≡ disk (main exe))
      ⊎ ((disk' (main exe) ≡ none)
          × (disk' (main exe_prev) ≡ disk (main exe))
          × (faults (renaming (main exe_prev) (main exe)) ≡ true))

  replace_no_restart :
      (disk : Disk) (m : Manifest) (n : ℕ)
      → (replace c faults d cfg disk m n).2 ≡ false
      → Safe disk (replace c faults d cfg disk m n).0
  unfolding replace
  replace_no_restart disk m n h =
      let p = record_of c faults d cfg m in
      let armed = arm faults disk p in
      let a = arm_other faults disk p (main exe) refl refl refl refl refl in
      let swapped = swap faults armed.0 (staged n) in
      let s = swap-Swapped faults n armed.0 in
      let cleared = clear_probation faults swapped.0 in
      let r0 = remove_other faults armed.0 (main (staged n)) (main exe) refl in
      let r1 = remove_other faults cleared.0 (main (staged n)) (main exe) refl in
      let r2 = remove_other faults cleared.0 (main (staged n)) (main exe_prev) refl in
      let q1 = clear_probation_other swapped.0 (main exe) refl in
      let q2 = clear_probation_other swapped.0 (main exe_prev) refl in
      elim (Option-cases armed.1) [
        | inr (e, ea) ↦ inl (ground (arith, r0, a))
        | inl ea ↦ elim (Option-cases swapped.1) [
          | inl es ↦ absurd (ground arith)
          | inr (e, es) ↦ elim (Bool-cases (is_lost e)) [
            | inl l ↦
                let (empty, kept, there) = s.lost e es l in
                elim (s.refused_back e es l) [
                  | inl gone ↦ inl (ground (arith, r1, q1, empty, gone, a))
                  | inr k ↦ inr (ground (arith, r1, q1, empty), ground (arith, r2, q2, kept, a), k)
                ]
            | inr l ↦
                let (kept, there) = s.recovered e es l in inl (ground (arith, r1, q1, kept, a))
          ]
        ]
      ]

  -- The manifest and the artifact that a replacement rests on, the binary that is in place after it,
  -- and the one that is kept.
  pub record IsReplaced (before after : Disk) : Type 0 where
    pub manifest : Manifest
    pub artifact : Artifact
    pub accepted : IsAccepted c faults d cfg (load_sequence faults before).0 manifest artifact
    pub declared : IsDeclared c faults d cfg artifact (after (main exe))
    pub kept : after (main exe_prev) ≡ before (main exe)

  -- Run from an accepted entry on.
  fetched :
      (disk disk1 : Disk) (m : Manifest) (a : Artifact) (disk2 : Disk) (file : Staged)
      → Keeps c faults d cfg disk disk1
      → IsAccepted c faults d cfg (load_sequence faults disk).0 m a
      → Fetched c faults d cfg disk1 disk2 a file
      → let end : Disk × Report × Bool = elim file [
        | not_staged e ↦ (disk2, failed (artifact_failure e), false)
        | staged_as n ↦ replace c faults d cfg disk2 m n
      ] in
        (end.2 ≡ true → IsReplaced disk end.0) × (end.2 ≡ false → Safe disk end.0)
  fetched disk disk1 m a disk2 (not_staged e) k acc f =
      (λ h. absurd (cc), λ h. inl (f.files (main exe) refl refl ∙ k.files (main exe) refl refl))
  fetched disk disk1 m a disk2 (staged_as n) k acc f =
      let same = f.files (main exe) refl refl ∙ k.files (main exe) refl refl in
      (
        λ h.
            let (fresh, old) = replace_restart disk2 m n h in
            record {
              manifest = m;
              artifact = a;
              accepted = acc;
              declared = subst (IsDeclared c faults d cfg a) (sym fresh) (f.declared n refl);
              kept = old ∙ same;
            },
        λ h. elim (replace_no_restart disk2 m n h) [
          | inl e ↦ inl (e ∙ same)
          | inr (empty, old, k) ↦ inr (empty, old ∙ same, k)
        ],
      )

  -- Run from the answer about the manifest on.
  answered :
      (disk disk1 : Disk) (answer : Accepted)
      → Keeps c faults d cfg disk disk1
      → ((m : Manifest) (a : Artifact)
          → answer ≡ entry m a
          → IsAccepted c faults d cfg (load_sequence faults disk).0 m a)
      → let end : Disk × Report × Bool = elim answer [
        | rejected detail refused ↦ (disk1, failed detail, false)
        | entry m a ↦
            let (disk2, file) = fetch_artifact c faults d cfg disk1 a in
            elim file [
              | not_staged e ↦ (disk2, failed (artifact_failure e), false)
              | staged_as n ↦ replace c faults d cfg disk2 m n
            ]
      ] in
        (end.2 ≡ true → IsReplaced disk end.0) × (end.2 ≡ false → Safe disk end.0)
  answered disk disk1 (rejected detail refused) k acc =
      (λ h. absurd (cc), λ h. inl (k.files (main exe) refl refl))
  answered disk disk1 (entry m a) k acc =
      fetched disk disk1 m a _ _ k (acc m a refl) (fetch_artifact-Fetched c faults d cfg disk1 a)

  obtain_lem :
      (disk : Disk)
      → ((obtain c faults d cfg disk).2 ≡ true → IsReplaced disk (obtain c faults d cfg disk).0)
        × ((obtain c faults d cfg disk).2 ≡ false → Safe disk (obtain c faults d cfg disk).0)
  unfolding obtain
  obtain_lem disk = let (k, acc) = manifest_for_lem c faults d cfg disk in answered disk _ _ k acc

  -- The checks on the version, the build and the machine that come before the manifest.
  pub record IsAllowed : Type 0 where
    pub is_valid : valid d.version ≡ true
    pub is_other : Version.compare cfg.current d.version ≢ pos 0
    pub not_below :
        (Version.compare cfg.current d.version ≢ pos 1)
        ⊎ ((cfg.min_downgrade =ᵗ []) ≡ true)
        ⊎ (pos 0 ≤ℤ Version.compare d.version cfg.min_downgrade)
    pub has_root : cfg.root_count ≢ 0
    pub is_idle : cfg.busy ≡ none

  refusal_none : refusal c faults d cfg ≡ none → IsAllowed
  unfolding refusal
  refusal_none h = record {
    is_valid = ground arith;
    is_other = λ e. ground arith;
    not_below = elim (Bool-cases (Version.compare cfg.current d.version =ℤ pos 1)) [
      | inl e ↦ elim (Bool-cases (cfg.min_downgrade =ᵗ [])) [
        | inl f ↦ inr (inl f)
        | inr f ↦ inr (inr (ground arith))
      ]
      | inr e ↦ inl (λ g. ground arith)
    ];
    has_root = λ e. ground arith;
    is_idle = ground arith;
  }

  -- A run that asks for a restart was for a valid version other than the current one and not below the
  -- floor of a downgrade, in a build with a root, with nothing in flight. It rests on a manifest that
  -- `verify` returned, whose sequence is not below the recorded floor, and on its entry for the version
  -- and the platform. The binary in place has the size and the digest of the entry, and the binary of
  -- before is kept.
  pub run_restart :
      (disk : Disk)
      → (run c faults d cfg disk).2 ≡ true
      → IsAllowed × IsReplaced disk (run c faults d cfg disk).0
  unfolding run
  run_restart disk h = elim (Option-cases (refusal c faults d cfg)) [
    | inr (r, e) ↦ absurd (ground arith)
    | inl e ↦ (refusal_none e, rw (e, run) ((obtain_lem disk).0 (ground arith)))
  ]

  -- A run that asks for no restart leaves the binary as it was, unless the system refuses to rename the
  -- previous binary back into its place: then at worst nothing is in place and the old binary is kept
  -- beside it. Whatever else fails, the old binary stands.
  pub run_no_restart :
      (disk : Disk)
      → (run c faults d cfg disk).2 ≡ false
      → let disk' = (run c faults d cfg disk).0 in
        (disk' (main exe) ≡ disk (main exe))
        ⊎ ((disk' (main exe) ≡ none)
            × (disk' (main exe_prev) ≡ disk (main exe))
            × (faults (renaming (main exe_prev) (main exe)) ≡ true))
  unfolding run
  run_no_restart disk h = elim (Option-cases (refusal c faults d cfg)) [
    | inr (r, e) ↦ rw (e, run) (inl refl)
    | inl e ↦ rw (e, run) ((obtain_lem disk).1 (ground arith))
  ]
