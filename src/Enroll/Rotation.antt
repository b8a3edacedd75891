-- ===== src/Enroll/Rotation.antt =====
-- internal/enroll/directory_features.go, RotateIdentity and RememberIdentity: a new identity on a disk
-- that came from another machine, with the marker of a rejoin that may lie on it.
use mathlib.Core.Path.{subst}
use fog_agent.Prelude.{
  ◌≡◌, ◌⊎◌, inl, inr, sym, ◌∙◌, Bool, Option, none, some, [], if◌then◌else◌, Text, text, ◌=ᵗ◌,
  Option-cases, arith,
}
use fog_agent.Enroll.Data.{identity, config, main, Disk, Call, Failure, Host, Config, empty_config}
use fog_agent.Enroll.{Codec, State, write_file, save_config, ensure_key}
use fog_agent.Rejoin.Data.{Attempt, Library}
use fog_agent.Rejoin.Marker
use fog_agent.Rejoin.Marker.{load_attempt, archive_verified_attempt}
use fog_agent.Rejoin.Marker.Cleared.{IsArchived, archive_verified-IsArchived}
use fog_agent.Rejoin.Marker.Saved.{Holds}

pub data Trouble : Type 0 where
  in_marker : Marker.Failure → Trouble
  in_state : Failure → Trouble

-- What RotateIdentity keeps of the configuration.
abbrev pub rotated : Config → Config
rotated c = record empty_config {
  server_url = c.server_url;
  system_trust = c.system_trust;
  pending_token = c.pending_token;
}

module _ (lib : Library) (blocks : Marker.Call → Bool) where
  -- The marker that is loaded and verified.
  abbrev pub terminal : Option Attempt × Option Marker.Failure → Option Attempt
  terminal (none, e) = none
  terminal (some a, some e) = none
  terminal (some a, none) = if a.phase =ᵗ text "verified" then some a else none

  -- The first block of RotateIdentity: only a verified marker is archived.
  unfoldable pub settle_marker : Marker.Disk → Marker.Disk × Option Marker.Failure
  unfolding load_attempt archive_verified_attempt
  settle_marker md = elim (terminal (load_attempt lib blocks md)) [
    | none ↦ (md, none)
    | some a ↦ archive_verified_attempt lib blocks md a
  ]

  settle_marker-IsArchived :
      (md : Marker.Disk)
      → let md' = (settle_marker md).0 in
        (md' ≡ md)
        ⊎ (IsArchived lib blocks md md'
            × ((a : Attempt) × Holds lib md a × (a.phase ≡ text "verified")))
  unfolding settle_marker
  settle_marker-IsArchived md = elim (Option-cases (terminal (load_attempt lib blocks md))) [
    | inl e ↦ inl (ground (arith, e))
    | inr (a, e) ↦
        let same : (settle_marker md).0 ≡ (archive_verified_attempt lib blocks md a).0 =
          ground (arith, e) in
        elim (archive_verified-IsArchived lib blocks md a) [
          | inl k ↦ inl (same ∙ k)
          | inr (moved, held, phase) ↦
              inr (subst (IsArchived lib blocks md) (sym same) moved, (a, held, phase))
        ]
  ]

module _ (codec : Codec) (refuses : Call → Bool) where
  -- RememberIdentity
  unfoldable pub remember_identity : Disk → State → Host → Disk × State × Option Failure
  unfolding write_file
  remember_identity d st live =
      let (d1, e) = write_file codec refuses d identity (codec.encode_identity live) in
      elim e [
        | none ↦ (d1, record st { identity_of = some live }, none)
        | some x ↦ (d1, st, some x)
      ]

  -- RotateIdentity from the new key on, where `made` is what GenerateKey gives.
  unfoldable pub rotate_key : Option Text → Disk → State → Host → Disk × State × Option Failure
  unfolding ensure_key save_config
  rotate_key made d st live =
      let (d1, st1, regen, e1) =
        ensure_key codec refuses made d (record st { identity_of = none }) live in
      let st2 : State = record st1 { config_of = rotated st.config_of } in
      let (d2, e2) = save_config codec refuses d1 st2 in
      elim e1 [ some e ↦ (d1, st1, some e) | none ↦ (d2, st2, e2) ]

  rotate_key_ok :
      (k : Text) (d : Disk) (st : State) (live : Host)
      → let r = rotate_key (some k) d st live in
        r.2 ≡ none
        → (r.1 ≡ record {
          key_of = some k;
          identity_of = some live;
          cert_of = [];
          config_of = rotated st.config_of;
        })
          × (r.0 (main config) ≡ some (codec.encode_config (rotated st.config_of)))
  unfolding rotate_key ensure_key save_config write_file
  rotate_key_ok k d st live h = ground arith

module _ (codec : Codec) (refuses : Call → Bool) (lib : Library) (blocks : Marker.Call → Bool) where
  -- RotateIdentity
  unfoldable pub rotate_identity :
      Option Text → Disk → Marker.Disk → State → Host → Disk × Marker.Disk × State × Option Trouble
  unfolding settle_marker rotate_key
  rotate_identity made d md st live =
      let (md1, e) = settle_marker lib blocks md in
      let (d1, st1, e1) = rotate_key codec refuses made d st live in
      elim e [
        | some x ↦ (d, md1, st, some (in_marker x))
        | none ↦ elim e1 [
          | some x ↦ (d1, md1, st1, some (in_state x))
          | none ↦ (d1, md1, st1, none)
        ]
      ]

  -- Whatever fails in a rotation, the marker of a rejoin is left as it is, unless it is verified; then it
  -- may go to the archive, with its bytes.
  pub rotate_identity-IsArchived :
      (made : Option Text) (d : Disk) (md : Marker.Disk) (st : State) (live : Host)
      → let md' = (rotate_identity made d md st live).1 in
        (md' ≡ md)
        ⊎ (IsArchived lib blocks md md'
            × ((a : Attempt) × Holds lib md a × (a.phase ≡ text "verified")))
  unfolding rotate_identity
  rotate_identity-IsArchived made d md st live =
      let same : (rotate_identity made d md st live).1 ≡ (settle_marker lib blocks md).0 =
        ground arith in
      elim (settle_marker-IsArchived lib blocks md) [
        | inl e ↦ inl (same ∙ e)
        | inr (moved, rest) ↦ inr (subst (IsArchived lib blocks md) (sym same) moved, rest)
      ]

  -- A rotation without an error gives the key that was made, the live identity, no certificate and no
  -- host, keeps the trust and the token, and has that configuration on the disk.
  pub rotate_identity_ok :
      (k : Text) (d : Disk) (md : Marker.Disk) (st : State) (live : Host)
      → let r = rotate_identity (some k) d md st live in
        r.3 ≡ none
        → (r.2 ≡ record {
          key_of = some k;
          identity_of = some live;
          cert_of = [];
          config_of = rotated st.config_of;
        })
          × (r.0 (main config) ≡ some (codec.encode_config (rotated st.config_of)))
  unfolding rotate_identity
  rotate_identity_ok k d md st live h = ground (arith, rotate_key_ok codec refuses k d st live)
