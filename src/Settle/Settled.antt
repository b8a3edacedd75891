-- ===== src/Settle/Settled.antt =====
-- What settling the trust leaves pinned, and that a failure puts the old trust back.
use fog_agent.Prelude.{
  ◌≡◌, refl, ◌⊎◌, inl, inr, ap, Bool, true, false, not, ◌&&◌, ◌||◌, Option, none, some, [], Text,
  ◌=ᵗ◌, Option-cases, Bool-cases, same_bool, ltb, length, if◌then◌else◌, arith,
}
use fog_agent.Enroll.Data.{ca, config, main, Disk, Call, Failure}
use fog_agent.Enroll.{
  Codec, State, load, save_ca, use_system_trust, save_config, drop_issued, ca_of,
}
use fog_agent.Settle.{
  Flags, Trouble, Outside, Snapshot, with_server, lift, open_state, forget_trust,
  forget_stale_trust, put_back, restore_trust, after_failure, after_success, after_open,
  settle_trust,
}
use fog_agent.Settle.Confirmed.{
  IsConfirmed, unchanged, forgotten, put_back_again, Good, carried, lifted, save_ca-Good,
  system-Good, open_state-Good, forget_trust_main, save_config_main, drop_issued_main,
}

module _ (codec : Codec) (refuses : Call → Bool) (o : Outside) (f : Flags) where
  module _ (old : Option Text) (kept : Text) where
    abbrev Fine : Disk → Type 0
    Fine d = Good codec refuses o f old kept d

    keep : (d d' : Disk) → d' (main ca) ≡ d (main ca) → Fine d → Fine d'
    keep d d' e h = carried codec refuses o f old kept d d' e h

    put_back-Fine :
        (snap : Snapshot) (d : Disk) (st : State)
        → snap.bundle ≡ kept
        → Fine d
        → Fine (put_back codec refuses o snap d st).0
    unfolding put_back
    put_back-Fine snap d old_st b h =
        let st : State = record old_st {
          config_of = record old_st.config_of { server_url = snap.server };
        } in
        let (d2, st2, e2) = save_ca codec refuses d st snap.bundle in
        let pinned =
          save_ca-Good codec refuses o f old kept d st snap.bundle h
            (put_back_again (ap (λ x. some x) b)) in
        let d' = (put_back codec refuses o snap d old_st).0 in
        elim (Bool-cases snap.system) [
          | inl s ↦
              keep (use_system_trust codec refuses d st).0 d' (ground (arith, s))
                (system-Good codec refuses o f old kept d st h)
          | inr s ↦ elim (Option-cases e2) [
            | inr (x, p) ↦ keep d2 d' (ground (arith, s, p)) pinned
            | inl p ↦
                keep d2 d' (ground (arith, s, p, save_config_main codec refuses o f d2 st2)) pinned
          ]
        ]

    restore-Fine :
        (snap : Snapshot) (d : Disk)
        → snap.bundle ≡ kept
        → Fine d
        → Fine (restore_trust codec refuses o snap d).0
    unfolding restore_trust
    restore-Fine snap d b h =
        let (st, e) = load codec refuses d in
        let d' = (restore_trust codec refuses o snap d).0 in
        elim (Option-cases e) [
          | inr (x, p) ↦ keep d d' (ground (arith, p)) h
          | inl p ↦
              keep (put_back codec refuses o snap d st).0 d' (ground (arith, p))
                (put_back-Fine snap d st b h)
        ]

    after_failure-Fine :
        (snap : Snapshot) (d : Disk) (st : State) (why : Option Trouble)
        → snap.bundle ≡ kept
        → Fine d
        → Fine (after_failure codec refuses o f snap (d, st, why)).0
    unfolding after_failure
    after_failure-Fine snap d st why b h =
        let (d1, e) = restore_trust codec refuses o snap d in
        let back = restore-Fine snap d b h in
        let d' = (after_failure codec refuses o f snap (d, st, why)).0 in
        elim (Option-cases e) [
          | inr (x, p) ↦ keep d1 d' (ground (arith, p)) back
          | inl p ↦ elim (Bool-cases (not (f.ca_fingerprint =ᵗ []) || not (f.ca_path =ᵗ []))) [
            | inl q ↦ keep d1 d' (ground (arith, p, q)) back
            | inr q ↦
                keep (open_state codec refuses o f d1).0 d' (ground (arith, p, q))
                  (open_state-Good codec refuses o f old kept d1 back)
          ]
        ]

    after_success-Fine :
        (forgot : Bool) (snap : Snapshot) (d : Disk) (st : State)
        → Fine d
        → Fine (after_success codec refuses o forgot snap d st).0
    unfolding after_success
    after_success-Fine forgot snap d st h =
        let r = drop_issued codec refuses d st in
        let same =
          same_bool st.config_of.system_trust snap.system && ca_of codec refuses d =ᵗ snap.bundle in
        let d' = (after_success codec refuses o forgot snap d st).0 in
        elim (Bool-cases (forgot && ltb 0 (length st.cert_of) && not same)) [
          | inr q ↦ keep d d' (ground (arith, q)) h
          | inl q ↦ keep (lift codec refuses o r).0 d' (ground (arith, q)) (
              lifted codec refuses o f old kept r
                (keep d r.0 (drop_issued_main codec refuses o f d st) h))
        ]

    after_open-Fine :
        (snap : Snapshot) (forgot : Bool) (r : Disk × State × Option Trouble)
        → snap.bundle ≡ kept
        → Fine r.0
        → Fine (after_open codec refuses o f snap forgot r).0
    after_open-Fine snap forgot (d, st, none) b h = after_success-Fine forgot snap d st h
    after_open-Fine snap true (d, st, some e) b h = after_failure-Fine snap d st (some e) b h
    after_open-Fine snap false (d, st, some e) b h = h

  lift_main :
      (r : Disk × State × Option Failure) → (lift codec refuses o r).0 (main ca) ≡ r.0 (main ca)
  lift_main (d, st, none) = refl
  lift_main (d, st, some e) = refl

  forget_main :
      (d : Disk)
      → let d' = (forget_stale_trust codec refuses o f d).0 in
        (d' (main ca) ≡ d (main ca)) ⊎ (d' (main ca) ≡ none)
  unfolding forget_stale_trust
  forget_main d =
      let st = with_server f.server (load codec refuses d).0 in
      let r = forget_trust codec refuses o d st in
      ground (arith, lift_main r, forget_trust_main codec refuses o f d st)

  forget_bundle :
      (d : Disk)
      → let r = forget_stale_trust codec refuses o f d in
        r.3 ≡ none → r.1.bundle ≡ ca_of codec refuses d
  unfolding forget_stale_trust
  forget_bundle d h = elim (Option-cases (load codec refuses d).1) [
    | inl e ↦ ground (arith, e)
    | inr (x, e) ↦ ground (arith, e)
  ]

  -- Whatever the operating system refuses and the server answers, what is pinned after the trust was
  -- settled is what was pinned before, or nothing, or the file given for it, or the bundle that the
  -- server publishes, whose fingerprint the installation was given or somebody confirmed.
  pub settle_trust-IsConfirmed :
      (d : Disk)
      → IsConfirmed codec refuses o f
          (d (main ca))
          (ca_of codec refuses d)
          ((settle_trust codec refuses o f d).0 (main ca))
  unfolding settle_trust
  settle_trust-IsConfirmed d =
      let old = d (main ca) in
      let kept = ca_of codec refuses d in
      let (d1, snap, forgot, e) = forget_stale_trust codec refuses o f d in
      let d' = (settle_trust codec refuses o f d).0 in
      let first : Fine old kept d1 = elim (forget_main d) [
        | inl p ↦ unchanged p
        | inr p ↦ forgotten p
      ] in
      elim (Option-cases e) [
        | inr (x, p) ↦ keep old kept d1 d' (ground (arith, p)) first
        | inl p ↦
            let r = open_state codec refuses o f d1 in
            keep old kept (after_open codec refuses o f snap forgot r).0 d' (ground (arith, p)) (
              after_open-Fine old kept snap forgot r (forget_bundle d p)
                (open_state-Good codec refuses o f old kept d1 first))
      ]

  -- A trust that is put back without an error is the one of the snapshot: the machine's own, or the
  -- pinned bundle alone; with it goes the address of the server, in the configuration on the disk.
  pub put_back_ok :
      (snap : Snapshot) (d : Disk) (st : State)
      → let r = put_back codec refuses o snap d st in
        r.1 ≡ none
        → (r.0 (main ca) ≡ (if snap.system then none else some snap.bundle))
          × (r.0 (main config)
              ≡ some (
                  codec.encode_config
                    (record st.config_of { server_url = snap.server; system_trust = snap.system })))
  unfolding put_back save_ca use_system_trust save_config
  put_back_ok snap d st h = elim (Bool-cases snap.system) [
    | inl s ↦ (ground arith, ground arith)
    | inr s ↦ (ground arith, ground arith)
  ]
