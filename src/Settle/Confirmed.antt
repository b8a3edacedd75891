-- ===== src/Settle/Confirmed.antt =====
-- Where a bundle that is pinned can come from.
use mathlib.Core.Path.{subst}
use fog_agent.Prelude.{
  ◌≡◌, refl, ◌⊎◌, inl, inr, sym, ap, Bool, true, false, ◌||◌, Option, none, some, [], Text, text,
  ◌=ᵗ◌, Option-cases, Bool-cases, ltb, length, arith,
}
use fog_agent.Enroll.Data.{ca, main, Disk, Call, Failure}
use fog_agent.Enroll.{
  Codec, State, load, save_ca, use_system_trust, save_config, drop_issued, has_trust,
}
use fog_agent.Settle.{
  Flags, Probe, Trouble, Outside, same_fingerprint, judge_probe, acquire_ca, lift, pin_file,
  pin_acquired, pin_probe, keep_state, next, open_loaded, open_state, with_server, forget_trust,
}

module _ (codec : Codec) (refuses : Call → Bool) (o : Outside) (f : Flags) where
  -- The bundle that a server publishes counts only if somebody vouches for its fingerprint: the one who
  -- gave it for the installation, or else the one at the console.
  pub record IsVouched (p : Probe) : Type 0 where
    pub server : Text
    pub offered : o.probe server ≡ some p
    pub not_system : p.system_trust ≡ false
    pub vouched :
        (((o.trim f.ca_fingerprint =ᵗ []) ≡ false)
          × (same_fingerprint codec refuses o (o.trim f.ca_fingerprint) p.fingerprint ≡ true))
        ⊎ (((o.trim f.ca_fingerprint =ᵗ []) ≡ true)
            × (o.is_console ≡ true)
            × ((o.to_lower o.answer =ᵗ text "y" || o.to_lower o.answer =ᵗ text "yes") ≡ true))

  acquire_ca-IsVouched :
      (server : Text) (pem : Text)
      → acquire_ca codec refuses o f server ≡ ((pem, false), none)
      → (pem ≡ []) ⊎ ((p : Probe) × IsVouched p × (pem ≡ p.pem))
  unfolding acquire_ca judge_probe
  acquire_ca-IsVouched server pem h = elim (Option-cases (o.probe server)) [
    | inl e ↦ ground (arith, e)
    | inr (p, e) ↦ elim (Bool-cases (o.trim f.ca_fingerprint =ᵗ [])) [
      | inl w ↦ elim (Bool-cases o.is_console) [
        | inl c ↦ inr (
          p,
          record {
            server = server;
            offered = e;
            not_system = ground (arith, e, w, c);
            vouched = inr (w, c, ground (arith, e, w, c));
          },
          ground (arith, e, w, c),
        )
        | inr c ↦ inl (ground (arith, e, w, c))
      ]
      | inr w ↦ inr (
        p,
        record {
          server = server;
          offered = e;
          not_system = ground (arith, e, w);
          vouched = inl (w, ground (arith, e, w));
        },
        ground (arith, e, w),
      )
    ]
  ]

  save_ca_main :
      (d : Disk) (st : State) (pem : Text)
      → let d' = (save_ca codec refuses d st pem).0 in
        (d' (main ca) ≡ d (main ca)) ⊎ (d' (main ca) ≡ some pem)
  unfolding save_ca
  save_ca_main d st pem = ground arith

  use_system_trust_main :
      (d : Disk) (st : State)
      → let d' = (use_system_trust codec refuses d st).0 in
        (d' (main ca) ≡ d (main ca)) ⊎ (d' (main ca) ≡ none)
  unfolding use_system_trust
  use_system_trust_main d st = ground arith

  pub forget_trust_main :
      (d : Disk) (st : State)
      → let d' = (forget_trust codec refuses o d st).0 in
        (d' (main ca) ≡ d (main ca)) ⊎ (d' (main ca) ≡ none)
  unfolding forget_trust
  forget_trust_main d st = ground arith

  pub save_config_main :
      (d : Disk) (st : State) → (save_config codec refuses d st).0 (main ca) ≡ d (main ca)
  unfolding save_config
  save_config_main d st = ground arith

  pub drop_issued_main :
      (d : Disk) (st : State) → (drop_issued codec refuses d st).0 (main ca) ≡ d (main ca)
  unfolding drop_issued
  drop_issued_main d st = ground arith

  -- Where the content of the file of the pinned bundle can come from, if it was `old` and `kept` was read
  -- of it.
  pub data IsConfirmed (old : Option Text) (kept : Text) (x : Option Text) : Type 0 where
    unchanged : x ≡ old → IsConfirmed old kept x
    forgotten : x ≡ none → IsConfirmed old kept x
    put_back_again : x ≡ some kept → IsConfirmed old kept x
    of_file : (f.ca_path =ᵗ []) ≡ false → x ≡ o.read_bundle f.ca_path → IsConfirmed old kept x
    of_server : (p : Probe) → IsVouched p → x ≡ some p.pem → IsConfirmed old kept x

  module _ (old : Option Text) (kept : Text) where
    abbrev pub Good : Disk → Type 0
    Good d = IsConfirmed old kept (d (main ca))

    pub carried : (d d' : Disk) → d' (main ca) ≡ d (main ca) → Good d → Good d'
    carried d d' e h = subst (IsConfirmed old kept) (sym e) h

    lift_disk : (r : Disk × State × Option Failure) → (lift codec refuses o r).0 ≡ r.0
    lift_disk (d, st, none) = refl
    lift_disk (d, st, some e) = refl

    pub lifted : (r : Disk × State × Option Failure) → Good r.0 → Good (lift codec refuses o r).0
    lifted r h = carried r.0 (lift codec refuses o r).0 (ap (λ d. d (main ca)) (lift_disk r)) h

    pub save_ca-Good :
        (d : Disk) (st : State) (pem : Text)
        → Good d
        → IsConfirmed old kept (some pem)
        → Good (save_ca codec refuses d st pem).0
    save_ca-Good d st pem h k = elim (save_ca_main d st pem) [
      | inl e ↦ carried d (save_ca codec refuses d st pem).0 e h
      | inr e ↦ subst (IsConfirmed old kept) (sym e) k
    ]

    pub system-Good :
        (d : Disk) (st : State) → Good d → Good (use_system_trust codec refuses d st).0
    system-Good d st h = elim (use_system_trust_main d st) [
      | inl e ↦ carried d (use_system_trust codec refuses d st).0 e h
      | inr e ↦ forgotten e
    ]

    pin_file-Good : (d : Disk) (st : State) → Good d → Good (pin_file codec refuses o f d st).0
    unfolding pin_file
    pin_file-Good d st h = elim (Bool-cases (f.ca_path =ᵗ [])) [
      | inl e ↦ carried d (pin_file codec refuses o f d st).0 (ground (arith, e)) h
      | inr e ↦ elim (Option-cases (o.read_bundle f.ca_path)) [
        | inl b ↦ carried d (pin_file codec refuses o f d st).0 (ground (arith, e, b)) h
        | inr (pem, b) ↦
            let r = save_ca codec refuses d st pem in
            carried (lift codec refuses o r).0 (pin_file codec refuses o f d st).0
              (ground (arith, e, b)) (lifted r (save_ca-Good d st pem h (of_file e (sym b))))
      ]
    ]

    pin_acquired-Good :
        (got : (Text × Bool) × Option Trouble) (d : Disk) (st : State)
        → ((pem : Text)
            → got ≡ ((pem, false), none)
            → (pem ≡ []) ⊎ ((p : Probe) × IsVouched p × (pem ≡ p.pem)))
        → Good d
        → Good (pin_acquired codec refuses o got d st).0
    unfolding pin_acquired
    pin_acquired-Good (got, some e) d st law h = h
    pin_acquired-Good ((pem, true), none) d st law h =
        lifted (use_system_trust codec refuses d st) (system-Good d st h)
    pin_acquired-Good ((pem, false), none) d st law h =
        let d' = (pin_acquired codec refuses o ((pem, false), none) d st).0 in
        let r = save_ca codec refuses d st pem in
        elim (law pem refl) [
          | inl e ↦ carried d d' (ground (arith, e)) h
          | inr (p, v, e) ↦ elim (Bool-cases (ltb 0 (length pem))) [
            | inr b ↦ carried d d' (ground (arith, b)) h
            | inl b ↦
                carried (lift codec refuses o r).0 d' (ground (arith, b))
                  (lifted r (save_ca-Good d st pem h (of_server p v (ap (λ x. some x) e))))
          ]
        ]

    pin_probe-Good : (d : Disk) (st : State) → Good d → Good (pin_probe codec refuses o f d st).0
    unfolding pin_probe
    pin_probe-Good d st h =
        let got = acquire_ca codec refuses o f st.config_of.server_url in
        elim (Bool-cases (has_trust codec refuses d st)) [
          | inl e ↦ carried d (pin_probe codec refuses o f d st).0 (ground (arith, e)) h
          | inr e ↦
              carried (pin_acquired codec refuses o got d st).0 (pin_probe codec refuses o f d st).0
                (ground (arith, e))
                (pin_acquired-Good got d st (acquire_ca-IsVouched st.config_of.server_url) h)
        ]

    keep_state-Good : (d : Disk) (st : State) → Good d → Good (keep_state codec refuses o d st).0
    unfolding keep_state
    keep_state-Good d st h =
        let (d1, e) = save_config codec refuses d st in
        elim (Bool-cases (has_trust codec refuses d st)) [
          | inr t ↦ carried d (keep_state codec refuses o d st).0 (ground (arith, t)) h
          | inl t ↦
              carried (lift codec refuses o (d1, st, e)).0 (keep_state codec refuses o d st).0
                (ground (arith, t)) (lifted (d1, st, e) (carried d d1 (save_config_main d st) h))
        ]

    next-Good :
        (step : Disk → State → Disk × State × Option Trouble) (r : Disk × State × Option Trouble)
        → ((d : Disk) (st : State) → Good d → Good (step d st).0)
        → Good r.0
        → Good (next codec refuses o step r).0
    next-Good step (d, st, none) law h = law d st h
    next-Good step (d, st, some e) law h = h

    open_loaded-Good :
        (d : Disk) (st : State) → Good d → Good (open_loaded codec refuses o f d st).0
    unfolding open_loaded
    open_loaded-Good d st h =
        let pinned = pin_file codec refuses o f d st in
        let probed = next codec refuses o (pin_probe codec refuses o f) pinned in
        let done = next codec refuses o (keep_state codec refuses o) probed in
        elim (Bool-cases (st.config_of.server_url =ᵗ [])) [
          | inl e ↦ carried d (open_loaded codec refuses o f d st).0 (ground (arith, e)) h
          | inr e ↦ carried done.0 (open_loaded codec refuses o f d st).0 (ground (arith, e)) (
              next-Good (keep_state codec refuses o) probed keep_state-Good (
                next-Good (pin_probe codec refuses o f) pinned pin_probe-Good
                  (pin_file-Good d st h)))
        ]

    pub open_state-Good : (d : Disk) → Good d → Good (open_state codec refuses o f d).0
    unfolding open_state
    open_state-Good d h =
        let (st, e) = load codec refuses d in
        let st1 = with_server f.server st in
        elim (Option-cases e) [
          | inr (x, p) ↦ carried d (open_state codec refuses o f d).0 (ground (arith, p)) h
          | inl p ↦
              carried (open_loaded codec refuses o f d st1).0 (open_state codec refuses o f d).0
                (ground (arith, p)) (open_loaded-Good d st1 h)
        ]
