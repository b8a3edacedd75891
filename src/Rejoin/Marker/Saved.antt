-- ===== src/Rejoin/Marker/Saved.antt =====
-- What one call leaves of the marker, whatever the operating system refuses.
use fog_agent.Prelude.{
  same_bool, ◌≡◌, refl, ◌⊎◌, inl, inr, ap, sym, ◌∙◌, Bool, true, false, Option, none, some,
  Option-cases, Bool-cases, text, Text, text_eq→eq, arith, is_yes→, is_yes←, if◌then◌else◌,
}
use mathlib.Core.Path.{subst}
use fog_agent.Rejoin.Data.{
  RejoinPlan, Attempt, Library, same_plan, same_attempt, RejoinPlan-discrete, Attempt-discrete,
}
use fog_agent.Rejoin.Marker.{
  temp, Disk, Call, Failure, attempt_phase_update, put, judge, load_attempt, write_attempt_file,
  save_attempt_locked, save_refusal, save_attempt, locking, refused, latch_refusal, removing,
  replacing, replace_marker, with_lock, guarded, set_reboot_requested,
}

same_plan→eq : (p q : RejoinPlan) → same_plan p q ≡ true → p ≡ q
unfolding same_plan
same_plan→eq p q h = is_yes→ (RejoinPlan-discrete p q) h

pub same_attempt→eq : (a b : Attempt) → same_attempt a b ≡ true → a ≡ b
unfolding same_attempt
same_attempt→eq a b h = is_yes→ (Attempt-discrete a b) h

pub same_attempt_refl : (a : Attempt) → same_attempt a a ≡ true
unfolding same_attempt
same_attempt_refl a = is_yes← (Attempt-discrete a a) refl

module _ (lib : Library) where
  -- The disk holds the document of an attempt.
  pub record Holds (d : Disk) (a : Attempt) : Type 0 where
    pub document : Text
    pub stored : d.active_of ≡ some document
    pub decoded : lib.decode document ≡ some (a, true)

  -- A file holds the document of an attempt, as it is written.
  abbrev pub IsDocument : Option Text → Attempt → Type 0
  IsDocument o a = (t : Text) × (lib.encode a ≡ some t) × (o ≡ some t)

  -- An attempt whose document is read as it was written.
  abbrev pub IsRead : Attempt → Type 0
  IsRead a = (t : Text) → lib.encode a ≡ some t → lib.decode t ≡ some (a, true)

  pub document-Holds : (d : Disk) (a : Attempt) → IsRead a → IsDocument d.active_of a → Holds d a
  document-Holds d a law (t, w, p) = record { document = t; stored = p; decoded = law t w }

  judge_ok :
      (a b : Attempt) (ended : Bool) → judge lib a ended ≡ (some b, none) → (a ≡ b) × (ended ≡ true)
  unfolding judge
  judge_ok a b ended h = ground arith

  module _ (refuses : Call → Bool) where
    pub load_attempt-Holds :
        (d : Disk) (a : Attempt) → load_attempt lib refuses d ≡ (some a, none) → Holds d a
    unfolding load_attempt
    load_attempt-Holds d a h = elim (Option-cases d.active_of) [
      | inl e ↦ ground arith
      | inr (t, e) ↦ elim (Option-cases (lib.decode t)) [
        | inl f ↦ ground arith
        | inr ((b, ended), f) ↦
            let (same, whole) = judge_ok b a ended (ground arith) in
            record { document = t; stored = e; decoded = f ∙ ground arith }
      ]
    ]

    write_attempt_file_temp :
        (d : Disk) (a : Attempt)
        → let r = write_attempt_file lib refuses d temp a in
          (r.0.active_of ≡ d.active_of) × (r.1 ≡ none → IsDocument r.0.temp_of a)
    unfolding write_attempt_file
    write_attempt_file_temp d a = elim (Option-cases (lib.encode a)) [
      | inl e ↦ (ground arith, λ h. ground arith)
      | inr (t, e) ↦ (ground arith, λ h. (t, e, ground arith))
    ]

    replace-IsDocument :
        (r : Disk × Option Failure) (a : Attempt)
        → (r.1 ≡ none → IsDocument r.0.temp_of a)
        → let s = replace_marker lib refuses r in
          ((s.0.active_of ≡ r.0.active_of) ⊎ IsDocument s.0.active_of a)
          × (s.1 ≡ none → IsDocument s.0.active_of a)
    replace-IsDocument (d, some e) a h = (inl refl, λ h. ground arith)
    replace-IsDocument (d, none) a h = elim (Bool-cases (refuses replacing)) [
      | inl e ↦ (inl (ground arith), λ h. ground arith)
      | inr e ↦
          let (t, w, p) = h refl in
          let held : IsDocument (replace_marker lib refuses (d, none)).0.active_of a =
            (t, w, ground arith) in
          (inr held, λ k. held)
    ]

    -- Either the whole old marker or the whole new one, and that one if there is no error.
    abbrev pub IsAtomic : Disk → Attempt → Disk × Option Failure → Type 0
    IsAtomic d a r =
        ((r.0.active_of ≡ d.active_of) ⊎ IsDocument r.0.active_of a)
        × (r.1 ≡ none → IsDocument r.0.active_of a)

    IsAtomic-if :
        (d : Disk) (a : Attempt) (b : Bool) (e : Failure) (r : Disk × Option Failure)
        → IsAtomic d a r
        → IsAtomic d a (if b then (d, some e) else r)
    IsAtomic-if d a true e r h = (inl refl, λ k. ground arith)
    IsAtomic-if d a false e r h = h

    save_locked-IsAtomic :
        (d : Disk) (a : Attempt) → IsAtomic d a (save_attempt_locked lib refuses d a)
    unfolding save_attempt_locked
    save_locked-IsAtomic d a =
        let (kept, written) = write_attempt_file_temp (put d temp none) a in
        let r = write_attempt_file lib refuses (put d temp none) temp a in
        let (left, saved) = replace-IsDocument r a written in
        IsAtomic-if d a (refuses (removing temp)) (refused (removing temp))
          (replace_marker lib refuses r)
          (elim left [ inl e ↦ inl (e ∙ kept) | inr w ↦ inr w ], saved)

-- What a marker may be replaced by: the same operation of the same identity, in a phase that may
-- follow, with the same latch for the restart.
pub record IsUpdate (a b : Attempt) : Type 0 where
  pub plan_kept : a.plan ≡ b.plan
  pub fingerprint_kept : a.fingerprint ≡ b.fingerprint
  pub phase_follows : attempt_phase_update a.phase b.phase ≡ true
  pub latch_kept : a.reboot_requested ≡ b.reboot_requested

same_bool→eq : (a b : Bool) → same_bool a b ≡ true → a ≡ b
same_bool→eq a b h = ground arith

module _ (lib : Library) (refuses : Call → Bool) where
  -- Either a guarded call is refused and leaves the disk as it was, or the marker could be loaded and
  -- the guard lets the call through.
  pub guarded-cases :
      (d : Disk) (guard : Option Attempt → Option Failure) (r : Disk × Option Failure)
      → let o = with_lock lib refuses d (guarded lib refuses d guard r) in
        ((e : Failure) × (o ≡ (d, some e)))
        ⊎ ((o ≡ r)
            × ((current : Option Attempt) × (load_attempt lib refuses d ≡ (current, none))
                × (guard current ≡ none)))
  guarded-cases d guard r = elim (Bool-cases (refuses locking)) [
    | inl l ↦ inl (refused locking, ground arith)
    | inr l ↦
        let (current, e) = load_attempt lib refuses d in
        elim (Option-cases e) [
          | inr (f, p) ↦ inl (f, ground arith)
          | inl p ↦ elim (Option-cases (guard current)) [
            | inr (f, q) ↦ inl (f, ground arith)
            | inl q ↦ inr (ground arith, (current, ground arith, q))
          ]
        ]
  ]

  save_refusal-IsUpdate :
      (o : Option Attempt) (a : Attempt)
      → save_refusal lib refuses o a ≡ none
      → (current : Attempt) × (o ≡ some current) × IsUpdate current a
  unfolding save_refusal
  save_refusal-IsUpdate o a h = elim (Option-cases o) [
    | inl e ↦ ground arith
    | inr (current, e) ↦ (
      current,
      e,
      record {
        plan_kept = same_plan→eq current.plan a.plan (ground arith);
        fingerprint_kept = text_eq→eq current.fingerprint a.fingerprint (ground arith);
        phase_follows = ground arith;
        latch_kept = same_bool→eq current.reboot_requested a.reboot_requested (ground arith);
      },
    )
  ]

  -- The marker before a call that changes it is one that could be read and that the new one may follow.
  abbrev pub Replaces : Disk → Disk → Attempt → Type 0
  Replaces d d' a =
      IsDocument lib d'.active_of a
      × ((current : Attempt) × Holds lib d current × IsUpdate current a)

  -- The marker is left as it was, or replaced; it is replaced if there is no error.
  abbrev pub IsWhole : Disk → Attempt → Disk × Option Failure → Type 0
  IsWhole d a r =
      ((r.0.active_of ≡ d.active_of) ⊎ Replaces d r.0 a) × (r.1 ≡ none → Replaces d r.0 a)

  -- A save, whatever fails in it, leaves the marker as it was, or has replaced it as a whole by the
  -- document of the attempt; then the marker was readable, of the same identity and plan, and in a
  -- phase that the new one may follow. Without an error it has replaced it.
  pub save_attempt-IsWhole :
      (d : Disk) (a : Attempt)
      → let r = save_attempt lib refuses d a in
        ((r.0.active_of ≡ d.active_of) ⊎ Replaces d r.0 a) × (r.1 ≡ none → Replaces d r.0 a)
  unfolding save_attempt Replaces
  save_attempt-IsWhole d a =
      elim (guarded-cases d (λ c. save_refusal lib refuses c a)
        (save_attempt_locked lib refuses d a)) [
          | inl (e, p) ↦ (inl (ap (λ x. x.0.active_of) p), λ h. ground arith)
          | inr (p, (loaded, l, g)) ↦
              let (current, e, u) = save_refusal-IsUpdate loaded a g in
              let held = load_attempt-Holds lib refuses d current (l ∙ ap (λ x. (x, none)) e) in
              let (left, saved) = save_locked-IsAtomic lib refuses d a in
              let outcome : IsWhole d a (save_attempt_locked lib refuses d a) = (
                elim left [ inl e ↦ inl e | inr w ↦ inr (w, (current, held, u)) ],
                λ h. (saved h, (current, held, u)),
              ) in
              subst (IsWhole d a) (sym p) outcome
        ]

  latch_refusal-none :
      (a current : Attempt) (requested : Bool)
      → latch_refusal lib refuses (some a) (some current) requested ≡ none
      → (same_attempt current a ≡ true)
        × (current.phase ≡ text "awaiting_reboot")
        × (same_bool current.reboot_requested requested ≡ false)
  latch_refusal-none a current requested h =
      (ground arith, text_eq→eq current.phase (text "awaiting_reboot") (ground arith), ground arith)

  -- A latch that is set without an error was set on the very marker that the caller had seen, which
  -- awaits the restart and had the other latch; nothing else of it changes.
  pub set_reboot_requested_ok :
      (d : Disk) (a : Attempt) (requested : Bool)
      → let r = set_reboot_requested lib refuses d (some a) requested in
        r.1 ≡ none
        → Holds lib d a
          × (a.phase ≡ text "awaiting_reboot")
          × (same_bool a.reboot_requested requested ≡ false)
          × IsDocument lib r.0.active_of (record a { reboot_requested = requested })
  unfolding set_reboot_requested
  set_reboot_requested_ok d a requested h =
      let next : Attempt = record a { reboot_requested = requested } in
      let guard : Option Attempt → Option Failure =
        λ c. latch_refusal lib refuses (some a) c requested in
      elim (guarded-cases d guard (save_attempt_locked lib refuses d next)) [
        | inl (e, p) ↦ ground arith
        | inr (p, (none, l, g)) ↦ ground arith
        | inr (p, (some current, l, g)) ↦
            let (same, phase, latch) = latch_refusal-none a current requested g in
            let e = same_attempt→eq current a same in
            (
              load_attempt-Holds lib refuses d a (l ∙ ap (λ x. (some x, none)) e),
              sym (ap (λ x. x.phase) e) ∙ phase,
              ap (λ x. same_bool x.reboot_requested requested) (sym e) ∙ latch,
              subst (λ r. IsDocument lib r.0.active_of next) (sym p)
                  ((save_locked-IsAtomic lib refuses d next).1 (ground arith)),
            )
      ]
