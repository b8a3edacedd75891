-- ===== src/Rejoin/Marker/Cleared.antt =====
-- What takes a marker away: an archive of one that is verified, and a retry of an unused reservation.
use fog_agent.Prelude.{
  ◌≡◌, ◌⊎◌, inl, inr, ap, sym, ◌∙◌, Bool, true, Option, none, some, Option-cases, text, Text,
  text_eq→eq, text_eq_refl, arith,
}
use fog_agent.Prelude.Int.{ℤ}
use fog_agent.Rejoin.Data.{RejoinPlan, Attempt, Library}
use fog_agent.Rejoin.Marker.{
  Disk, Call, archive_refusal, move_away, retry_refusal, remove_active, archive_verified_attempt,
  validate_reserved_retry, remove_attempt_for_retry,
}
use fog_agent.Rejoin.Marker.Saved.{Holds, same_attempt→eq, load_attempt-Holds, guarded-cases}

module _ (lib : Library) (refuses : Call → Bool) where
  archive_refusal-none :
      (a current : Attempt)
      → archive_refusal lib refuses a (some current) ≡ none
      → (current ≡ a) × (current.phase ≡ text "verified")
  archive_refusal-none a current h = (
    same_attempt→eq current a (ground arith),
    text_eq→eq current.phase (text "verified") (ground arith),
  )

  -- The marker is gone and stands in the archive under its digest.
  pub IsArchived : Disk → Disk → Type 0
  IsArchived d d' =
      (d'.active_of ≡ none)
      × ((t : Text) × (d.active_of ≡ some t) × (d'.archived (lib.digest t) ≡ some t))

  move_away-IsArchived :
      (d : Disk) → (move_away lib refuses d).0 ≡ d ⊎ IsArchived d (move_away lib refuses d).0
  unfolding IsArchived
  move_away-IsArchived d = elim (Option-cases d.active_of) [
    | inl e ↦ inl (ground arith)
    | inr (t, e) ↦ ground (arith, text_eq_refl (lib.digest t))
  ]

  -- An archive, whatever fails in it, leaves the disk as it was, or moves the very marker that the caller
  -- had seen, with its bytes, and only one that is verified.
  pub archive_verified-IsArchived :
      (d : Disk) (a : Attempt)
      → let d' = (archive_verified_attempt lib refuses d a).0 in
        (d' ≡ d) ⊎ (IsArchived d d' × Holds lib d a × (a.phase ≡ text "verified"))
  unfolding archive_verified_attempt IsArchived
  archive_verified-IsArchived d a =
      elim (guarded-cases lib refuses d (archive_refusal lib refuses a) (move_away lib refuses d)) [
        | inl (e, p) ↦ inl (ground arith)
        | inr (p, (none, l, g)) ↦ ground arith
        | inr (p, (some current, l, g)) ↦
            let (e, phase) = archive_refusal-none a current g in
            let held = load_attempt-Holds lib refuses d a (l ∙ ap (λ x. (some x, none)) e) in
            elim (move_away-IsArchived d) [
              | inl q ↦ inl (ground arith)
              | inr (gone, (t, was, kept)) ↦
                  inr (
                    (ground arith, (t, was, ground arith)),
                    held,
                    sym (ap (λ x. x.phase) e) ∙ phase,
                  )
            ]
      ]

  reserved_retry-reserved :
      (a : Attempt) (p : RejoinPlan) (host : ℤ) (fingerprint : Text)
      → validate_reserved_retry lib a p host fingerprint ≡ true
      → (a.phase ≡ text "reserved") × (p.retry_authorized ≡ true) × (a.fingerprint ≡ fingerprint)
  unfolding validate_reserved_retry
  reserved_retry-reserved a p host fingerprint h = (
    text_eq→eq a.phase (text "reserved") (ground arith),
    ground arith,
    text_eq→eq a.fingerprint fingerprint (ground arith),
  )

  retry_refusal-none :
      (a : Attempt) (p : RejoinPlan) (host : ℤ) (fingerprint : Text) (o : Option Attempt)
      → retry_refusal lib refuses a p host fingerprint o ≡ none
      → (o ≡ some a)
        × (a.phase ≡ text "reserved")
        × (p.retry_authorized ≡ true)
        × (a.fingerprint ≡ fingerprint)
  retry_refusal-none a p host fingerprint none h = ground arith
  retry_refusal-none a p host fingerprint (some current) h =
      let e = same_attempt→eq current a (ground arith) in
      let (phase, asked, same) =
        reserved_retry-reserved current p host fingerprint (ground arith) in
      (
        ap (λ x. some x) e,
        sym (ap (λ x. x.phase) e) ∙ phase,
        asked,
        sym (ap (λ x. x.fingerprint) e) ∙ same,
      )

  remove_active_gone :
      (d : Disk)
      → ((remove_active lib refuses d).0 ≡ d) ⊎ ((remove_active lib refuses d).0.active_of ≡ none)
  remove_active_gone d = ground arith

  -- A removal for a retry, whatever fails in it, leaves the disk as it was, or removes the very marker
  -- that the caller had seen, and only a reservation of the same identity, for a plan that is
  -- authorized to try again.
  pub remove_for_retry-reserved :
      (d : Disk) (a : Attempt) (p : RejoinPlan) (host : ℤ) (fingerprint : Text)
      → let d' = (remove_attempt_for_retry lib refuses d a p host fingerprint).0 in
        (d' ≡ d)
        ⊎ ((d'.active_of ≡ none)
            × Holds lib d a
            × (a.phase ≡ text "reserved")
            × (p.retry_authorized ≡ true)
            × (a.fingerprint ≡ fingerprint))
  unfolding remove_attempt_for_retry
  remove_for_retry-reserved d a p host fingerprint =
      let guard = retry_refusal lib refuses a p host fingerprint in
      elim (guarded-cases lib refuses d guard (remove_active lib refuses d)) [
        | inl (e, q) ↦ inl (ap (λ x. x.0) q)
        | inr (q, (loaded, l, g)) ↦
            let (e, phase, asked, same) = retry_refusal-none a p host fingerprint loaded g in
            let held = load_attempt-Holds lib refuses d a (l ∙ ap (λ x. (x, none)) e) in
            elim (remove_active_gone d) [
              | inl r ↦ inl (ap (λ x. x.0) q ∙ r)
              | inr r ↦ inr (ap (λ x. x.0.active_of) q ∙ r, held, phase, asked, same)
            ]
      ]
