-- ===== src/Rejoin/Process/Latched.antt =====
-- Every change of the machine is made under a marker that already says that it may have run.
use mathlib.Core.Path.{subst}
use fog_agent.Prelude.{
  ◌≡◌, refl, ◌⊎◌, inl, inr, sym, ◌∙◌, true, List, ◌∷◌, Option, none, some, Option-cases, Bool-cases,
  Text, text, ◌=ᵗ◌, arith,
}
use fog_agent.Agent.Reconcile.Data.{Directory}
use fog_agent.Rejoin.Data.{RejoinPlan, Boot, Observation, Attempt}
use fog_agent.Rejoin.Marker.{Disk, Failure, load_attempt, save_attempt, reserve_attempt}
use fog_agent.Rejoin.Marker.Saved.{IsDocument, save_attempt-IsWhole}
use fog_agent.Rejoin.World.{Host, Stop, Machine, note, marker, claimed, mark, name_review}
use fog_agent.Rejoin.Dispatch.{
  Flow, on, bare, ended, in_phase, first_attempt, forget_history, retire, name_first, claimed_work,
  claim, reserve, start_refusal, start_work,
}
use fog_agent.Rejoin.Process.{
  conclude_flow, after_history, begin, from_plan, plan_refusal, with_plan, process_rejoin,
}
use fog_agent.Rejoin.Process.Stuck.{Change, changes, of_name, of_account}
use fog_agent.Rejoin.Process.Quiet.{
  IsQuiet, doubt-IsQuiet, conclude-IsQuiet, retire-IsQuiet, forget_history-IsQuiet,
  changes-dispatch, name_first-changes,
}

-- The marker that is written before the machine is changed.
abbrev pub latch : Text → RejoinPlan → Boot → Attempt
latch fp p boot = in_phase (text "may_have_run") (first_attempt fp p boot)

-- To the changes `xs` was added, under the disk `d`, the name, the account, or the account after the
-- name, each of them once.
abbrev pub Adds : Disk → List Change → List Change → Type 0
Adds d xs ys =
    (ys ≡ of_name d ∷ xs) ⊎ (ys ≡ of_account d ∷ xs) ⊎ (ys ≡ of_account d ∷ of_name d ∷ xs)

-- The machine was not changed, or its name and its account at most once each, under one disk.
abbrev pub IsWithin : (Disk → Type 0) → Host → Host → Type 0
IsWithin P w w' =
    (changes w'.log ≡ changes w.log) ⊎ ((d : Disk) × P d × Adds d (changes w.log) (changes w'.log))

module _ (m : Machine) (p : RejoinPlan) (fp : Text) where
  -- The marker on a disk is the latch of the plan and the identity.
  abbrev pub IsLatched : Disk → Type 0
  IsLatched d = (boot : Boot) × IsDocument m.lib d.active_of (latch fp p boot)

  work_changes :
      (policy : Directory) (a : Attempt) (o : Observation) (w : Host)
      → let r = claimed_work m p policy a o w in
        let s = save_attempt m.lib (m.refuses w.log) w.disk (in_phase (text "may_have_run") a) in
        (changes r.0.log ≡ changes w.log)
        ⊎ ((s.1 ≡ none) × Adds s.0 (changes w.log) (changes r.0.log))
  unfolding claimed_work
  work_changes policy a o w =
      let b = in_phase (text "may_have_run") a in
      let s = save_attempt m.lib (m.refuses w.log) w.disk b in
      let w1 = (mark w s).0 in
      let (w2, o2, failed) = name_first m p o w1 in
      ground (
        arith,
        name_first-changes m p o w1,
        doubt-IsQuiet m b o2 name_review w2,
        changes-dispatch m p policy b o2 w2,
      )

  work-IsWithin :
      (policy : Directory) (boot : Boot) (o : Observation) (w : Host)
      → IsWithin IsLatched w (claimed_work m p policy (first_attempt fp p boot) o w).0
  work-IsWithin policy boot o w =
      let a = first_attempt fp p boot in
      let s = save_attempt m.lib (m.refuses w.log) w.disk (latch fp p boot) in
      elim (work_changes policy a o w) [
        | inl e ↦ inl e
        | inr (ok, e) ↦
            let written =
              (save_attempt-IsWhole m.lib (m.refuses w.log) w.disk (latch fp p boot)).1 ok in
            inr (s.0, (boot, written.0), e)
      ]

  carry : (w x y : Host) → x ≡ y → IsWithin IsLatched w x → IsWithin IsLatched w y
  carry w x y e h = subst (IsWithin IsLatched w) e h

  rebase : (w w1 w2 : Host) → IsQuiet w w1 → IsWithin IsLatched w1 w2 → IsWithin IsLatched w w2
  rebase w w1 w2 q h =
      subst (λ x. (changes w2.log ≡ x) ⊎ ((d : Disk) × IsLatched d × Adds d x (changes w2.log))) q h

  claim-IsWithin :
      (boot : Boot) (o : Observation) (w : Host)
      → IsWithin IsLatched w (claim m p (first_attempt fp p boot) o w).0
  unfolding claim
  claim-IsWithin boot o w =
      let a = first_attempt fp p boot in
      elim (Option-cases (m.start w.log p)) [
        | inl e ↦ inl (ground (arith, e))
        | inr (policy, e) ↦
            let w1 = note w (claimed p true) in
            carry w (claimed_work m p policy a o w1).0 (claim m p a o w).0 (ground (arith, e))
              (work-IsWithin policy boot o w1)
      ]

  -- What follows a refusal that there may be.
  IsWithin-guard :
      (w : Host) (o : Option Stop) (r : Host × Flow)
      → IsWithin IsLatched w r.0
      → IsWithin IsLatched w
          (elim o as (λ x. Host × Flow) [ some s ↦ (w, ended (some s)) | none ↦ r ]).0
  IsWithin-guard w none r h = h
  IsWithin-guard w (some s) r h = inl refl

  reserved-IsWithin :
      (boot : Boot) (o : Observation) (w : Host) (s : Disk × Option Failure)
      → let (w1, e) = mark w s in
        IsWithin IsLatched w
          (elim e as (λ x. Host × Flow) [
            | some f ↦ (w1, ended (some (marker f)))
            | none ↦ claim m p (first_attempt fp p boot) o w1
          ]).0
  reserved-IsWithin boot o w (d, none) = claim-IsWithin boot o (mark w (d, none)).0
  reserved-IsWithin boot o w (d, some f) = inl refl

  reserve-IsWithin : (o : Observation) (w : Host) → IsWithin IsLatched w (reserve m p fp o w).0
  unfolding reserve
  reserve-IsWithin o w =
      let a = first_attempt fp p o.boot in
      let s = reserve_attempt m.lib (m.refuses w.log) w.disk a in
      IsWithin-guard w (start_refusal m p o) _ (reserved-IsWithin o.boot o w s)

  start_work-IsWithin : (w : Host) → IsWithin IsLatched w (start_work m p fp w).0
  unfolding start_work
  start_work-IsWithin w =
      let (o, seen) = m.observe w.log p.dc in
      elim (Bool-cases (p.phase =ᵗ text "ready")) [
        | inr e ↦ inl (ground (arith, e))
        | inl e ↦ elim (Bool-cases seen) [
          | inr k ↦ inl (ground (arith, e, k))
          | inl k ↦
              carry w (reserve m p fp o w).0 (start_work m p fp w).0 (ground (arith, e, k))
                (reserve-IsWithin o w)
        ]
      ]

  flow-IsWithin :
      (w : Host) (r : Host × Flow)
      → IsWithin IsLatched w r.0
      → IsWithin IsLatched w (conclude_flow m p fp r).0
  flow-IsWithin w (w1, on a) h =
      subst (λ x. (x ≡ changes w.log) ⊎ ((d : Disk) × IsLatched d × Adds d (changes w.log) x))
        (sym (conclude-IsQuiet m p fp a w1)) h
  flow-IsWithin w (w1, bare) h = h
  flow-IsWithin w (w1, ended e) h = h

  begin-IsWithin :
      (w : Host) (r : Host × Flow) → IsQuiet w r.0 → IsWithin IsLatched w (begin m p fp r).0
  unfolding begin
  begin-IsWithin w (w1, on a) h = inl (conclude-IsQuiet m p fp a w1 ∙ h)
  begin-IsWithin w (w1, ended e) h = inl h
  begin-IsWithin w (w1, bare) h =
      rebase w w1 (conclude_flow m p fp (start_work m p fp w1)).0 h
        (flow-IsWithin w1 (start_work m p fp w1) (start_work-IsWithin w1))

  from_plan-IsWithin :
      (a : Option Attempt) (w : Host)
      → m.fingerprint ≡ some fp
      → IsWithin IsLatched w (from_plan m p a w).0
  unfolding from_plan
  from_plan-IsWithin none w e =
      carry w (begin m p fp (w, bare)).0 (from_plan m p none w).0 (ground (arith, e))
        (begin-IsWithin w (w, bare) refl)
  from_plan-IsWithin (some a) w e =
      carry w (begin m p fp (retire m p fp a w)).0 (from_plan m p (some a) w).0 (ground (arith, e))
        (begin-IsWithin w (retire m p fp a w) (retire-IsQuiet m p fp a w))

  with_plan-IsWithin :
      (a : Option Attempt) (w : Host)
      → m.fingerprint ≡ some fp
      → IsWithin IsLatched w (with_plan m p a w).0
  unfolding with_plan
  with_plan-IsWithin a w e = elim (Bool-cases (p.phase =ᵗ text "blocked")) [
    | inl b ↦ inl (ground (arith, b))
    | inr b ↦ elim (Option-cases (plan_refusal m p w.config.host_id)) [
      | inr (s, r) ↦ inl (ground (arith, b, r))
      | inl r ↦
          carry w (from_plan m p a w).0 (with_plan m p a w).0 (ground (arith, b, r))
            (from_plan-IsWithin a w e)
    ]
  ]

  after-IsWithin :
      (w : Host) (r : Host × Flow)
      → m.fingerprint ≡ some fp
      → IsQuiet w r.0
      → IsWithin IsLatched w (after_history m (some p) r).0
  after-IsWithin w (w1, ended s) e h = inl h
  after-IsWithin w (w1, on a) e h =
      rebase w w1 (with_plan m p (some a) w1).0 h (with_plan-IsWithin (some a) w1 e)
  after-IsWithin w (w1, bare) e h =
      rebase w w1 (with_plan m p none w1).0 h (with_plan-IsWithin none w1 e)

  -- A poll with a plan, on a machine whose fingerprint is known, sets the name at most once and makes
  -- the native call at most once, the call after the name, and only while the marker on the disk is
  -- that very plan and identity in the phase may_have_run, whatever the outside answers and whatever
  -- fails.
  pub process_rejoin-IsWithin :
      (w : Host) → m.fingerprint ≡ some fp → IsWithin IsLatched w (process_rejoin m (some p) w).0
  unfolding process_rejoin
  process_rejoin-IsWithin w e =
      let (a, f) = load_attempt m.lib (m.refuses w.log) w.disk in
      elim (Option-cases f) [
        | inr (x, g) ↦ inl (ground (arith, g))
        | inl g ↦
            carry w (after_history m (some p) (forget_history m a w)).0
              (process_rejoin m (some p) w).0 (ground (arith, g))
              (after-IsWithin w (forget_history m a w) e (forget_history-IsQuiet m a w))
      ]
