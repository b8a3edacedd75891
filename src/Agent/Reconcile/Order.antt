-- ===== src/Agent/Reconcile/Order.antt =====
-- The snapins run in the order of the queue, each at most once.
use fog_agent.Prelude.{
  ◌≡◌, refl, inl, inr, Bool, true, false, not, all, List, [], ◌∷◌, ◌++◌, Option, none, some, Text,
  arith, Option-cases,
}
use fog_agent.Prelude.Int.{ℤ}
use fog_agent.Agent.World.{
  Log, Agent, saved, told, ran, updated, acted, settled, reported, claimed, armed, disarmed, asked,
  note,
}
use fog_agent.Agent.Reconcile.Data.{Snapin, SnapinResult, Machine}
use fog_agent.Agent.Reconcile.Queues.{
  tell, want_reboot, after_outcome, run_snapin, run_snapins, source_snapin, item_request,
  snapin_item,
}

-- The snapins that ran, the latest first.
abbrev pub runs : Log → List ℤ
runs [] = []
runs (ran n ∷ log) = n ∷ runs log
runs (updated c ∷ log) = runs log
runs (saved c ∷ log) = runs log
runs (told r o ∷ log) = runs log
runs (acted x ∷ log) = runs log
runs (settled ∷ log) = runs log
runs (reported s d ∷ log) = runs log
runs (claimed b ∷ log) = runs log
runs (armed n ∷ log) = runs log
runs (disarmed ∷ log) = runs log
runs (asked t d b ∷ log) = runs log

-- The identifiers of a queue, the latest first, before those of the list.
abbrev pub push_ids : List Snapin → List ℤ → List ℤ
push_ids [] ids = ids
push_ids (t ∷ ts) ids = push_ids ts (t.id ∷ ids)

module _ (m : Machine) where
  outcome-runs :
      (t : Snapin) (r : SnapinResult) (o : Text) (a : Agent)
      → runs (after_outcome m t r o a).0.log ≡ runs a.log
  unfolding after_outcome want_reboot
  outcome-runs t r o a = ground arith

  snapin-runs : (t : Snapin) (a : Agent) → runs (run_snapin m t a).0.log ≡ t.id ∷ runs a.log
  unfolding run_snapin tell
  snapin-runs t a =
      let r = m.run_snapin a.log t in
      let a1 = note a (ran t.id) in
      let q = item_request a1.config.applied_revision source_snapin (snapin_item m t r) in
      let a2 = (tell m q a1).0 in
      elim (Option-cases (tell m q a1).1) [
        | inl e ↦ ground arith
        | inr (o, e) ↦ ground (arith, outcome-runs t r o a2)
      ]

  -- The snapins that a queue has run are a first part of it, in its order, and each once.
  pub run_snapins_prefix :
      (ts : List Snapin) (a : Agent)
      → (front back : List Snapin) × (front ++ back ≡ ts)
        × (runs (run_snapins m ts a).0.log ≡ push_ids front (runs a.log))
  unfolding run_snapins
  run_snapins_prefix [] a = ([], [], refl, refl)
  run_snapins_prefix (t ∷ ts) a =
      let a1 = (run_snapin m t a).0 in
      let one = snapin-runs t a in
      elim (Option-cases (run_snapin m t a).1) [
        | inl e ↦
            let (front, back, whole, same) = run_snapins_prefix ts a1 in
            (t ∷ front, back, ground (arith, whole), ground (arith, same, one))
        | inr (ok, e) ↦ (t ∷ [], ts, refl, ground (arith, one))
      ]

  -- Left as done before its end.
  abbrev is_cut : Option Bool → Bool
  is_cut none = false
  is_cut (some ok) = ok

  outcome-goes :
      (t : Snapin) (r : SnapinResult) (o : Text) (a : Agent)
      → t.abort_on_fail ≡ false
      → is_cut (after_outcome m t r o a).1 ≡ false
  unfolding after_outcome
  outcome-goes t r o a h = ground arith

  snapin-goes :
      (t : Snapin) (a : Agent) → t.abort_on_fail ≡ false → is_cut (run_snapin m t a).1 ≡ false
  unfolding run_snapin
  snapin-goes t a h =
      let r = m.run_snapin a.log t in
      let a1 = note a (ran t.id) in
      let q = item_request a1.config.applied_revision source_snapin (snapin_item m t r) in
      let a2 = (tell m q a1).0 in
      elim (Option-cases (tell m q a1).1) [
        | inl e ↦ ground arith
        | inr (o, e) ↦ ground (arith, outcome-goes t r o a2 h)
      ]

  -- A queue in which no task asks to stop at a failure, and that is not left for the next poll, has run
  -- as a whole, in its order.
  pub run_snapins_whole :
      (ts : List Snapin) (a : Agent)
      → all (λ t. not t.abort_on_fail) ts ≡ true
      → (run_snapins m ts a).1 ≡ true
      → runs (run_snapins m ts a).0.log ≡ push_ids ts (runs a.log)
  unfolding run_snapins
  run_snapins_whole [] a h ok = refl
  run_snapins_whole (t ∷ ts) a h ok =
      let a1 = (run_snapin m t a).0 in
      let one = snapin-runs t a in
      elim (Option-cases (run_snapin m t a).1) [
        | inl e ↦ ground (arith, run_snapins_whole ts a1 (ground arith) (ground arith), one)
        | inr (b, e) ↦ ground (arith, snapin-goes t a (ground arith))
      ]
