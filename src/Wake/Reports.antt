-- ===== src/Wake/Reports.antt =====
-- What `run` reports of the targets.
use mathlib.Core.Path.{ap₂}
use fog_agent.Prelude.{
  ◌<◌, ◌≡◌, refl, ap, Bool, true, false, List, [], ◌∷◌, Option, none, some, ◌==◌, if◌then◌else◌,
  length, take, All, Text, arith,
}
use fog_agent.Wake.{
  max_targets, Target, Why, unreadable, no_interfaces, sent, failed, Report, Sender, Log, wake_one,
  wake_each, fail_each, run,
}

-- Sent with a count, or failed without one.
abbrev pub IsConsistent : Report → Type 0
IsConsistent r = elim r.status [ sent ↦ 0 < r.packets | failed ↦ r.packets ≡ 0 ]

abbrev pub targets_of : List Report → List Target
targets_of [] = []
targets_of (r ∷ rs) = r.target ∷ targets_of rs

module _ (sender : Sender) (trim : Text → Text) (parse : Text → Option Text) where
  wake_one_report :
      (log : Log) (t : Target) (bs : List Text)
      → let r = (wake_one sender trim parse log t bs).1 in (r.target ≡ t) × IsConsistent r
  unfolding wake_one
  wake_one_report log t bs = ground arith

  fail_each_reports :
      (why : Why) (ts : List Target)
      → let rs = fail_each sender trim parse why ts in (targets_of rs ≡ ts) × All IsConsistent rs
  fail_each_reports why [] = (refl, tt)
  fail_each_reports why (t ∷ ts) =
      let (e, c) = fail_each_reports why ts in (ap (λ r. t ∷ r) e, (refl, c))

  wake_each_reports :
      (log : Log) (ts : List Target) (bs : List Text)
      → let rs = (wake_each sender trim parse log ts bs).1 in
        (targets_of rs ≡ ts) × All IsConsistent rs
  unfolding wake_each
  wake_each_reports log [] bs = (refl, tt)
  wake_each_reports log (t ∷ ts) bs =
      let (same, consistent) = wake_one_report log t bs in
      let (e, c) = wake_each_reports (wake_one sender trim parse log t bs).0 ts bs in
      (ap₂ (λ a b. a ∷ b) same e, (consistent, c))

  -- `run` reports exactly the first thirty-two targets, in their order and each once; a report says
  -- sent exactly with a count above zero, and failed with a count of zero.
  pub run_reports :
      (targets : List Target)
      → let rs = (run sender trim parse targets).1 in
        (targets_of rs ≡ take max_targets targets) × All IsConsistent rs
  unfolding run
  run_reports targets =
      ends _ _ _ sender.unreadable_interfaces (length sender.broadcasts == 0)
        (λ e. fail_each_reports (unreadable e) (take max_targets targets))
        (fail_each_reports no_interfaces (take max_targets targets))
        (wake_each_reports [] (take max_targets targets) sender.broadcasts)
    where
      AreReports : List Report → Type 0
      AreReports rs = (targets_of rs ≡ take max_targets targets) × All IsConsistent rs

      ends :
          (a : Text → List Report) (b : List Report) (w : Log × List Report) (o : Option Text)
          (q : Bool)
          → ((e : Text) → AreReports (a e))
          → AreReports b
          → AreReports w.1
          → let end : Log × List Report = elim o [
            | none ↦ if q then ([], b) else w
            | some e ↦ ([], a e)
          ] in
            AreReports end.1
      ends a b w (some e) q f g h = f e
      ends a b w none true f g h = g
      ends a b w none false f g h = h
