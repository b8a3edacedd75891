-- ===== src/Rejoin/Process/Verified.antt =====
-- When a rejoin counts as done.
use fog_agent.Prelude.{◌≡◌, ◌⊎◌, inl, inr, Bool, true, false, none, Option-cases, Text, text, arith}
use fog_agent.Rejoin.Data.{RejoinPlan, Observation, Attempt}
use fog_agent.Rejoin.Valid.{new_boot}
use fog_agent.Rejoin.World.{Host, Machine}
use fog_agent.Rejoin.Dispatch.{rejoin_report}
use fog_agent.Rejoin.Process.{is_healthy, verify_boot, check_boot, confirm}

module _ (m : Machine) where
  report_disk :
      (a : Attempt) (phase : Text) (o : Observation) (boot : Bool) (w : Host)
      → (rejoin_report m a phase o boot w).0.disk ≡ w.disk
  unfolding rejoin_report
  report_disk a phase o boot w = ground arith

  -- The server took the report of the last stage.
  abbrev pub IsReported : Host → Observation → Attempt → Type 0
  IsReported w o a = (rejoin_report m a (text "verified") o true w).1 ≡ none

  verify_boot_disk :
      (a : Attempt) (o : Observation) (w : Host)
      → ((verify_boot m a o w).0.disk ≡ w.disk) ⊎ IsReported w o a
  unfolding verify_boot
  verify_boot_disk a o w = elim (Option-cases (rejoin_report m a (text "verified") o true w).1) [
    | inl e ↦ inr e
    | inr (s, e) ↦ inl (ground (arith, e, report_disk a (text "verified") o true w))
  ]

  check_boot_disk :
      (a : Attempt) (o : Observation) (w : Host)
      → ((check_boot m a o w).0.disk ≡ w.disk)
        ⊎ ((new_boot a.before_boot o.boot ≡ true) × (is_healthy m a o ≡ true) × IsReported w o a)
  unfolding check_boot
  check_boot_disk a o w = ground (arith, verify_boot_disk a o w)

  -- A poll that finds a restart awaited leaves the marker as it is, unless the machine has started anew
  -- since the operation and is as the plan wants it, and the server has taken the report of that.
  pub confirm_disk :
      (p : RejoinPlan) (a : Attempt) (w : Host)
      → let o = (m.observe w.log a.plan.dc).0 in
        let w1 = (rejoin_report m a (text "awaiting_reboot") o false w).0 in
        ((confirm m p a w).0.disk ≡ w.disk)
        ⊎ ((new_boot a.before_boot o.boot ≡ true)
            × (is_healthy m a o ≡ true)
            × (IsReported w o a ⊎ IsReported w1 o a))
  unfolding confirm
  confirm_disk p a w =
      let o = (m.observe w.log a.plan.dc).0 in
      let w1 = (rejoin_report m a (text "awaiting_reboot") o false w).0 in
      ground (
        arith,
        report_disk a (text "awaiting_reboot") o false w,
        check_boot_disk a o w,
        check_boot_disk a o w1,
      )
