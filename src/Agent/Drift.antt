-- ===== src/Agent/Drift.antt =====
-- cmd/fog-agent/main.go, drift: the software and the printers between two revisions.
use fog_agent.Prelude.{Bool, false, ◌&&◌, ◌||◌, [], ◌∷◌, Option, none, some, if◌then◌else◌, Time}
use fog_agent.Prelude.Int.{ℤ, pos, ltb_ℤ, leb_ℤ, wrap64, ◌*ℤ◌}
use fog_agent.Enroll.Data.{Config}
use fog_agent.Reboot.{nanos_per_second}
use fog_agent.Agent.World.{Agent, save}
use fog_agent.Agent.Format.{facts_interval, has_elapsed}
use fog_agent.Agent.Reconcile.Data.{Software, Desired, Machine}
use fog_agent.Agent.Reconcile.Queues.{run_software, run_printers}

module _ (m : Machine) where
  unfoldable pub blocked_cleared : Agent → Bool
  blocked_cleared a = a.config.software_blocked && m.choco_available a.log

  abbrev pub is_over : Time → Config → ℤ → Bool
  is_over now c interval =
      has_elapsed now c.software_checked (wrap64 (interval *ℤ nanos_per_second))

  unfoldable pub drift_due : Option Software → Agent → Bool
  unfolding blocked_cleared
  drift_due none a = false
  drift_due (some policy) a = elim policy.entries [
    | [] ↦ false
    | e ∷ es ↦
        if leb_ℤ policy.drift_interval (pos 0)
        then false
        else is_over (m.clock a.log) a.config policy.drift_interval || blocked_cleared a
  ]

  unfoldable pub printers_drift_due : Agent → Bool
  printers_drift_due a =
      a.config.printers_managed
      && has_elapsed (m.clock a.log) a.config.printers_checked facts_interval

  unfoldable pub software_drift_may_be_due : Agent → Bool
  unfolding blocked_cleared
  software_drift_may_be_due a =
      ltb_ℤ (pos 0) a.config.software_drift
      && (is_over (m.clock a.log) a.config a.config.software_drift || blocked_cleared a)

  unfoldable pub drift_may_be_due : Agent → Bool
  unfolding software_drift_may_be_due printers_drift_due
  drift_may_be_due a = software_drift_may_be_due a || printers_drift_due a

  -- drift, in its two parts: whether the configuration was written.
  unfoldable pub drift_software : Desired → Agent → Agent
  unfolding drift_due run_software
  drift_software d a = elim d.software [
    | none ↦ a
    | some policy ↦ if drift_due d.software a then (run_software m d.revision policy a).0 else a
  ]

  unfoldable pub drift_printers : Desired → Agent → Agent
  unfolding printers_drift_due run_printers
  drift_printers d a = elim d.printers [
    | none ↦ a
    | some policy ↦ if printers_drift_due a then (run_printers m d.revision policy a).0 else a
  ]

  unfoldable pub drift : Desired → Agent → Agent × Bool
  unfolding drift_software drift_printers save
  drift d a = save m.can_save (drift_printers d (drift_software d a))
