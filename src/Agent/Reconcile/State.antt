-- ===== src/Agent/Reconcile/State.antt =====
-- What a reconcile up to its update leaves as it was.
use fog_agent.Prelude.{
  ◌≡◌, refl, inl, inr, true, false, not, ◌||◌, List, [], ◌∷◌, none, some, Text, ◌=ᵗ◌, text_eq_iff,
  arith, Bool-cases, Option-cases,
}
use fog_agent.Prelude.Int.{ℤ}
use fog_agent.Agent.World.{Agent}
use fog_agent.Agent.Coordinate.{has_task_reason}
use fog_agent.Agent.Coordinate.Withheld.{drop_no_task}
use fog_agent.Agent.Reconcile.Data.{Desired, Machine}
use fog_agent.Agent.Reconcile.Queues.{want_reboot, is_off}
use fog_agent.Agent.Reconcile.{
  take_hostname, take_activation, take_task, take_power, take_autologout, take_software,
  take_directory, take_wake, take_printers, take_last, take_rest, take_capability, take_all,
  take_state, capability_order, is_withdrawn, cap_hostname, cap_activation, cap_taskreboot,
  mentions,
}
use fog_agent.Agent.Reconcile.Keeps.{
  Keeps, KeepsAll, conclude-KeepsAll, take_on_demand-KeepsAll, run_software-KeepsAll,
  run_directory-KeepsAll, run_wake-KeepsAll, run_printers-KeepsAll, run_snapins-KeepsAll,
  hostname_other, activation_other,
}

module _ (m : Machine) (d : Desired) where
  take_hostname-KeepsAll : (a : Agent) → KeepsAll a (take_hostname m d a).0
  unfolding take_hostname
  take_hostname-KeepsAll a = elim (Option-cases d.hostname) [
    | inl e ↦ ground arith
    | inr (h, e) ↦ ground (
      arith,
      conclude-KeepsAll m d.revision cap_hostname h.enforce (m.ensure_hostname a.log h) a
          hostname_other,
    )
  ]

  take_activation-KeepsAll : (a : Agent) → KeepsAll a (take_activation m d a).0
  unfolding take_activation
  take_activation-KeepsAll a = elim (Option-cases d.activation) [
    | inl e ↦ ground arith
    | inr (k, e) ↦ ground (
      arith,
      conclude-KeepsAll m d.revision cap_activation false (m.ensure_activation a.log k) a
          activation_other,
    )
  ]

  take_power-KeepsAll : (a : Agent) → KeepsAll a (take_power m d a).0
  unfolding take_power
  take_power-KeepsAll a = elim (Option-cases d.power) [
    | inl e ↦ ground arith
    | inr (p, e) ↦ ground (
      arith,
      take_on_demand-KeepsAll m d.revision p.on_demand
          (record a { config = record a.config { power_schedules = p.schedules } }),
    )
  ]

  take_autologout-KeepsAll : (a : Agent) → KeepsAll a (take_autologout m d a).0
  unfolding take_autologout
  take_autologout-KeepsAll a = ((refl, refl, refl, refl, refl), refl)

  take_software-KeepsAll : (a : Agent) → KeepsAll a (take_software m d a).0
  unfolding take_software
  take_software-KeepsAll a = elim (Option-cases d.software) [
    | inl e ↦ ground arith
    | inr (p, e) ↦ ground (
      arith,
      run_software-KeepsAll m d.revision p
          (record a { config = record a.config { software_drift = p.drift_interval } }),
    )
  ]

  take_directory-KeepsAll : (a : Agent) → KeepsAll a (take_directory m d a).0
  unfolding take_directory
  take_directory-KeepsAll a = elim (Option-cases d.directory) [
    | inl e ↦ ground arith
    | inr (p, e) ↦ ground (arith, run_directory-KeepsAll m d.revision p a)
  ]

  take_wake-KeepsAll : (a : Agent) → KeepsAll a (take_wake m d a).0
  unfolding take_wake
  take_wake-KeepsAll a = elim (Option-cases d.wake) [
    | inl e ↦ ground arith
    | inr (ts, e) ↦ ground (arith, run_wake-KeepsAll m d.revision ts a)
  ]

  take_printers-KeepsAll : (a : Agent) → KeepsAll a (take_printers m d a).0
  unfolding take_printers
  take_printers-KeepsAll a = elim (Option-cases d.printers) [
    | inl e ↦ ground arith
    | inr (p, e) ↦ ground (
      arith,
      run_printers-KeepsAll m d.revision p
          (record a { config = record a.config { printers_managed = not (is_off p.manage) } }),
    )
  ]

  take_task-Keeps : (a : Agent) → Keeps a (take_task m d a).0
  unfolding take_task want_reboot
  take_task-Keeps a = ground arith

  take_last-KeepsAll : (c : Text) (a : Agent) → KeepsAll a (take_last m d c a).0
  unfolding take_last
  take_last-KeepsAll c a =
      ground
        (arith, take_wake-KeepsAll a, take_printers-KeepsAll a, run_snapins-KeepsAll m d.snapins a)

  take_rest-KeepsAll : (c : Text) (a : Agent) → KeepsAll a (take_rest m d c a).0
  unfolding take_rest
  take_rest-KeepsAll c a = ground (
    arith,
    take_power-KeepsAll a,
    take_autologout-KeepsAll a,
    take_software-KeepsAll a,
    take_directory-KeepsAll a,
    take_last-KeepsAll c a,
  )

  -- Every capability but the tasks' own.
  take_other-KeepsAll :
      (c : Text) (a : Agent)
      → (c =ᵗ cap_taskreboot) ≡ false
      → KeepsAll a (take_capability m d c a).0
  unfolding take_capability
  take_other-KeepsAll c a h =
      ground (arith, take_hostname-KeepsAll a, take_activation-KeepsAll a, take_rest-KeepsAll c a)

  hostname_not_task : (cap_hostname =ᵗ cap_taskreboot) ≡ false
  unfolding cap_hostname cap_taskreboot ◌=ᵗ◌
  hostname_not_task = refl

  activation_not_task : (cap_activation =ᵗ cap_taskreboot) ≡ false
  unfolding cap_activation cap_taskreboot ◌=ᵗ◌
  activation_not_task = refl

  -- The capability of the tasks is what take_task does.
  take_task-chosen :
      (c : Text) (a : Agent)
      → (c =ᵗ cap_taskreboot) ≡ true
      → take_capability m d c a ≡ take_task m d a
  unfolding take_capability
  take_task-chosen c a h = ground (
    arith,
    text_eq_iff c cap_taskreboot,
    text_eq_iff c cap_hostname,
    text_eq_iff c cap_activation,
    hostname_not_task,
    activation_not_task,
  )

  take_capability-Keeps : (c : Text) (a : Agent) → Keeps a (take_capability m d c a).0
  take_capability-Keeps c a = elim (Bool-cases (c =ᵗ cap_taskreboot)) [
    | inl e ↦ ground (arith, take_task-chosen c a e, take_task-Keeps a)
    | inr e ↦ (take_other-KeepsAll c a e).0
  ]

  take_all-Keeps : (cs : List Text) (a : Agent) → Keeps a (take_all m d cs a).0
  unfolding take_all
  take_all-Keeps [] a = ground arith
  take_all-Keeps (c ∷ cs) a =
      let a1 = (take_capability m d c a).0 in
      ground (arith, take_capability-Keeps c a, take_all-Keeps cs a1)

  -- The loop over the capabilities touches neither the revision that is recorded as applied, nor the task
  -- that the machine restarted for, nor the run of refusals, and runs no update.
  pub take_state-Keeps : (a : Agent) → Keeps a (take_state m d a).0
  unfolding take_state
  take_state-Keeps a =
      let grace : ℤ = elim d.reboot [ none ↦ a.config.reboot_grace | some policy ↦ policy.grace ] in
      take_all-Keeps (capability_order m.trim d)
        (record a { config = record a.config { reboot_grace = grace } })

  -- Where the reason for a task is withdrawn, none is left after the capability of the tasks.
  take_task-withdraws :
      (a : Agent)
      → is_withdrawn d a.config ≡ true
      → has_task_reason (take_task m d a).0.config.pending_reboot ≡ false
  unfolding take_task
  take_task-withdraws a h = elim (Option-cases d.task) [
    | inl e ↦ ground (arith, drop_no_task a.config.pending_reboot)
    | inr (t, e) ↦ ground (arith, drop_no_task a.config.pending_reboot)
  ]

  pub take_all-withdraws :
      (cs : List Text) (a : Agent)
      → is_withdrawn d a.config ≡ true
      → (mentions cap_taskreboot cs || not (has_task_reason a.config.pending_reboot)) ≡ true
      → has_task_reason (take_all m d cs a).0.config.pending_reboot ≡ false
  unfolding take_all
  take_all-withdraws [] a w h = ground arith
  take_all-withdraws (c ∷ cs) a w h =
      let a1 = (take_capability m d c a).0 in
      let kept = take_capability-Keeps c a in
      elim (Bool-cases (c =ᵗ cap_taskreboot)) [
        | inl e ↦ ground (
          arith,
          take_task-chosen c a e,
          take_task-withdraws a w,
          take_all-withdraws cs a1 (ground arith),
        )
        | inr e ↦ ground (arith, take_other-KeepsAll c a e, take_all-withdraws cs a1 (ground arith))
      ]
