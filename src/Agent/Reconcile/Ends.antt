-- ===== src/Agent/Reconcile/Ends.antt =====
-- How a reconcile ends, and what it then has recorded.
use fog_agent.Prelude.{
  ◌≡◌, ◌⊎◌, inl, inr, Bool, true, false, not, ◌&&◌, List, [], ◌∷◌, none, some, text, text_eq_refl,
  arith, Bool-cases, Option-cases, List-cases,
}
use fog_agent.Prelude.Int.{ℤ}
use fog_agent.Enroll.Data.{Config}
use fog_agent.Agent.World.{Agent, on_disk, save, updated, note}
use fog_agent.Agent.Coordinate.{has_task_reason}
use fog_agent.Agent.Reconcile.Data.{Desired, Machine}
use fog_agent.Agent.Reconcile.Queues.{tell, line_request}
use fog_agent.Agent.Reconcile.{
  Ending, done, unwritten, take_state, capability_order, is_withdrawn, cap_taskreboot, mentions,
  record_revision, run_update, reconcile, reconcile_held, needs_reconcile, supported_capabilities,
  take_all, is_failed,
}
use fog_agent.Agent.Reconcile.Capabilities.{capability_order_keeps}
use fog_agent.Agent.Reconcile.Keeps.{updates}
use fog_agent.Agent.Reconcile.State.{take_state-Keeps, take_all-withdraws}

module _ (m : Machine) (d : Desired) where
  record_revision-pending :
      (ok : Bool) (a : Agent)
      → (record_revision m d ok a).0.config.pending_reboot ≡ a.config.pending_reboot
  unfolding record_revision save
  record_revision-pending ok a = ground arith

  run_update-pending :
      (ok : Bool) (a : Agent)
      → (run_update m d ok a).0.config.pending_reboot ≡ a.config.pending_reboot
  unfolding run_update tell save
  run_update-pending ok a = elim (Option-cases d.update) [
    | inl e ↦ ground (arith, record_revision-pending ok a)
    | inr (want, e) ↦
        let (r, restart) = m.run_update a.log want in
        let request = line_request d.revision (text "update") r.status r.detail in
        let a2 = (tell m request (note a (updated a.config))).0 in
        ground (
          arith,
          record_revision-pending ok a,
          record_revision-pending (ok && not (is_failed r.status)) a2,
        )
  ]

  -- Where the server lists the capability of the tasks, and has no task or the one that the machine has
  -- restarted for, a reconcile leaves no reason to restart for a task.
  pub reconcile_withdraws :
      (a : Agent)
      → mentions cap_taskreboot d.capabilities ≡ true
      → is_withdrawn d a.config ≡ true
      → has_task_reason (reconcile m d a).0.config.pending_reboot ≡ false
  unfolding reconcile take_state
  reconcile_withdraws a l w =
      let grace : ℤ = elim d.reboot [ none ↦ a.config.reboot_grace | some policy ↦ policy.grace ] in
      let a1 : Agent = record a { config = record a.config { reboot_grace = grace } } in
      let order = capability_order m.trim d in
      ground (
        arith,
        take_all-withdraws m d order a1,
        (capability_order_keeps m.trim d).0 cap_taskreboot,
        run_update-pending (take_all m d order a1).1 (take_all m d order a1).0,
      )

  -- The endings that record the revision.
  abbrev pub is_recorded : Ending → Bool
  is_recorded done = true
  is_recorded unwritten = true
  is_recorded e = false

  abbrev pub is_done : Ending → Bool
  is_done done = true
  is_done e = false

  record_kept :
      (ok : Bool) (a : Agent)
      → let r = record_revision m d ok a in
        is_recorded r.1 ≡ false
        → (r.0.config.applied_revision ≡ a.config.applied_revision)
          × (r.0.config.applied_with ≡ a.config.applied_with)
  unfolding record_revision save
  record_kept ok a h = ground arith

  update_kept :
      (ok : Bool) (a : Agent)
      → let r = run_update m d ok a in
        is_recorded r.1 ≡ false
        → (r.0.config.applied_revision ≡ a.config.applied_revision)
          × (r.0.config.applied_with ≡ a.config.applied_with)
  unfolding run_update tell save
  update_kept ok a h = elim (Option-cases d.update) [
    | inl e ↦ ground (arith, record_kept ok a)
    | inr (want, e) ↦
        let (r, restart) = m.run_update a.log want in
        let request = line_request d.revision (text "update") r.status r.detail in
        let a2 = (tell m request (note a (updated a.config))).0 in
        ground (arith, record_kept ok a, record_kept (ok && not (is_failed r.status)) a2)
  ]

  -- A reconcile after which a provider is to be retried, or after which the agent starts again, records
  -- no revision: the one that was applied stays, with the capabilities that it was applied with.
  pub reconcile_kept :
      (a : Agent)
      → is_recorded (reconcile m d a).1 ≡ false
      → ((reconcile m d a).0.config.applied_revision ≡ a.config.applied_revision)
        × ((reconcile m d a).0.config.applied_with ≡ a.config.applied_with)
  unfolding reconcile
  reconcile_kept a h =
      let (a1, ok) = take_state m d a in ground (arith, take_state-Keeps m d a, update_kept ok a1)

  record_recorded :
      (ok : Bool) (a : Agent)
      → let r = record_revision m d ok a in
        is_recorded r.1 ≡ true → needs_reconcile r.0.config d.revision ≡ false
  unfolding record_revision save needs_reconcile
  record_recorded ok a h =
      ground (arith, text_eq_refl d.revision, text_eq_refl supported_capabilities)

  record_done :
      (ok : Bool) (a : Agent) (before : Config)
      → let r = record_revision m d ok a in is_done r.1 ≡ true → on_disk before r.0.log ≡ r.0.config
  unfolding record_revision save
  record_done ok a before h = ground arith

  update_recorded :
      (ok : Bool) (a : Agent)
      → let r = run_update m d ok a in
        is_recorded r.1 ≡ true → needs_reconcile r.0.config d.revision ≡ false
  unfolding run_update
  update_recorded ok a h = elim (Option-cases d.update) [
    | inl e ↦ ground (arith, record_recorded ok a)
    | inr (want, e) ↦
        let (r, restart) = m.run_update a.log want in
        let request = line_request d.revision (text "update") r.status r.detail in
        let a2 = (tell m request (note a (updated a.config))).0 in
        ground (arith, record_recorded ok a, record_recorded (ok && not (is_failed r.status)) a2)
  ]

  update_done :
      (ok : Bool) (a : Agent) (before : Config)
      → let r = run_update m d ok a in is_done r.1 ≡ true → on_disk before r.0.log ≡ r.0.config
  unfolding run_update
  update_done ok a before h = elim (Option-cases d.update) [
    | inl e ↦ ground (arith, record_done ok a before)
    | inr (want, e) ↦
        let (r, restart) = m.run_update a.log want in
        let request = line_request d.revision (text "update") r.status r.detail in
        let a2 = (tell m request (note a (updated a.config))).0 in
        ground
          (arith, record_done ok a before, record_done (ok && not (is_failed r.status)) a2 before)
  ]

  -- A reconcile that is done has the server's revision recorded, so that the same revision is not
  -- reconciled again, and what stands on the disk is the configuration in memory.
  pub reconcile_done :
      (a : Agent) (before : Config)
      → is_done (reconcile m d a).1 ≡ true
      → (needs_reconcile (reconcile m d a).0.config d.revision ≡ false)
        × (on_disk before (reconcile m d a).0.log ≡ (reconcile m d a).0.config)
  unfolding reconcile
  reconcile_done a before h =
      let (a1, ok) = take_state m d a in
      ground (arith, update_recorded ok a1, update_done ok a1 before)

  -- What the updates that ran are: those of before, or one more, which ran under the configuration that
  -- is given, listed by the server and with no reason for a restart outstanding.
  abbrev pub RanUnder : Config → List Config → List Config → Type 0
  RanUnder c before after =
      (after ≡ before)
      ⊎ ((after ≡ c ∷ before)
          × (c.pending_reboot ≡ [])
          × (mentions (text "update") d.capabilities ≡ true))

  record_revision-ran :
      (ok : Bool) (a : Agent) → updates (record_revision m d ok a).0.log ≡ updates a.log
  unfolding record_revision save
  record_revision-ran ok a = ground arith

  run_update-ran :
      (ok : Bool) (a : Agent)
      → RanUnder a.config (updates a.log) (updates (run_update m d ok a).0.log)
  unfolding run_update tell save
  run_update-ran ok a = elim (Option-cases d.update) [
    | inl e ↦ inl (ground (arith, record_revision-ran ok a))
    | inr (want, e) ↦
        let (r, restart) = m.run_update a.log want in
        let request = line_request d.revision (text "update") r.status r.detail in
        let a2 = (tell m request (note a (updated a.config))).0 in
        elim (Bool-cases (mentions (text "update") d.capabilities)) [
          | inl l ↦ elim (List-cases a.config.pending_reboot) [
            | inl n ↦ inr (ground (arith, record_revision-ran (ok && not (is_failed r.status)) a2))
            | inr (x, xs, n) ↦ inl (ground (arith, record_revision-ran ok a))
          ]
          | inr l ↦ inl (ground (arith, record_revision-ran ok a))
        ]
  ]

  -- A reconcile runs at most one update, after every provider, and only if the server lists it and no
  -- reason for a restart is outstanding then.
  pub reconcile_ran :
      (a : Agent)
      → RanUnder (take_state m d a).0.config (updates a.log) (updates (reconcile m d a).0.log)
  unfolding reconcile
  reconcile_ran a =
      let (a1, ok) = take_state m d a in
      ground (arith, take_state-Keeps m d a, run_update-ran ok a1)

  abbrev pub is_unwritten : Ending → Bool
  is_unwritten unwritten = true
  is_unwritten e = false

  -- While the changes of the directory and the name are held back, a reconcile leaves the revision that
  -- was applied, unless the configuration could not be written at its end.
  pub reconcile_held_kept :
      (a : Agent)
      → is_unwritten (reconcile m d a).1 ≡ false
      → let b = (reconcile_held m d true a).0 in
        (b.config.applied_revision ≡ a.config.applied_revision)
        × (b.config.applied_with ≡ a.config.applied_with)
  unfolding reconcile_held save
  reconcile_held_kept a h = ground (arith, reconcile_kept a)

  -- While the changes of the directory and the name are held back, a reconcile that could not write
  -- the configuration at its end leaves the server's revision as applied in memory.
  pub reconcile_held_lost :
      (a : Agent)
      → is_unwritten (reconcile m d a).1 ≡ true
      → needs_reconcile (reconcile_held m d true a).0.config d.revision ≡ false
  unfolding reconcile_held reconcile
  reconcile_held_lost a h = let (a1, ok) = take_state m d a in ground (arith, update_recorded ok a1)
