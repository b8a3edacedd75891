-- ===== src/Agent/Restarted.antt =====
-- The coordinator and the reconcile together: a task that the machine restarted for is not restarted
-- for again.
use fog_agent.Prelude.{◌≡◌, sym, ap, ◌∙◌, true, false, [], none, some, arith}
use fog_agent.Prelude.Int.{ℤ, ◌=ℤ◌}
use fog_agent.Enroll.Data.{Config}
use fog_agent.Agent.World.{Log, Agent, on_disk}
use fog_agent.Agent.Coordinate.{Platform, plan_for, coordinate, last_task, has_task_reason}
use fog_agent.Agent.Coordinate.Refused.{is_going_down, coordinate_persists}
use fog_agent.Agent.Reconcile.Data.{Desired, Machine, Task}
use fog_agent.Agent.Reconcile.{mentions, cap_taskreboot, reconcile}
use fog_agent.Agent.Reconcile.Ends.{reconcile_withdraws}

-- The agent after the restart: what stood on the disk, and nothing done.
abbrev pub restarted : Config → Log → Agent
restarted before log = record { config = on_disk before log; log = [] }

same_number : (a b : ℤ) → a ≡ b → (a =ℤ b) ≡ true
same_number a b e = ap (λ x. x =ℤ b) e ∙ itself b
  where
    itself : (x : ℤ) → (x =ℤ x) ≡ true
    itself x = ground arith

-- When a turn of the coordinator before which none was accepted ends with an accepted restart, and
-- the server still lists the capability of the tasks and sends the task that was the last one among
-- the reasons acted on, the reconcile of the agent that comes back with what stands on the disk
-- leaves no reason to restart for a task.
pub coordinate_withdraws :
    (p : Platform) (m : Machine) (d : Desired) (t : Task) (a : Agent) (before : Config)
    → is_going_down a.log ≡ false
    → is_going_down (coordinate p a).0.log ≡ true
    → mentions cap_taskreboot d.capabilities ≡ true
    → d.task ≡ some t
    → t.id ≡ last_task a.config.rebooted_for_task (plan_for p a.config).act
    → has_task_reason
        (reconcile m d (restarted before (coordinate p a).0.log)).0.config.pending_reboot
      ≡ false
coordinate_withdraws p m d t a before g h l e same =
    let kept = coordinate_persists p a before g h in
    let number = ap (λ c. c.rebooted_for_task) (kept.0 ∙ kept.1) in
    let back = restarted before (coordinate p a).0.log in
    reconcile_withdraws m d back l (
      ap (λ o. elim o [ none ↦ true | some t ↦ t.id =ℤ back.config.rebooted_for_task ]) e
      ∙ same_number t.id back.config.rebooted_for_task (same ∙ sym number))
