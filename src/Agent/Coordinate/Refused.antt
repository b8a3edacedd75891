-- ===== src/Agent/Coordinate/Refused.antt =====
-- What a turn of the coordinator leaves behind when the restart is accepted, and when it is not.
use mathlib.Core.Path.{subst}
use mathlib.Core.List.{Perm, perm_middle}
use mathlib.Core.List.Perm
use fog_agent.Prelude.{
  ℕ, ◌≡◌, refl, sym, ap, ◌∙◌, Bool-cases, List-cases, if◌then◌else◌, inl, inr, Bool, true, false,
  List, [], ◌∷◌, ◌++◌, Option, Option-cases, none, some, arith,
}
use fog_agent.Prelude.Int.{pos}
use fog_agent.Enroll.Data.{Config}
use fog_agent.Reboot.{Reason, Decision, decide, drop_source}
use fog_agent.Netboot.{ok, err, BootOption, FirmwareError}
use fog_agent.Agent.World.{applied, reported, claimed, asked, Log, Agent, note, on_disk}
use fog_agent.Agent.Coordinate.{
  is_task, withholds_task, last_task, has_task_reason, Platform, Failure, not_restarted, unarmed,
  Plan, plan_reboot, plan_for, tasks_of, committed, commit, detail_of, error_for, entry_for,
  pending_of, act_on, coordinate, source_task,
}

-- The last thing done was a request for a restart that was accepted.
abbrev pub is_going_down : Log → Bool
is_going_down [] = false
is_going_down (asked m d b ∷ log) = b
is_going_down (e ∷ log) = false

module _ (p : Platform) where
  commit_going :
      (plan : Plan) (d : Decision) (entry : Option BootOption) (c : Bool) (a : Agent)
      (before : Config)
      → let r = commit p plan d entry c a in
        is_going_down a.log ≡ false
        → is_going_down r.0.log ≡ true
        → (on_disk before r.0.log ≡ r.0.config) × (r.0.config ≡ committed p plan a.config)
  unfolding commit
  commit_going plan d entry c a before g h = ground arith

  act_on_going :
      (plan : Plan) (n : ℕ) (entry : Option BootOption) (a : Agent) (before : Config)
      → let r = act_on p plan n entry a in
        is_going_down a.log ≡ false
        → is_going_down r.0.log ≡ true
        → (on_disk before r.0.log ≡ r.0.config) × (r.0.config ≡ committed p plan a.config)
  unfolding act_on
  act_on_going plan n entry a before g h =
      let d = decide plan.act n (record { grace = a.config.reboot_grace }) in
      let a1 = note a (reported applied (detail_of p plan d)) in
      ground (
        arith,
        commit_going plan d entry false a1 before,
        commit_going plan d entry true (note a1 (claimed true)) before,
      )

  tasks_none : (rs : List Reason) → has_task_reason rs ≡ false → tasks_of rs ≡ []
  unfolding tasks_of has_task_reason
  tasks_none [] h = refl
  tasks_none (r ∷ rs) h = ground (arith, tasks_none rs)

  -- The reasons that are still outstanding once a restart is accepted: where the firmware has no option
  -- to boot from the network, those for a task.
  abbrev pub held_back : Config → List Reason
  held_back c = elim p.boot_entry [
    | ok o ↦ []
    | err e ↦ if withholds_task e then tasks_of (pending_of p c) else []
  ]

  withheld-held_back : (c : Config) → (plan_for p c).withheld ≡ held_back c
  unfolding plan_reboot
  withheld-held_back c =
      let tasks = tasks_none (pending_of p c) in
      elim (Bool-cases (has_task_reason (pending_of p c))) [
        | inl h ↦ ground (arith, h)
        | inr h ↦ ground (arith, h, tasks h)
      ]

  coordinate_going :
      (a : Agent) (before : Config)
      → is_going_down a.log ≡ false
      → is_going_down (coordinate p a).0.log ≡ true
      → let now = (coordinate p a).0 in
        (on_disk before now.log ≡ now.config)
        × (now.config ≡ committed p (plan_for p a.config) a.config)
  unfolding coordinate
  coordinate_going a before g h = elim (Option-cases p.users) [
    | inl e ↦ ground arith
    | inr (n, e) ↦
        ground (
          arith,
          act_on_going (plan_for p a.config) n (entry_for p (pending_of p a.config)) a before,
        )
  ]

  -- When a turn before which no restart was accepted ends with an accepted request, what stood on
  -- the disk at the request is the configuration in memory: the one of before, with only the tasks
  -- outstanding that are held back because the firmware has no option to boot from the network, with
  -- the last task among the reasons acted on recorded, and with the facts due again.
  pub coordinate_persists :
      (a : Agent) (before : Config)
      → is_going_down a.log ≡ false
      → is_going_down (coordinate p a).0.log ≡ true
      → let now = (coordinate p a).0 in
        (on_disk before now.log ≡ now.config)
        × (now.config ≡ record a.config {
          rebooted_for_task = last_task a.config.rebooted_for_task (plan_for p a.config).act;
          pending_reboot = held_back a.config;
          facts_checked = 0;
        })
  coordinate_persists a before g h =
      let going = coordinate_going a before g h in
      let with_pending = λ (l : List Reason). record a.config {
        rebooted_for_task = last_task a.config.rebooted_for_task (plan_for p a.config).act;
        pending_reboot = l;
        facts_checked = 0;
      } in
      (going.0, going.1 ∙ ap with_pending (withheld-held_back a.config))

-- The tasks and the other reasons are together the reasons.
perm_split : (rs : List Reason) → Perm (tasks_of rs ++ drop_source rs source_task) rs
unfolding tasks_of drop_source
perm_split [] = Perm.refl []
perm_split (r ∷ rs) =
    let tasks = tasks_of rs in
    let others = drop_source rs source_task in
    elim (Bool-cases (is_task r)) [
      | inl e ↦
          subst (λ l. Perm l (r ∷ rs)) {x = r ∷ (tasks ++ others)} (ground (arith, e))
            (Perm.cons r (perm_split rs))
      | inr e ↦
          subst (λ l. Perm l (r ∷ rs)) {x = tasks ++ (r ∷ others)} (ground (arith, e))
            (Perm.trans (perm_middle tasks others) (Perm.cons r (perm_split rs)))
    ]

-- What the plan acts on and holds back are together the reasons.
perm_plan :
    (rs : List Reason) (e : Option FirmwareError)
    → let plan = plan_reboot rs e in Perm (plan.withheld ++ plan.act) rs
unfolding plan_reboot
perm_plan rs none = Perm.refl rs
perm_plan rs (some e) = elim (Bool-cases (withholds_task e)) [
  | inr w ↦ subst (λ l. Perm l rs) {x = rs} (ground (arith, w)) (Perm.refl rs)
  | inl w ↦ elim (List-cases (tasks_of rs)) [
    | inl n ↦ subst (λ l. Perm l rs) {x = rs} (ground (arith, w, n)) (Perm.refl rs)
    | inr (t, ts, n) ↦
        subst (λ l. Perm l rs) {x = tasks_of rs ++ drop_source rs source_task}
          (ground (arith, w, n)) (perm_split rs)
  ]
]

module _ (p : Platform) where
  -- When the restart was refused or the boot could not be armed.
  abbrev pub is_refused : Option Failure → Bool
  is_refused (some unarmed) = true
  is_refused (some (not_restarted e)) = true
  is_refused o = false

  commit_refused :
      (plan : Plan) (d : Decision) (entry : Option BootOption) (c : Bool) (a : Agent)
      → let r = commit p plan d entry c a in
        is_refused r.1 ≡ true → r.0.config.pending_reboot ≡ plan.withheld ++ plan.act
  unfolding commit
  commit_refused plan d entry c a h = ground arith

  act_on_refused :
      (plan : Plan) (n : ℕ) (entry : Option BootOption) (a : Agent)
      → let r = act_on p plan n entry a in
        is_refused r.1 ≡ true → r.0.config.pending_reboot ≡ plan.withheld ++ plan.act
  unfolding act_on
  act_on_refused plan n entry a h =
      let d = decide plan.act n (record { grace = a.config.reboot_grace }) in
      let a1 = note a (reported applied (detail_of p plan d)) in
      ground (
        arith,
        commit_refused plan d entry false a1,
        commit_refused plan d entry true (note a1 (claimed true)),
      )

  coordinate_restores :
      (a : Agent)
      → let plan = plan_for p a.config in
        is_refused (coordinate p a).1 ≡ true
        → (coordinate p a).0.config.pending_reboot ≡ plan.withheld ++ plan.act
  unfolding coordinate
  coordinate_restores a h = elim (Option-cases p.users) [
    | inl e ↦ ground arith
    | inr (n, e) ↦
        ground
          (arith, act_on_refused (plan_for p a.config) n (entry_for p (pending_of p a.config)) a)
  ]

  -- Outside Windows, when the restart is refused or the boot cannot be armed, the outstanding reasons
  -- are those of before, each as often as it was there, in some order.
  pub coordinate_refused :
      (a : Agent)
      → p.windows ≡ false
      → is_refused (coordinate p a).1 ≡ true
      → Perm (coordinate p a).0.config.pending_reboot a.config.pending_reboot
  coordinate_refused a w h =
      let plan = plan_for p a.config in
      let pending = pending_of p a.config in
      let same : pending ≡ a.config.pending_reboot = ground (arith, w) in
      subst (λ l. Perm l a.config.pending_reboot) (sym (coordinate_restores a h))
        (subst (λ l. Perm (plan.withheld ++ plan.act) l) same
          (perm_plan pending (error_for p pending)))

  commit_resets :
      (plan : Plan) (d : Decision) (entry : Option BootOption) (c : Bool) (a : Agent)
      → let r = commit p plan d entry c a in
        is_refused r.1 ≡ true → r.0.config.rebooted_for_task ≡ pos 0
  unfolding commit
  commit_resets plan d entry c a h = ground arith

  act_on_resets :
      (plan : Plan) (n : ℕ) (entry : Option BootOption) (a : Agent)
      → let r = act_on p plan n entry a in
        is_refused r.1 ≡ true → r.0.config.rebooted_for_task ≡ pos 0
  unfolding act_on
  act_on_resets plan n entry a h =
      let d = decide plan.act n (record { grace = a.config.reboot_grace }) in
      let a1 = note a (reported applied (detail_of p plan d)) in
      ground (
        arith,
        commit_resets plan d entry false a1,
        commit_resets plan d entry true (note a1 (claimed true)),
      )

  -- A turn in which the restart was refused, or the boot could not be armed, forgets the task that
  -- the machine last restarted for, whatever the reasons were about.
  pub coordinate_resets :
      (a : Agent)
      → is_refused (coordinate p a).1 ≡ true
      → (coordinate p a).0.config.rebooted_for_task ≡ pos 0
  unfolding coordinate
  coordinate_resets a h = elim (Option-cases p.users) [
    | inl e ↦ ground arith
    | inr (n, e) ↦
        ground
          (arith, act_on_resets (plan_for p a.config) n (entry_for p (pending_of p a.config)) a)
  ]
