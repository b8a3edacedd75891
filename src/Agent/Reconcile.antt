-- ===== src/Agent/Reconcile.antt =====
-- cmd/fog-agent/main.go, reconcile: every provider that the desired state lists, then the update. The
-- lines that are printed are left out.
pub mod Data
pub mod Queues
pub mod Tasks
pub mod Keeps
pub mod State
pub mod Capabilities
pub mod Ends
pub mod Order
use fog_agent.Prelude.{
  ℕ, Bool, true, false, not, ◌&&◌, ◌||◌, List, [], ◌∷◌, ◌++◌, Option, none, some, if◌then◌else◌,
  Text, text, ◌=ᵗ◌, Time, any,
}
use fog_agent.Prelude.Int.{ℤ, pos, ltb_ℤ, leb_ℤ, wrap64, ◌*ℤ◌, ◌=ℤ◌}
use fog_agent.AutoLogout
use fog_agent.Enroll.Data.{Config}
use fog_agent.Reboot
use fog_agent.Reboot.{Reason, drop_source, nanos_per_second}
use fog_agent.Agent.World.{
  Status, applied, unchanged, pending_reboot, pending, failed, told, updated, Log, Agent, note,
  save,
}
use fog_agent.Agent.Format.{decimal, facts_interval, has_elapsed}
use fog_agent.Agent.Coordinate.{source_task}
use Data.{HostName, Task, OnDemand, Power, Software, Printers, Desired, Result, Machine}
use Queues.{
  is_empty, reason, line_request, tell, want_reboot, run_snapins, run_software, run_printers,
  run_wake, run_directory, is_off,
}

unfoldable pub supported_capabilities : Text
supported_capabilities =
    text "hostname,taskreboot,power,software,printers,directory,wake,snapin,autologout,update"

unfoldable pub needs_reconcile : Config → Text → Bool
needs_reconcile c revision =
    not (revision =ᵗ c.applied_revision) || not (c.applied_with =ᵗ supported_capabilities)

abbrev pub mentions : Text → List Text → Bool
mentions want list = any (λ c. c =ᵗ want) list

unfoldable pub cap_directory : Text
cap_directory = text "directory"

unfoldable pub cap_hostname : Text
cap_hostname = text "hostname"

unfoldable pub cap_activation : Text
cap_activation = text "activation"

unfoldable pub cap_taskreboot : Text
cap_taskreboot = text "taskreboot"

unfoldable pub cap_power : Text
cap_power = text "power"

-- The capabilities in their order, but for the one.
unfoldable pub without : Text → List Text → List Text
without want [] = []
without want (c ∷ cs) = let rest = without want cs in if not (c =ᵗ want) then c ∷ rest else rest

abbrev pub is_rename : (Text → Text) → Desired → Bool
is_rename trim d = elim d.directory [
  | none ↦ false
  | some policy ↦ not (is_empty (trim policy.rename_to))
]

unfoldable pub capability_order : (Text → Text) → Desired → List Text
unfolding without
capability_order trim d =
    if is_rename trim d && mentions cap_directory d.capabilities
    then cap_directory ∷ without cap_directory d.capabilities
    else d.capabilities

abbrev no_policy : AutoLogout.Policy
no_policy = record { minutes = pos 0; warn_seconds = pos 0; message = [] }

-- Whether the reason for a task is withdrawn.
abbrev pub is_withdrawn : Desired → Config → Bool
is_withdrawn d c = elim d.task [ none ↦ true | some t ↦ t.id =ℤ c.rebooted_for_task ]

-- How a reconcile ends: done, the configuration not written, a provider to be retried, and errUpdated.
pub data Ending : Type 0 where
  done unwritten retry restarting : Ending

abbrev pub is_failed : Status → Bool
is_failed failed = true
is_failed s = false

module _ (m : Machine) where
  -- The report at the end of the loop's body, and the switch on its status.
  unfoldable pub conclude : Text → Text → Bool → Result → Agent → Agent × Bool
  unfolding tell want_reboot
  conclude revision capability force r a =
      let a1 = (tell m (line_request revision capability r.status r.detail) a).0 in
      elim r.status [
        | failed ↦ (a1, false)
        | pending_reboot ↦ (want_reboot m (reason capability r.detail force []) a1, true)
        | _ ↦ (a1, true)
      ]

  unfoldable pub take_hostname : Desired → Agent → Agent × Bool
  unfolding conclude
  take_hostname d a = elim d.hostname [
    | none ↦ (a, true)
    | some h ↦ conclude d.revision cap_hostname h.enforce (m.ensure_hostname a.log h) a
  ]

  unfoldable pub take_activation : Desired → Agent → Agent × Bool
  unfolding conclude
  take_activation d a = elim d.activation [
    | none ↦ (a, true)
    | some key ↦ conclude d.revision cap_activation false (m.ensure_activation a.log key) a
  ]

  abbrev pub task_reason : Task → Reason
  task_reason t =
      let detail = text "task " ++ decimal t.id ++ text " (" ++ t.type ++ text ")" in
      record (reason source_task detail t.force []) { task_id = t.id }

  unfoldable pub take_task : Desired → Agent → Agent × Bool
  unfolding want_reboot drop_source
  take_task d a = elim d.task [
    | none ↦
        let pending = drop_source a.config.pending_reboot source_task in
        (record a { config = record a.config { pending_reboot = pending } }, true)
    | some t ↦
        let pending = drop_source a.config.pending_reboot source_task in
        if t.id =ℤ a.config.rebooted_for_task
        then (record a { config = record a.config { pending_reboot = pending } }, true)
        else (want_reboot m (task_reason t) a, true)
  ]

  -- The loop over the actions on demand: each is a reason at once, and a report that fails is noted.
  unfoldable pub take_on_demand : Text → List OnDemand → Agent → Agent × Bool
  unfolding tell want_reboot
  take_on_demand revision [] a = (a, true)
  take_on_demand revision (od ∷ ods) a =
      let a1 = want_reboot m (reason cap_power (text "on-demand " ++ od.action) true od.action) a in
      let detail =
        text "on-demand " ++ od.action ++ text " accepted (id " ++ decimal od.id ++ text ")" in
      let (a2, answer) = tell m (line_request revision cap_power applied detail) a1 in
      let (a3, rest) = take_on_demand revision ods a2 in
      (a3, elim answer [ none ↦ false | some outcome ↦ true ] && rest)

  unfoldable pub take_power : Desired → Agent → Agent × Bool
  unfolding take_on_demand
  take_power d a = elim d.power [
    | none ↦ (record a { config = record a.config { power_schedules = [] } }, true)
    | some p ↦
        take_on_demand d.revision p.on_demand
          (record a { config = record a.config { power_schedules = p.schedules } })
  ]

  unfoldable pub take_autologout : Desired → Agent → Agent × Bool
  take_autologout d a =
      let policy : AutoLogout.Policy = elim d.autologout [ none ↦ no_policy | some p ↦ p ] in
      (record a { config = record a.config { auto_logout = policy } }, true)

  unfoldable pub take_software : Desired → Agent → Agent × Bool
  unfolding run_software
  take_software d a = elim d.software [
    | none ↦ (record a { config = record a.config { software_drift = pos 0 } }, true)
    | some policy ↦
        run_software m d.revision policy
          (record a { config = record a.config { software_drift = policy.drift_interval } })
  ]

  unfoldable pub take_directory : Desired → Agent → Agent × Bool
  unfolding run_directory
  take_directory d a = elim d.directory [
    | none ↦ (a, true)
    | some policy ↦ run_directory m d.revision policy a
  ]

  unfoldable pub take_wake : Desired → Agent → Agent × Bool
  unfolding run_wake
  take_wake d a = elim d.wake [ none ↦ (a, true) | some targets ↦ run_wake m d.revision targets a ]

  unfoldable pub take_printers : Desired → Agent → Agent × Bool
  unfolding run_printers
  take_printers d a = elim d.printers [
    | none ↦ (record a { config = record a.config { printers_managed = false } }, true)
    | some policy ↦
        run_printers m d.revision policy
          (record a { config = record a.config { printers_managed = not (is_off policy.manage) } })
  ]

  -- The switch on the capability, in three parts.
  unfoldable pub take_last : Desired → Text → Agent → Agent × Bool
  unfolding take_wake take_printers run_snapins
  take_last d c a =
      if c =ᵗ text "wake"
      then take_wake d a
      else if c =ᵗ text "printers"
      then take_printers d a
      else if c =ᵗ text "snapin"
      then run_snapins m d.snapins a
      else (a, true)

  unfoldable pub take_rest : Desired → Text → Agent → Agent × Bool
  unfolding take_power take_autologout take_software take_directory take_last
  take_rest d c a =
      if c =ᵗ cap_power
      then take_power d a
      else if c =ᵗ text "autologout"
      then take_autologout d a
      else if c =ᵗ text "software"
      then take_software d a
      else if c =ᵗ cap_directory
      then take_directory d a
      else take_last d c a

  unfoldable pub take_capability : Desired → Text → Agent → Agent × Bool
  unfolding take_hostname take_activation take_task take_rest
  take_capability d c a =
      if c =ᵗ cap_hostname
      then take_hostname d a
      else if c =ᵗ cap_activation
      then take_activation d a
      else if c =ᵗ cap_taskreboot
      then take_task d a
      else take_rest d c a

  -- The loop: whether nothing failed.
  unfoldable pub take_all : Desired → List Text → Agent → Agent × Bool
  unfolding take_capability
  take_all d [] a = (a, true)
  take_all d (c ∷ cs) a =
      let (a1, ok) = take_capability d c a in let (a2, rest) = take_all d cs a1 in (a2, ok && rest)

  -- The grace, and the loop in its order.
  unfoldable pub take_state : Desired → Agent → Agent × Bool
  unfolding capability_order take_all
  take_state d a =
      let grace : ℤ = elim d.reboot [ none ↦ a.config.reboot_grace | some policy ↦ policy.grace ] in
      take_all d (capability_order m.trim d)
        (record a { config = record a.config { reboot_grace = grace } })

  -- The end of the function.
  unfoldable pub record_revision : Desired → Bool → Agent → Agent × Ending
  unfolding save
  record_revision d ok a =
      if not ok
      then ((save m.can_save a).0, retry)
      else let c = record a.config {
        applied_revision = d.revision;
        applied_with = supported_capabilities;
      } in
        let (a1, written) = save m.can_save (record a { config = c }) in
        (a1, if written then done else unwritten)

  unfoldable pub run_update : Desired → Bool → Agent → Agent × Ending
  unfolding tell save record_revision
  run_update d ok a = elim d.update [
    | none ↦ record_revision d ok a
    | some want ↦
        if not (mentions (text "update") d.capabilities)
        then record_revision d ok a
        else elim a.config.pending_reboot [
          | r ∷ rs ↦ record_revision d ok a
          | [] ↦
              let (r, restart) = m.run_update a.log want in
              let a1 = note a (updated a.config) in
              let a2 = (tell m (line_request d.revision (text "update") r.status r.detail) a1).0 in
              if restart
              then ((save m.can_save a2).0, restarting)
              else record_revision d (ok && not (is_failed r.status)) a2
        ]
  ]

  unfoldable pub reconcile : Desired → Agent → Agent × Ending
  unfolding take_state run_update
  reconcile d a = let (a1, ok) = take_state d a in run_update d ok a1

  -- reconcileHeld
  unfoldable pub reconcile_held : Desired → Bool → Agent → Agent × Ending
  unfolding reconcile save
  reconcile_held d held a =
      let (a1, ending) = reconcile d a in
      elim ending [
        | done ↦
            let c = record a1.config {
              applied_revision = a.config.applied_revision;
              applied_with = a.config.applied_with;
            } in
            let (a2, written) = save m.can_save (record a1 { config = c }) in
            if held then (a2, if written then done else unwritten) else (a1, done)
        | e ↦ (a1, e)
      ]
