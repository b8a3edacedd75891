-- ===== src/Agent/Coordinate.antt =====
-- cmd/fog-agent/main.go, coordinate and what it calls: the only place where the agent restarts the machine.
pub mod Withheld
pub mod Refused
pub mod Armed
use fog_agent.Prelude.{
  ℕ, Bool, true, false, not, ◌&&◌, ◌||◌, List, [], ◌∷◌, ◌++◌, Option, none, some, if◌then◌else◌,
  Text, text, ◌=ᵗ◌, any,
}
use fog_agent.Prelude.Int.{ℤ, pos, ◌=ℤ◌}
use fog_agent.Enroll.Data.{Config}
use fog_agent.Reboot.{Reason, Decision, OsError, decide, drop_source, execute}
use fog_agent.Netboot.{BootOption, FirmwareError, Answer, ok, err, no_option}
use fog_agent.Agent.World.{
  Status, applied, pending_reboot, failed, Detail, decided, withholding, refusing, nothing_left,
  Effect, reported, claimed, armed, disarmed, asked, Log, Agent, note, save,
}

-- directoryjoin.Attempt, as far as the coordinator reads it.
pub record Attempt : Type 0 where
  pub phase : Text
  pub reboot_requested : Bool

-- What the outside answers.
pub record Platform : Type 0 where
  pub windows : Bool
  -- reboot.LoggedIn
  pub users : Option ℕ
  -- netboot.Find
  pub boot_entry : Answer BootOption
  -- directoryjoin.LoadAttempt: none where it is not there or cannot be read
  pub marker : Option Attempt
  pub can_save : Log → Bool
  -- SetAttemptRebootRequested
  pub can_claim : Log → Bool → Bool
  pub can_arm : Log → Bool
  pub can_disarm : Log → Bool
  -- the operating system's half of reboot.Execute, and the message for whoever is logged in
  pub restart : Log → Text → ℤ → Text → Option OsError
  pub message : Decision → Text

pub data Failure : Type 0 where
  users_unreadable unsaved unclaimed unarmed : Failure
  not_restarted : OsError → Failure

-- reboot.SourceTask and reboot.SourceDirectoryRejoin
unfoldable pub source_task : Text
source_task = text "task"

unfoldable pub source_rejoin : Text
source_rejoin = text "directory-rejoin"

abbrev pub is_task : Reason → Bool
is_task r = r.source =ᵗ source_task

abbrev pub is_rejoin : Reason → Bool
is_rejoin r = r.source =ᵗ source_rejoin

-- An unrequested latch in the phase awaiting_reboot.
abbrev pub is_waiting : Option Attempt → Bool
is_waiting none = false
is_waiting (some a) = a.phase =ᵗ text "awaiting_reboot" && not a.reboot_requested

-- The filter over the reasons on Windows.
unfoldable pub allowed : Option Attempt → List Reason → List Reason
allowed marker [] = []
allowed marker (r ∷ rs) =
    let rest = allowed marker rs in
    if is_rejoin r && not (is_waiting marker) then rest else r ∷ rest

-- hasTaskReason
unfoldable pub has_task_reason : List Reason → Bool
has_task_reason [] = false
has_task_reason (r ∷ rs) = is_task r || has_task_reason rs

-- withholdsTask
abbrev pub withholds_task : FirmwareError → Bool
withholds_task no_option = true
withholds_task e = false

unfoldable pub tasks_of : List Reason → List Reason
tasks_of [] = []
tasks_of (r ∷ rs) = let rest = tasks_of rs in if is_task r then r ∷ rest else rest

-- planReboot: what to act on, what to hold back, and the refusal.
pub record Plan : Type 0 where
  pub act : List Reason
  pub withheld : List Reason
  pub refusal : Option FirmwareError

abbrev pub all_of : List Reason → Plan
all_of pending = record { act = pending; withheld = []; refusal = none }

unfoldable pub plan_reboot : List Reason → Option FirmwareError → Plan
unfolding tasks_of
plan_reboot pending none = all_of pending
plan_reboot pending (some e) =
    if not (withholds_task e) then all_of pending else elim (tasks_of pending) [
      | [] ↦ all_of pending
      | t ∷ ts ↦ record {
        act = drop_source pending source_task;
        withheld = t ∷ ts;
        refusal = some e;
      }
    ]

-- The loop over RebootedForTask: the last reason with a task counts.
unfoldable pub last_task : ℤ → List Reason → ℤ
last_task n [] = n
last_task n (r ∷ rs) = last_task (if r.task_id =ℤ pos 0 then n else r.task_id) rs

module _ (p : Platform) where
  -- refusedDirectoryReboot: whether it went without an error.
  unfoldable pub unclaim : Bool → Agent → Agent × Bool
  unclaim was_claimed a =
      if not was_claimed
      then (a, true)
      else if p.can_claim a.log false
      then (note a (claimed false), true)
      else (a, false)

  -- What a refusal puts back.
  unfoldable pub restore : Plan → Agent → Agent
  unfolding save
  restore plan a =
      (save p.can_save (record a {
        config = record a.config {
          pending_reboot = plan.withheld ++ plan.act;
          rebooted_for_task = pos 0;
        };
      })).0

  -- The request, and what follows a refused one.
  unfoldable pub ask : Plan → Decision → Option BootOption → Bool → Agent → Agent × Option Failure
  unfolding unclaim restore
  ask plan d entry was_claimed a = elim (execute (p.restart a.log) d.mode d.delay (p.message d)) [
    | none ↦ (note a (asked d.mode d.delay true), none)
    | some e ↦
        let a1 = note a (asked d.mode d.delay false) in
        let (a2, undone) = unclaim was_claimed a1 in
        let a3 : Agent = elim entry [
          | none ↦ a2
          | some o ↦ if p.can_disarm a2.log then note a2 disarmed else a2
        ] in
        if not undone then (a2, some unclaimed) else (restore plan a3, some (not_restarted e))
  ]

  -- netboot.Arm, and what follows if it fails.
  unfoldable pub arm_and_ask :
      Plan → Decision → Option BootOption → Bool → Agent → Agent × Option Failure
  unfolding ask
  arm_and_ask plan d none was_claimed a = ask plan d none was_claimed a
  arm_and_ask plan d (some o) was_claimed a =
      let (a1, undone) = unclaim was_claimed a in
      if p.can_arm a.log
      then ask plan d (some o) was_claimed (note a (armed o.number))
      else if not undone
      then (a1, some unclaimed)
      else (restore plan a1, some unarmed)

  -- The configuration that is written before the request.
  abbrev pub committed : Plan → Config → Config
  committed plan c = record c {
    rebooted_for_task = last_task c.rebooted_for_task plan.act;
    pending_reboot = plan.withheld;
    facts_checked = 0;
  }

  -- From the decision to restart on.
  unfoldable pub commit :
      Plan → Decision → Option BootOption → Bool → Agent → Agent × Option Failure
  unfolding save arm_and_ask last_task
  commit plan d entry was_claimed a =
      let (a1, written) = save p.can_save (record a { config = committed plan a.config }) in
      if not written
      then ((unclaim was_claimed a1).0, some unsaved)
      else arm_and_ask plan d entry was_claimed a1

  -- The marker is claimed for a rejoin among the reasons.
  abbrev pub claims : Plan → Bool
  claims plan = elim p.marker [
    | none ↦ false
    | some attempt ↦ p.windows && (not attempt.reboot_requested && any is_rejoin plan.act)
  ]

  unfoldable pub claim_and_commit :
      Plan → Decision → Option BootOption → Agent → Agent × Option Failure
  unfolding commit
  claim_and_commit plan d entry a =
      if not (claims plan)
      then commit plan d entry false a
      else if p.can_claim a.log true
      then commit plan d entry true (note a (claimed true))
      else (a, some unclaimed)

  abbrev pub detail_of : Plan → Decision → Detail
  detail_of plan d = elim plan.refusal [ none ↦ decided d.why | some e ↦ withholding d.why e ]

  -- From the plan on: nothing to act on, or the decision and its report.
  unfoldable pub act_on : Plan → ℕ → Option BootOption → Agent → Agent × Option Failure
  unfolding save claim_and_commit
  act_on plan users entry a =
      let d = decide plan.act users (record { grace = a.config.reboot_grace }) in
      elim plan.act [
        | [] ↦
            let detail : Detail = elim plan.refusal [ none ↦ nothing_left | some e ↦ refusing e ] in
            let a1 = note a (reported failed detail) in
            let (a2, written) =
              save p.can_save
                (record a1 { config = record a1.config { pending_reboot = plan.withheld } }) in
            (a2, if written then none else some unsaved)
        | r ∷ rs ↦
            if not d.reboot
            then (note a (reported pending_reboot (detail_of plan d)), none)
            else claim_and_commit plan d entry (note a (reported applied (detail_of plan d)))
      ]

  abbrev pub pending_of : Config → List Reason
  pending_of c = if p.windows then allowed p.marker c.pending_reboot else c.pending_reboot

  -- findNetboot, which is asked only for a task.
  abbrev pub entry_for : List Reason → Option BootOption
  entry_for pending =
      if has_task_reason pending then elim p.boot_entry [ ok o ↦ some o | err e ↦ none ] else none

  abbrev pub error_for : List Reason → Option FirmwareError
  error_for pending =
      if has_task_reason pending then elim p.boot_entry [ ok o ↦ none | err e ↦ some e ] else none

  abbrev pub plan_for : Config → Plan
  plan_for c = plan_reboot (pending_of c) (error_for (pending_of c))

  -- coordinateForPlatform; the lines that it prints are left out.
  unfoldable pub coordinate : Agent → Agent × Option Failure
  unfolding allowed has_task_reason plan_reboot act_on
  coordinate a = elim a.config.pending_reboot [
    | [] ↦ (a, none)
    | r ∷ rs ↦ elim p.users [
      | none ↦ (a, some users_unreadable)
      | some n ↦ act_on (plan_for a.config) n (entry_for (pending_of a.config)) a
    ]
  ]
