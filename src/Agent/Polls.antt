-- ===== src/Agent/Polls.antt =====
-- cmd/fog-agent/main.go: one pass of runAgent's loop from the poll on, with waitOrFire and renew, and
-- facts.go's account of the refusals. The pass is the one of a system where directory mode is off; the
-- lines that are printed are left out.
pub mod Refusals
pub mod Sleeps
pub mod Since
pub mod Outage
use fog_agent.Prelude.{
  ℕ, ◌+◌, ◌-◌, Bool, true, false, not, ◌&&◌, ◌||◌, List, [], ◌∷◌, ◌++◌, Option, none, some, ◌==◌,
  ltb, leb, if◌then◌else◌, Text, text, Time,
}
use fog_agent.Prelude.Int.{ℤ, pos, ltb_ℤ, leb_ℤ, wrap64, ◌*ℤ◌}
use fog_agent.Enroll.Data.{Config, Schedule, Session}
use fog_agent.Reboot.{Reason, nanos_per_second}
use fog_agent.Agent.World.{Log, settled, Agent, note, save}
use fog_agent.Agent.Format.{has_elapsed, sub_time}
use fog_agent.Agent.Coordinate.{Platform, coordinate}
use fog_agent.Agent.Facts
use fog_agent.Agent.Facts.{attach_facts, record_facts}
use fog_agent.Agent.Sessions
use fog_agent.Agent.Sessions.{Watcher, Look, attach, record_sessions, sleep_sampling}
use fog_agent.Agent.Reconcile.Data.{Desired, Machine}
use fog_agent.Agent.Reconcile.Queues.{want_reboot, reason}
use fog_agent.Agent.Reconcile.{
  Ending, done, unwritten, retry, restarting, reconcile, needs_reconcile, cap_power,
}
use fog_agent.Agent.Drift.{drift, drift_may_be_due}

-- PollResponse, as far as it is read with directory mode off
pub record Response : Type 0 where
  pub revision : Text
  pub poll_interval : ℤ
  pub state : Option Desired
  pub wants : Facts.Wants
  pub collect_sessions : Option Bool

-- What a poll came to.
pub data Outcome : Type 0 where
  -- ErrCertificateUnknown, ErrUnauthorized, and every other error
  certificate_unknown unauthorized unreachable : Outcome
  answered : Response → Outcome

-- What a pass meets.
pub record Pass : Type 0 where
  pub machine : Machine
  pub platform : Platform
  pub once : Bool
  -- time.Now before the poll, and in waitOrFire
  pub now : Time
  pub resting : Time
  pub outcome : Outcome
  -- the collectors, and the sessions at the poll and in the wait
  pub collect : Facts.Kind → Option Text
  pub digest : List Session → Text
  pub look : Look
  pub looks : List Look
  -- whether os.Remove of the certificate went through
  pub can_remove : Bool
  -- RenewDue, the host of the certificate that the server issues, and whether it could be written
  pub is_renew_due : Bool
  pub issued : Option ℤ
  pub can_write : Bool
  -- power.Next
  pub next : List Schedule → Time → Option (Time × Schedule)

-- The state of the loop: with a certificate or without.
pub record Loop : Type 0 where
  pub has_cert : Bool
  pub watcher : Watcher
  pub agent : Agent

-- How a pass ends: it is followed at once, it is followed after sleepSampling was asked to sleep for a
-- duration in nanoseconds, or the loop is left.
pub data Next : Type 0 where
  at_once left : Next
  slept : ℤ → Next

-- 7 * 24 * time.Hour
abbrev pub unauthorized_grace : ℕ
unauthorized_grace = 604800000000000

module _ (p : Pass) where
  -- unauthorizedTooLong: none where the configuration could not be written.
  unfoldable pub unauthorized_too_long : Agent → Agent × Option Bool
  unfolding save
  unauthorized_too_long a =
      let is_over : Agent → Bool =
        λ b. has_elapsed p.now b.config.unauthorized_since (pos unauthorized_grace) in
      if not (a.config.unauthorized_since == 0)
      then (a, some (is_over a))
      else let (a1, written) =
          save p.machine.can_save
            (record a { config = record a.config { unauthorized_since = p.now } }) in
        (a1, if written then some (is_over a1) else none)

  -- clearUnauthorized, its error only printed.
  unfoldable pub clear_unauthorized : Agent → Agent
  unfolding save
  clear_unauthorized a =
      if a.config.unauthorized_since == 0
      then a
      else (save p.machine.can_save
          (record a { config = record a.config { unauthorized_since = 0 } })).0

  -- DropIssued, and what follows it.
  unfoldable pub drop : Loop → Loop × Next
  unfolding save
  drop l =
      let c = record l.agent.config { host_id = pos 0 } in
      let (a, written) = save p.machine.can_save (record l.agent { config = c }) in
      let next : Next = if p.once || not written then left else at_once in
      if not p.can_remove then (l, left) else (record l { has_cert = false; agent = a }, next)

  -- renew, its error only printed: SaveIssued is all that it changes.
  unfoldable pub renew : Agent → Agent
  unfolding save
  renew a = elim p.issued [
    | none ↦ a
    | some host ↦
        if p.can_write
        then (save p.machine.can_save (record a { config = record a.config { host_id = host } })).0
        else a
  ]

  -- The switch on the revision: whether the agent has replaced itself.
  unfoldable pub converge : Response → Agent → Agent × Bool
  unfolding reconcile needs_reconcile drift drift_may_be_due
  converge r a = elim r.state [
    | none ↦ (a, false)
    | some d ↦
        let (a1, ending) = reconcile p.machine d a in
        if needs_reconcile a.config r.revision
        then (a1, elim ending [ restarting ↦ true | _ ↦ false ])
        else if drift_may_be_due p.machine a
        then ((drift p.machine d a).0, false)
        else (a, false)
  ]

  -- What follows a poll that got through, up to the coordinator: whether the agent has replaced itself.
  unfoldable pub accept_answer :
      Facts.SentFacts → Option (Text × Sessions.Block) → Response → Agent → Agent × Bool
  unfolding clear_unauthorized record_sessions record_facts renew converge coordinate
  accept_answer facts sessions r a =
      let a1 = note (clear_unauthorized a) settled in
      let a2 = (record_sessions p.machine.can_save sessions r.collect_sessions p.now a1).0 in
      let a3 = (record_facts p.machine.can_save facts r.wants p.now a2).0 in
      let a4 = if p.is_renew_due then renew a3 else a3 in
      let (a5, replaced) = converge r a4 in
      if replaced then (a5, true) else ((coordinate p.platform a5).0, false)

  -- The firing of a schedule: the state, and whether the loop goes on.
  unfoldable pub fire : Time → Schedule → Agent → Agent × Bool
  unfolding want_reboot save coordinate
  fire time schedule a =
      let detail = text "scheduled " ++ schedule.action ++ text " (" ++ schedule.cron ++ text ")" in
      let a1 =
        want_reboot p.machine (reason cap_power detail true schedule.action)
          (record a { config = record a.config { power_fired = time } }) in
      let (a2, written) = save p.machine.can_save a1 in
      if written then ((coordinate p.platform a2).0, true) else (a2, false)

  -- waitOrFire
  unfoldable pub wait_or_fire : ℤ → Loop → Loop × Next
  unfolding sleep_sampling fire
  wait_or_fire wait l =
      let after =
        if ltb p.resting l.agent.config.power_fired
        then l.agent.config.power_fired
        else p.resting in
      let (w, a) = sleep_sampling p.machine.can_save p.looks (l.watcher, l.agent) in
      let l1 = record l { watcher = w; agent = a } in
      elim (p.next l.agent.config.power_schedules after) [
        | none ↦ (l1, slept wait)
        | some (time, schedule) ↦
            let (a1, going) = fire time schedule a in
            if leb_ℤ wait (sub_time time p.resting)
            then (l1, slept wait)
            else (record l1 { agent = a1 }, if going then slept (sub_time time p.resting) else left)
      ]

  -- The end of the loop's body.
  abbrev pub rest : ℤ → Loop → Loop × Next
  rest wait l = if p.once then (l, left) else wait_or_fire wait l

  -- Five minutes, and what the answer says.
  abbrev pub usual : ℤ
  usual = pos 300000000000

  abbrev pub wait_of : Response → ℤ
  wait_of r =
      if ltb_ℤ (pos 0) r.poll_interval then wrap64 (r.poll_interval *ℤ nanos_per_second) else usual

  -- A 401 that does not name the certificate.
  unfoldable pub on_refusal : Loop → Loop × Next
  unfolding unauthorized_too_long drop wait_or_fire
  on_refusal l =
      let (a, over) = unauthorized_too_long l.agent in
      let l1 = record l { agent = a } in
      elim over [ none ↦ (l1, left) | some b ↦ if b then drop l1 else rest usual l1 ]

  -- A poll that got through.
  unfoldable pub on_answer :
      Facts.SentFacts → Option (Text × Sessions.Block) → Response → Loop → Loop × Next
  unfolding accept_answer wait_or_fire
  on_answer facts sessions r l =
      let (a, replaced) = accept_answer facts sessions r l.agent in
      let l1 = record l { agent = a } in if replaced then (l1, left) else rest (wait_of r) l1

  -- The switch on what the poll came to.
  unfoldable pub after_poll : Facts.SentFacts → Option (Text × Sessions.Block) → Loop → Loop × Next
  unfolding drop on_refusal on_answer wait_or_fire
  after_poll facts sessions l = elim p.outcome [
    | certificate_unknown ↦ drop l
    | unauthorized ↦ on_refusal l
    | unreachable ↦ rest usual l
    | answered r ↦ on_answer facts sessions r l
  ]

  -- The pass.
  unfoldable pub pass : Loop → Loop × Next
  unfolding attach_facts attach after_poll
  pass l =
      let facts = (attach_facts p.collect l.agent.config p.now).0 in
      let (w, sessions) = attach p.digest p.look l.watcher l.agent.config in
      after_poll facts sessions (record l { watcher = w })
