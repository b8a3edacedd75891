-- ===== src/Agent/Polls/Since.antt =====
-- Nothing of a pass but the poll's own outcome touches the start of the run of refusals.
use fog_agent.Prelude.{
  ℕ, ◌≡◌, refl, ◌∙◌, ap, inl, inr, Bool, true, false, not, ◌&&◌, List, [], ◌∷◌, Option, none, some,
  Time, arith, Text, text, Option-cases,
}
use fog_agent.Reboot.{Reason, Decision, decide}
use fog_agent.Netboot.{BootOption}
use fog_agent.Agent.World.{
  Log, Agent, save, note, reported, claimed, armed, saved, applied, updated,
}
use fog_agent.Agent.Coordinate.{
  Platform, Plan, unclaim, restore, ask, arm_and_ask, commit, committed, claim_and_commit, act_on,
  coordinate, detail_of, plan_for, entry_for, pending_of,
}
use fog_agent.Agent.Facts.{SentFacts, Wants, record_facts}
use fog_agent.Agent.Facts.Gate.{record_facts-config}
use fog_agent.Agent.Sessions.{Watcher, Look, sample, sleep_sampling, record_sessions, Block}
use fog_agent.Agent.Sessions.Closures.{auto_logout-config}
use fog_agent.Agent.Reconcile.Data.{Desired, Machine}
use fog_agent.Agent.Reconcile.Queues.{tell, want_reboot, line_request}
use fog_agent.Agent.Reconcile.{take_state, record_revision, run_update, reconcile, is_failed}
use fog_agent.Agent.Reconcile.Keeps.{run_software-KeepsAll, run_printers-KeepsAll}
use fog_agent.Agent.Reconcile.State.{take_state-Keeps}
use fog_agent.Agent.Drift.{drift, drift_software, drift_printers}

abbrev pub since : Agent → Time
since a = a.config.unauthorized_since

module _ (p : Platform) where
  unclaim-since : (c : Bool) (a : Agent) → since (unclaim p c a).0 ≡ since a
  unfolding unclaim
  unclaim-since c a = ground arith

  restore-since : (plan : Plan) (a : Agent) → since (restore p plan a) ≡ since a
  unfolding restore save
  restore-since plan a = ground arith

  ask-since :
      (plan : Plan) (d : Decision) (entry : Option BootOption) (c : Bool) (a : Agent)
      → since (ask p plan d entry c a).0 ≡ since a
  unfolding ask unclaim restore save
  ask-since plan d entry c a = ground arith

  arm-since :
      (plan : Plan) (d : Decision) (entry : Option BootOption) (c : Bool) (a : Agent)
      → since (arm_and_ask p plan d entry c a).0 ≡ since a
  unfolding arm_and_ask
  arm-since plan d none c a = ask-since plan d none c a
  arm-since plan d (some o) c a =
      let a1 = (unclaim p c a).0 in
      ground (
        arith,
        ask-since plan d (some o) c (note a (armed o.number)),
        unclaim-since c a,
        restore-since plan a1,
      )

  commit-since :
      (plan : Plan) (d : Decision) (entry : Option BootOption) (c : Bool) (a : Agent)
      → since (commit p plan d entry c a).0 ≡ since a
  unfolding commit save
  commit-since plan d entry c a =
      let k = committed p plan a.config in
      ground (
        arith,
        arm-since plan d entry c (record { config = k; log = saved k ∷ a.log }),
        unclaim-since c (record a { config = k }),
      )

  act_on-since :
      (plan : Plan) (n : ℕ) (entry : Option BootOption) (a : Agent)
      → since (act_on p plan n entry a).0 ≡ since a
  unfolding act_on claim_and_commit save
  act_on-since plan n entry a =
      let d = decide plan.act n (record { grace = a.config.reboot_grace }) in
      let a1 = note a (reported applied (detail_of p plan d)) in
      ground (
        arith,
        commit-since plan d entry false a1,
        commit-since plan d entry true (note a1 (claimed true)),
      )

  pub coordinate-since : (a : Agent) → since (coordinate p a).0 ≡ since a
  unfolding coordinate
  coordinate-since a = elim (Option-cases p.users) [
    | inl e ↦ ground arith
    | inr (n, e) ↦
        ground (arith, act_on-since (plan_for p a.config) n (entry_for p (pending_of p a.config)) a)
  ]

module _ (m : Machine) where
  record-since :
      (d : Desired) (ok : Bool) (a : Agent) → since (record_revision m d ok a).0 ≡ since a
  unfolding record_revision save
  record-since d ok a = ground arith

  update-since : (d : Desired) (ok : Bool) (a : Agent) → since (run_update m d ok a).0 ≡ since a
  unfolding run_update tell save
  update-since d ok a = elim (Option-cases d.update) [
    | inl e ↦ ground (arith, record-since d ok a)
    | inr (want, e) ↦
        let (r, restart) = m.run_update a.log want in
        let request = line_request d.revision (text "update") r.status r.detail in
        let a2 = (tell m request (note a (updated a.config))).0 in
        ground (arith, record-since d ok a, record-since d (ok && not (is_failed r.status)) a2)
  ]

  pub reconcile-since : (d : Desired) (a : Agent) → since (reconcile m d a).0 ≡ since a
  unfolding reconcile
  reconcile-since d a =
      let (a1, ok) = take_state m d a in
      ground (arith, take_state-Keeps m d a, update-since d ok a1)

  software-since : (d : Desired) (a : Agent) → since (drift_software m d a) ≡ since a
  unfolding drift_software
  software-since d a = elim (Option-cases d.software) [
    | inl e ↦ ground arith
    | inr (policy, e) ↦ ground (arith, run_software-KeepsAll m d.revision policy a)
  ]

  printers-since : (d : Desired) (a : Agent) → since (drift_printers m d a) ≡ since a
  unfolding drift_printers
  printers-since d a = elim (Option-cases d.printers) [
    | inl e ↦ ground arith
    | inr (policy, e) ↦ ground (arith, run_printers-KeepsAll m d.revision policy a)
  ]

  pub drift-since : (d : Desired) (a : Agent) → since (drift m d a).0 ≡ since a
  unfolding drift save
  drift-since d a =
      let a1 = drift_software m d a in ground (arith, software-since d a, printers-since d a1)

pub want-since : (m : Machine) (r : Reason) (a : Agent) → since (want_reboot m r a) ≡ since a
unfolding want_reboot
want-since m r a = refl

pub facts-since :
    (can : Log → Bool) (sent : SentFacts) (wants : Wants) (now : Time) (a : Agent)
    → since (record_facts can sent wants now a).0 ≡ since a
facts-since can sent wants now a =
    ap (λ c. c.unauthorized_since) (record_facts-config can sent wants now a)

pub sessions-since :
    (can : Log → Bool) (sent : Option (Text × Block)) (collect : Option Bool) (now : Time)
    (a : Agent)
    → since (record_sessions can sent collect now a).0 ≡ since a
unfolding record_sessions save
sessions-since can none collect now a = ground arith
sessions-since can (some x) collect now a = ground arith

sample-since :
    (can : Log → Bool) (look : Look) (w : Watcher) (a : Agent)
    → since (sample can look (w, a)).1 ≡ since a
unfolding sample save
sample-since can look w a = elim (Option-cases look.listed) [
  | inl e ↦ ground arith
  | inr (cur, e) ↦ ground (arith, auto_logout-config look.idle_for (record w { opened = cur }) a)
]

pub sleep-since :
    (can : Log → Bool) (looks : List Look) (w : Watcher) (a : Agent)
    → since (sleep_sampling can looks (w, a)).1 ≡ since a
unfolding sleep_sampling
sleep-since can [] w a = refl
sleep-since can (look ∷ looks) w a =
    let (w1, a1) = sample can look (w, a) in sleep-since can looks w1 a1 ∙ sample-since can look w a
