-- ===== src/Agent/Polls/Outage.antt =====
-- An outage of less than seven days costs no certificate, and a certificate that was given up leaves the
-- count of the refusals behind.
use fog_agent.Prelude.{
  ◌+◌, ◌≤◌, ◌<◌, ◌≡◌, refl, ap, ◌∙◌, ◌⊎◌, inl, inr, Bool, true, false, List, [], ◌∷◌, Option, ◌==◌,
  if◌then◌else◌, Time, arith, Bool-cases, Option-cases, Text, text, All, ltb, ◌++◌,
}
use fog_agent.Prelude.Int.{ℤ, pos}
use fog_agent.Enroll.Data.{Schedule}
use fog_agent.Agent.World.{Agent, save, note, settled, saved}
use fog_agent.Agent.Format.{has_elapsed}
use fog_agent.Agent.Format.Elapsed.{elapsed_le, elapsed_later}
use fog_agent.Agent.Facts.{attach_facts, SentFacts, record_facts}
use fog_agent.Agent.Sessions.{attach, Block, record_sessions, sleep_sampling}
use fog_agent.Agent.Reconcile.{cap_power}
use fog_agent.Agent.Reconcile.Queues.{want_reboot, reason}
use fog_agent.Agent.Polls.{
  Response, Outcome, certificate_unknown, unauthorized, Pass, Loop, Next, at_once, slept, left,
  unauthorized_grace, unauthorized_too_long, clear_unauthorized, renew, converge, drop,
  wait_or_fire, pass, accept_answer, rest, fire, usual, wait_of, on_refusal, on_answer, after_poll,
}
use fog_agent.Agent.Polls.Refusals.{may_drop, pass_keeps_cert, Outcome-cases}
use fog_agent.Agent.Polls.Since.{
  since, coordinate-since, reconcile-since, drift-since, want-since, facts-since, sessions-since,
  sleep-since,
}

module _ (p : Pass) where
  renew-since : (a : Agent) → since (renew p a) ≡ since a
  unfolding renew save
  renew-since a = ground arith

  converge-since : (r : Response) (a : Agent) → since (converge p r a).0 ≡ since a
  unfolding converge
  converge-since r a = elim (Option-cases r.state) [
    | inl e ↦ ground arith
    | inr (d, e) ↦ ground (arith, reconcile-since p.machine d a, drift-since p.machine d a)
  ]

  clear-since : (a : Agent) → since (clear_unauthorized p a) ≡ 0
  unfolding clear_unauthorized save
  clear-since a = ground arith

  answer-since :
      (facts : SentFacts) (sessions : Option (Text × Block)) (r : Response) (a : Agent)
      → since (accept_answer p facts sessions r a).0 ≡ 0
  unfolding accept_answer
  answer-since facts sessions r a =
      let can = p.machine.can_save in
      let a1 = note (clear_unauthorized p a) settled in
      let a2 = (record_sessions can sessions r.collect_sessions p.now a1).0 in
      let a3 = (record_facts can facts r.wants p.now a2).0 in
      let a4 : Agent = if p.is_renew_due then renew p a3 else a3 in
      let a5 = (converge p r a4).0 in
      ground (
        arith,
        clear-since a,
        sessions-since can sessions r.collect_sessions p.now a1,
        facts-since can facts r.wants p.now a2,
        renew-since a3,
        converge-since r a4,
        coordinate-since p.platform a5,
      )

  fire-since :
      (time : Time) (schedule : Schedule) (a : Agent) → since (fire p time schedule a).0 ≡ since a
  unfolding fire save
  fire-since time schedule a =
      let detail = text "scheduled " ++ schedule.action ++ text " (" ++ schedule.cron ++ text ")" in
      let r = reason cap_power detail true schedule.action in
      let a1 =
        want_reboot p.machine r (record a { config = record a.config { power_fired = time } }) in
      ground (
        arith,
        want-since p.machine r (record a { config = record a.config { power_fired = time } }),
        coordinate-since p.platform (note a1 (saved a1.config)),
      )

  wait-since : (wait : ℤ) (l : Loop) → since (wait_or_fire p wait l).0.agent ≡ since l.agent
  unfolding wait_or_fire
  wait-since wait l =
      let slept_with = sleep-since p.machine.can_save p.looks l.watcher l.agent in
      let (w, a) = sleep_sampling p.machine.can_save p.looks (l.watcher, l.agent) in
      let c = l.agent.config in
      let after = if ltb p.resting c.power_fired then c.power_fired else p.resting in
      elim (Option-cases (p.next c.power_schedules after)) [
        | inl e ↦ ground (arith, slept_with)
        | inr ((time, schedule), e) ↦ ground (arith, slept_with, fire-since time schedule a)
      ]

  rest-since : (wait : ℤ) (l : Loop) → since (rest p wait l).0.agent ≡ since l.agent
  rest-since wait l = ground (arith, wait-since wait l)

  drop-since : (l : Loop) → since (drop p l).0.agent ≡ since l.agent
  unfolding drop save
  drop-since l = ground arith

-- The refusals, if a run of them is on, began at the time or later.
abbrev pub Fresh : Time → Loop → Type 0
Fresh start l = (since l.agent ≡ 0) ⊎ (start ≤ since l.agent)

abbrev pub is_unknown : Outcome → Bool
is_unknown certificate_unknown = true
is_unknown o = false

-- A pass in the seven days from the time on, in which the server does not disown the certificate.
abbrev pub Within : Time → Pass → Type 0
Within start p =
    (is_unknown p.outcome ≡ false) × (start ≤ p.now) × (p.now < start + unauthorized_grace)

module _ (start : Time) (p : Pass) (inside : Within start p) where
  too_long-fresh :
      (a : Agent)
      → (since a ≡ 0) ⊎ (start ≤ since a)
      → let b = (unauthorized_too_long p a).0 in (since b ≡ 0) ⊎ (start ≤ since b)
  unfolding unauthorized_too_long save
  too_long-fresh a h = elim (Bool-cases (a.config.unauthorized_since == 0)) [
    | inl z ↦ inr (ground arith)
    | inr z ↦ elim h [ inl e ↦ inl (ground arith) | inr e ↦ inr (ground arith) ]
  ]

  not_yet : (l : Loop) → Fresh start l → may_drop p l.agent.config ≡ false
  not_yet l h = elim (Bool-cases (may_drop p l.agent.config)) [
    | inr e ↦ e
    | inl e ↦
        let passed = elapsed_le p.now (since l.agent) 604799999999999 in
        elim h [ inl z ↦ ground (arith, passed) | inr z ↦ ground (arith, passed) ]
  ]

  refusal-Fresh : (l : Loop) → Fresh start l → Fresh start (on_refusal p l).0
  unfolding on_refusal
  refusal-Fresh l h =
      let l1 : Loop = record l { agent = (unauthorized_too_long p l.agent).0 } in
      let now_fresh = too_long-fresh l.agent h in
      ground (arith, now_fresh, rest-since p (usual p) l1, drop-since p l1)

  answer-fresh :
      (facts : SentFacts) (sessions : Option (Text × Block)) (r : Response) (l : Loop)
      → since (on_answer p facts sessions r l).0.agent ≡ 0
  unfolding on_answer
  answer-fresh facts sessions r l =
      let l1 : Loop = record l { agent = (accept_answer p facts sessions r l.agent).0 } in
      ground (arith, answer-since p facts sessions r l.agent, rest-since p (wait_of p r) l1)

  after-Fresh :
      (facts : SentFacts) (sessions : Option (Text × Block)) (l : Loop)
      → Fresh start l
      → Fresh start (after_poll p facts sessions l).0
  unfolding after_poll
  after-Fresh facts sessions l h = elim (Outcome-cases p.outcome) [
    | inl e ↦ ground (arith, drop-since p l)
    | inr (inl e) ↦ ground (arith, refusal-Fresh l h)
    | inr (inr (inl e)) ↦ ground (arith, rest-since p (usual p) l)
    | inr (inr (inr (r, e))) ↦ inl (ground (arith, answer-fresh facts sessions r l))
  ]

  pass-Fresh : (l : Loop) → Fresh start l → Fresh start (pass p l).0
  unfolding pass
  pass-Fresh l h =
      let (w, sessions) = attach p.digest p.look l.watcher l.agent.config in
      after-Fresh (attach_facts p.collect l.agent.config p.now).0 sessions
        (record l { watcher = w }) h

Next-cases : (n : Next) → (n ≡ left) ⊎ ((n ≡ at_once) ⊎ ((d : ℤ) × (n ≡ slept d)))
Next-cases at_once = inr (inl refl)
Next-cases (slept d) = inr (inr (d, refl))
Next-cases left = inl refl

-- Passes one after another, until the loop is left.
unfoldable pub run : List Pass → Loop → Loop
unfolding pass
run [] l = l
run (p ∷ ps) l =
    let (l1, next) = pass p l in let rest = run ps l1 in elim next [ left ↦ l1 | _ ↦ rest ]

-- However the polls of passes within seven days come out, as long as the server does not disown the
-- certificate, the agent keeps it, if no run of refusals was on before those days.
pub run_survives :
    (start : Time) (ps : List Pass) (l : Loop)
    → All (Within start) ps
    → Fresh start l
    → l.has_cert ≡ true
    → (run ps l).has_cert ≡ true
unfolding run
run_survives start [] l inside h c = c
run_survives start (p ∷ ps) l inside h c =
    let l1 = (pass p l).0 in
    let kept = pass_keeps_cert p l c (not_yet start p inside.0 l h) in
    let later = run_survives start ps l1 inside.1 (pass-Fresh start p inside.0 l h) kept in
    elim (Next-cases (pass p l).1) [ inl e ↦ ground (arith, kept) | inr e ↦ ground (arith, later) ]

-- The refusals have gone on for seven days.
abbrev pub IsTired : Pass → Agent → Type 0
IsTired p a =
    ((since a == 0) ≡ false) × (has_elapsed p.now (since a) (pos unauthorized_grace) ≡ true)

-- Without the certificate, and with the same count of the refusals.
abbrev Dropped : Loop → Loop → Type 0
Dropped l l1 = (l1.has_cert ≡ false) × (since l1.agent ≡ since l.agent)

refusal-drops :
    (p : Pass) (l : Loop) → p.can_remove ≡ true → IsTired p l.agent → Dropped l (on_refusal p l).0
unfolding on_refusal unauthorized_too_long drop save
refusal-drops p l r tired = ground (arith, tired.0, tired.1)

after-drops :
    (p : Pass) (facts : SentFacts) (sessions : Option (Text × Block)) (l : Loop)
    → p.outcome ≡ unauthorized
    → p.can_remove ≡ true
    → IsTired p l.agent
    → Dropped l (after_poll p facts sessions l).0
unfolding after_poll
after-drops p facts sessions l u r tired = ground (arith, refusal-drops p l r tired)

pass-drops :
    (p : Pass) (l : Loop)
    → p.outcome ≡ unauthorized
    → p.can_remove ≡ true
    → IsTired p l.agent
    → Dropped l (pass p l).0
unfolding pass
pass-drops p l u r tired =
    let (w, sessions) = attach p.digest p.look l.watcher l.agent.config in
    after-drops p (attach_facts p.collect l.agent.config p.now).0 sessions
      (record l { watcher = w }) u r tired

-- What SaveIssued leaves of the configuration: the host is the new one.
abbrev pub enrolled_as : ℤ → Agent → Agent
enrolled_as host a = record a { config = record a.config { host_id = host } }

-- When a certificate is given up because a refusal that does not name it comes seven days after the
-- first one, the certificate of a new enrollment is given up at the next such refusal, however
-- soon, where the files of both can be removed: giving up the first one leaves the count of the
-- refusals.
pub pass_drops_again :
    (p q : Pass) (l : Loop) (host : ℤ)
    → p.outcome ≡ unauthorized
    → q.outcome ≡ unauthorized
    → p.can_remove ≡ true
    → q.can_remove ≡ true
    → IsTired p l.agent
    → p.now ≤ q.now
    → let l1 = (pass p l).0 in
      (pass q (record l1 { has_cert = true; agent = enrolled_as host l1.agent })).0.has_cert ≡ false
pass_drops_again p q l host u v r t tired le =
    let l1 = (pass p l).0 in
    let l2 : Loop = record l1 { has_cert = true; agent = enrolled_as host l1.agent } in
    let first = (pass-drops p l u r tired).1 in
    (pass-drops q l2 v t (
      ap (λ n. n == 0) first ∙ tired.0,
      ap (λ n. has_elapsed q.now n (pos unauthorized_grace)) first
          ∙ elapsed_later p.now q.now (since l.agent) 604799999999999 le tired.1,
    )).0
