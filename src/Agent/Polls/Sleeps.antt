-- ===== src/Agent/Polls/Sleeps.antt =====
-- How long a pass of the loop that keeps the certificate sleeps before the next one.
use mathlib.Core.Path.{subst}
use fog_agent.Prelude.{
  ℕ, zero, suc, ◌*◌, ◌≤◌, ◌<◌, ltb, if◌then◌else◌, List, Option-cases, Time, ◌≡◌, refl, ◌⊎◌, inl,
  inr, true, false, not, ◌&&◌, Option, some, ◌==◌, arith, Bool-cases, Text,
}
use fog_agent.Prelude.Int.{ℤ, pos, negsuc, ltb_ℤ, leb_ℤ, wrap64, ◌*ℤ◌}
use fog_agent.Enroll.Data.{Schedule}
use fog_agent.Reboot.{nanos_per_second}
use fog_agent.Agent.Format.{has_elapsed, sub_time}
use fog_agent.Agent.Facts.{attach_facts, SentFacts}
use fog_agent.Agent.Sessions.{attach, Block, sleep_sampling}
use fog_agent.Agent.Polls.{
  Response, Outcome, certificate_unknown, unauthorized, unreachable, answered, Pass, Loop, Next,
  slept, left, fire, unauthorized_grace, unauthorized_too_long, wait_or_fire, pass, accept_answer,
  rest, usual, wait_of, on_refusal, on_answer, after_poll,
}
use fog_agent.Agent.Polls.Refusals.{may_drop, too_long_kept}

module _ (p : Pass) where
  -- After a wait, or short of it at the time of the first firing of a schedule that is due then.
  abbrev pub Sleeps : ℤ → Next → Type 0
  Sleeps wait next =
      (next ≡ slept wait)
      ⊎ ((ss : List Schedule) × (after : Time) × (t : Time) × (s : Schedule) × (p.resting ≤ after)
          × (p.next ss after ≡ some (t, s))
          × (ltb_ℤ (sub_time t p.resting) wait ≡ true)
          × (next ≡ slept (sub_time t p.resting)))

  wait-Sleeps :
      (wait : ℤ) (l : Loop)
      → let next = (wait_or_fire p wait l).1 in (next ≡ left) ⊎ Sleeps wait next
  unfolding wait_or_fire
  wait-Sleeps wait l =
      let c = l.agent.config in
      let after = if ltb p.resting c.power_fired then c.power_fired else p.resting in
      let a = (sleep_sampling p.machine.can_save p.looks (l.watcher, l.agent)).1 in
      elim (Option-cases (p.next c.power_schedules after)) [
        | inl e ↦ inr (inl (ground (arith, e)))
        | inr ((t, s), e) ↦ elim (Bool-cases (leb_ℤ wait (sub_time t p.resting))) [
          | inl k ↦ inr (inl (ground (arith, e, k)))
          | inr k ↦ elim (Bool-cases (fire p t s a).1) [
            | inr g ↦ inl (ground (arith, e, k, g))
            | inl g ↦ inr (
                inr (
                  c.power_schedules,
                  after,
                  t,
                  s,
                  ground arith,
                  e,
                  ground (arith, k),
                  ground (arith, e, k, g),
                ))
          ]
        ]
      ]

  rest-Sleeps :
      (wait : ℤ) (l : Loop) → let next = (rest p wait l).1 in (next ≡ left) ⊎ Sleeps wait next
  rest-Sleeps wait l = elim (Bool-cases p.once) [
    | inl e ↦ inl (ground (arith, e))
    | inr e ↦
        subst (λ n. (n ≡ left) ⊎ Sleeps wait n) {x = (wait_or_fire p wait l).1} (ground (arith, e))
          (wait-Sleeps wait l)
  ]

-- The wait that a poll's outcome asks for: the seconds that the server names, or five minutes.
abbrev pub Asks : Outcome → ℤ → Type 0
Asks (answered r) wait =
    ((ltb_ℤ (pos 0) r.poll_interval ≡ false) × (wait ≡ pos 300000000000))
    ⊎ ((n : ℕ) × (r.poll_interval ≡ pos n) × (0 < n) × (wait ≡ pos (n * 1000000000)))
Asks o wait = wait ≡ pos 300000000000

-- An interval of seconds whose nanoseconds an int64 holds.
abbrev pub IsShort : Outcome → Type 0
IsShort (answered r) = leb_ℤ r.poll_interval (pos 9223372036) ≡ true
IsShort o = Unit

seconds_lem :
    (i : ℤ)
    → leb_ℤ i (pos 9223372036) ≡ true
    → (ltb_ℤ (pos 0) i ≡ false)
      ⊎ ((n : ℕ) × (i ≡ pos n) × (0 < n) × (wrap64 (i *ℤ nanos_per_second) ≡ pos (n * 1000000000)))
unfolding wrap64 ◌*ℤ◌
seconds_lem (negsuc n) h = inl (ground arith)
seconds_lem (pos zero) h = inl (ground arith)
seconds_lem (pos (suc n)) h = inr (suc n, refl, omega arith, ground arith)

module _ (p : Pass) where
  wait_of-Asks : (r : Response) → IsShort (answered r) → Asks (answered r) (wait_of p r)
  wait_of-Asks r h = elim (seconds_lem r.poll_interval h) [
    | inl e ↦ inl (e, ground (arith, e))
    | inr (n, e, l, w) ↦
        let some_time : ltb_ℤ (pos 0) r.poll_interval ≡ true = ground (arith, e) in
        inr (n, e, l, ground (arith, w, some_time))
  ]

  -- The loop is left, or it sleeps for the wait that the outcome asks for.
  abbrev pub Ends : Next → Type 0
  Ends next = (next ≡ left) ⊎ ((wait : ℤ) × Asks p.outcome wait × Sleeps p wait next)

  -- From a wait that was asked for.
  Ends-rest :
      (o : Outcome) (wait : ℤ) (next : Next)
      → Asks o wait
      → (next ≡ left) ⊎ Sleeps p wait next
      → (next ≡ left) ⊎ ((w : ℤ) × Asks o w × Sleeps p w next)
  Ends-rest o wait next a (inl e) = inl e
  Ends-rest o wait next a (inr s) = inr (wait, a, s)

  refusal-Sleeps :
      (l : Loop)
      → (has_elapsed p.now l.agent.config.unauthorized_since (pos unauthorized_grace)
          && not (l.agent.config.unauthorized_since == 0))
        ≡ false
      → let next = (on_refusal p l).1 in (next ≡ left) ⊎ Sleeps p (usual p) next
  unfolding on_refusal
  refusal-Sleeps l h =
      let l1 : Loop = record l { agent = (unauthorized_too_long p l.agent).0 } in
      elim (too_long_kept p l.agent h) [
        | inl t ↦ inl (ground (arith, t))
        | inr t ↦
            subst (λ n. (n ≡ left) ⊎ Sleeps p (usual p) n) {x = (rest p (usual p) l1).1}
              (ground (arith, t)) (rest-Sleeps p (usual p) l1)
      ]

  answer-Sleeps :
      (facts : SentFacts) (sessions : Option (Text × Block)) (r : Response) (l : Loop)
      → let next = (on_answer p facts sessions r l).1 in (next ≡ left) ⊎ Sleeps p (wait_of p r) next
  unfolding on_answer
  answer-Sleeps facts sessions r l =
      let (a, replaced) = accept_answer p facts sessions r l.agent in
      let l1 : Loop = record l { agent = a } in
      elim (Bool-cases replaced) [
        | inl e ↦ inl (ground (arith, e))
        | inr e ↦
            subst (λ n. (n ≡ left) ⊎ Sleeps p (wait_of p r) n) {x = (rest p (wait_of p r) l1).1}
              (ground (arith, e)) (rest-Sleeps p (wait_of p r) l1)
      ]

  -- A poll whose outcome is known.
  after_as :
      (facts : SentFacts) (sessions : Option (Text × Block)) (l : Loop) (o : Outcome)
      → p.outcome ≡ o
      → IsShort o
      → may_drop p l.agent.config ≡ false
      → let next = (after_poll p facts sessions l).1 in
        (next ≡ left) ⊎ ((wait : ℤ) × Asks o wait × Sleeps p wait next)
  unfolding after_poll
  after_as facts sessions l certificate_unknown e h m = absurd (ground (arith, e))
  after_as facts sessions l unauthorized e h m =
      let next = (after_poll p facts sessions l).1 in
      Ends-rest unauthorized (usual p) next refl (
        subst (λ n. (n ≡ left) ⊎ Sleeps p (usual p) n) {x = (on_refusal p l).1} (ground (arith, e))
          (refusal-Sleeps l (ground (arith, e))))
  after_as facts sessions l unreachable e h m =
      let next = (after_poll p facts sessions l).1 in
      Ends-rest unreachable (usual p) next refl (
        subst (λ n. (n ≡ left) ⊎ Sleeps p (usual p) n) {x = (rest p (usual p) l).1}
          (ground (arith, e)) (rest-Sleeps p (usual p) l))
  after_as facts sessions l (answered r) e h m =
      let next = (after_poll p facts sessions l).1 in
      Ends-rest (answered r) (wait_of p r) next (wait_of-Asks r h) (
        subst (λ n. (n ≡ left) ⊎ Sleeps p (wait_of p r) n) {x = (on_answer p facts sessions r l).1}
          (ground (arith, e)) (answer-Sleeps facts sessions r l))

  -- A pass that keeps the certificate, with an interval from the server of at most 9223372036 seconds,
  -- leaves the loop or sleeps: for five minutes, or for the seconds that the server names if they are
  -- more than none, or short of that up to the firing of a schedule, which `next` gave for a time from
  -- the start of the wait on.
  pub pass_sleeps :
      (l : Loop) → may_drop p l.agent.config ≡ false → IsShort p.outcome → Ends (pass p l).1
  unfolding pass
  pass_sleeps l m h =
      let (w, sessions) = attach p.digest p.look l.watcher l.agent.config in
      after_as (attach_facts p.collect l.agent.config p.now).0 sessions (record l { watcher = w })
        p.outcome refl h m
