-- ===== src/Agent/Polls/Refusals.antt =====
-- When a pass of the loop gives up the certificate.
use fog_agent.Prelude.{
  ◌≡◌, refl, ◌∙◌, ◌⊎◌, inl, inr, Bool, true, false, not, ◌&&◌, Option, none, some, ◌==◌, arith,
  Bool-cases, Text,
}
use fog_agent.Prelude.Int.{ℤ, pos}
use fog_agent.Enroll.Data.{Config}
use fog_agent.Agent.World.{Agent, save}
use fog_agent.Agent.Format.{has_elapsed}
use fog_agent.Agent.Format.Elapsed.{elapsed_now}
use fog_agent.Agent.Facts.{attach_facts, SentFacts}
use fog_agent.Agent.Sessions.{attach, Block}
use fog_agent.Agent.Polls.{
  Response, Outcome, certificate_unknown, unauthorized, unreachable, answered, Pass, Loop, Next,
  unauthorized_grace, unauthorized_too_long, wait_or_fire, pass, accept_answer, rest, usual,
  wait_of, on_refusal, on_answer, after_poll,
}

pub Outcome-cases :
    (o : Outcome)
    → (o ≡ certificate_unknown)
      ⊎ (o ≡ unauthorized)
      ⊎ (o ≡ unreachable)
      ⊎ ((r : Response) × (o ≡ answered r))
Outcome-cases certificate_unknown = inl refl
Outcome-cases unauthorized = inr (inl refl)
Outcome-cases unreachable = inr (inr (inl refl))
Outcome-cases (answered r) = inr (inr (inr (r, refl)))

-- The refusal names the certificate, or the refusals have gone on for seven days.
abbrev pub may_drop : Pass → Config → Bool
may_drop p c = elim p.outcome [
  | certificate_unknown ↦ true
  | unauthorized ↦
      has_elapsed p.now c.unauthorized_since (pos unauthorized_grace)
      && not (c.unauthorized_since == 0)
  | _ ↦ false
]

module _ (p : Pass) where
  wait-cert : (wait : ℤ) (l : Loop) → (wait_or_fire p wait l).0.has_cert ≡ l.has_cert
  unfolding wait_or_fire
  wait-cert wait l = ground arith

  rest-kept : (wait : ℤ) (l : Loop) → (rest p wait l).0.has_cert ≡ l.has_cert
  rest-kept wait l = ground (arith, wait-cert wait l)

  -- The first refusal of a run is not one too many.
  pub too_long_kept :
      (a : Agent)
      → (has_elapsed p.now a.config.unauthorized_since (pos unauthorized_grace)
          && not (a.config.unauthorized_since == 0))
        ≡ false
      → ((unauthorized_too_long p a).1 ≡ none) ⊎ ((unauthorized_too_long p a).1 ≡ some false)
  unfolding unauthorized_too_long save
  too_long_kept a h = elim (Bool-cases (a.config.unauthorized_since == 0)) [
    | inl z ↦ elim (Bool-cases (p.machine.can_save a.log)) [
      | inl w ↦ inr (ground (arith, elapsed_now p.now 604799999999999))
      | inr w ↦ inl (ground arith)
    ]
    | inr z ↦ inr (ground arith)
  ]

  -- The certificate is not given up.
  abbrev Kept : Loop → Loop × Next → Type 0
  Kept l r = r.0.has_cert ≡ l.has_cert

  refusal-Kept :
      (l : Loop)
      → (has_elapsed p.now l.agent.config.unauthorized_since (pos unauthorized_grace)
          && not (l.agent.config.unauthorized_since == 0))
        ≡ false
      → Kept l (on_refusal p l)
  unfolding on_refusal
  refusal-Kept l h =
      let l1 : Loop = record l { agent = (unauthorized_too_long p l.agent).0 } in
      elim (too_long_kept l.agent h) [
        | inl t ↦ ground arith
        | inr t ↦ ground (arith, rest-kept (usual p) l1)
      ]

  answer-Kept :
      (facts : SentFacts) (sessions : Option (Text × Block)) (r : Response) (l : Loop)
      → Kept l (on_answer p facts sessions r l)
  unfolding on_answer
  answer-Kept facts sessions r l =
      let l1 : Loop = record l { agent = (accept_answer p facts sessions r l.agent).0 } in
      ground (arith, rest-kept (wait_of p r) l1)

  after-Kept :
      (facts : SentFacts) (sessions : Option (Text × Block)) (l : Loop)
      → may_drop p l.agent.config ≡ false
      → Kept l (after_poll p facts sessions l)
  unfolding after_poll
  after-Kept facts sessions l m = elim (Outcome-cases p.outcome) [
    | inl e ↦ ground arith
    | inr (inl e) ↦ ground (arith, refusal-Kept l)
    | inr (inr (inl e)) ↦ ground (arith, rest-kept (usual p) l)
    | inr (inr (inr (r, e))) ↦ ground (arith, answer-Kept facts sessions r l)
  ]

  kept : (l : Loop) → may_drop p l.agent.config ≡ false → Kept l (pass p l)
  unfolding pass
  kept l m =
      let (w, sessions) = attach p.digest p.look l.watcher l.agent.config in
      after-Kept (attach_facts p.collect l.agent.config p.now).0 sessions (record l { watcher = w })
        m

  -- A pass gives up the certificate only if the server said that it knows no such certificate, or if it
  -- refused it and the first refusal of the run is at least seven days old.
  pub pass_keeps_cert :
      (l : Loop)
      → l.has_cert ≡ true
      → may_drop p l.agent.config ≡ false
      → (pass p l).0.has_cert ≡ true
  pass_keeps_cert l h m = kept l m ∙ h
