-- ===== src/Agent/Facts/Gate.antt =====
-- When a fact is sent, and when no more.
use fog_agent.Prelude.{
  ◌≡◌, refl, ap, ◌∙◌, inl, inr, ◌↔◌, Bool, true, false, not, ◌&&◌, ◌||◌, [], Option, none, some,
  if◌then◌else◌, Text, ◌=ᵗ◌, Time, text_eq_refl, text_eq_iff, arith, Bool-cases, Option-cases,
}
use fog_agent.Enroll.Data.{Config}
use fog_agent.Agent.World.{Log, Agent, save}
use fog_agent.Agent.Facts.{
  Kind, inventory, software, directory, printers, network, secure_boot, Wants, hash_of, is_wanted,
  facts_due, SentFacts, offer, is_network, block, attach_facts, recorded, kept_hash, record_facts,
  same_facts,
}

-- A block rides exactly if facts are collected, its collector ran, what it read is not what the server
-- has or the server asks for it, and either an hour has passed, the server asks for a kind, or it is
-- the network.
pub attach_facts_iff :
    (collect : Kind → Option Text) (c : Config) (now : Time) (k : Kind) (h : Text)
    → ((attach_facts collect c now).1 k ≡ some h) ↔ (
        (collect k ≡ some h)
        × ((not c.facts_disabled
              && ((is_network k || facts_due c now) && (not (h =ᵗ hash_of c k) || is_wanted c k)))
            ≡ true))
unfolding attach_facts block offer
attach_facts_iff collect c now k h = elim (Option-cases (collect k)) [
  | inl e ↦ ground arith
  | inr (g, e) ↦ ground arith
]

recorded-hash :
    (sent : SentFacts) (wants : Wants) (now : Time) (c : Config) (k : Kind)
    → hash_of (recorded sent wants now c) k ≡ kept_hash sent c k
recorded-hash sent wants now c inventory = refl
recorded-hash sent wants now c software = refl
recorded-hash sent wants now c directory = refl
recorded-hash sent wants now c printers = refl
recorded-hash sent wants now c network = refl
recorded-hash sent wants now c secure_boot = refl

recorded-wants :
    (sent : SentFacts) (wants : Wants) (now : Time) (c : Config) (k : Kind)
    → is_wanted (recorded sent wants now c) k ≡ wants.of_kind k
recorded-wants sent wants now c inventory = refl
recorded-wants sent wants now c software = refl
recorded-wants sent wants now c directory = refl
recorded-wants sent wants now c printers = refl
recorded-wants sent wants now c network = refl
recorded-wants sent wants now c secure_boot = refl

save-config : (can : Log → Bool) (a : Agent) → (save can a).0.config ≡ a.config
unfolding save
save-config can a = ground arith

either-config :
    (b : Bool) (x y : Agent × Bool) (c : Config)
    → x.0.config ≡ c
    → y.0.config ≡ c
    → (if b then x else y).0.config ≡ c
either-config true x y c p q = p
either-config false x y c p q = q

pub record_facts-config :
    (can : Log → Bool) (sent : SentFacts) (wants : Wants) (now : Time) (a : Agent)
    → (record_facts can sent wants now a).0.config ≡ recorded sent wants now a.config
unfolding record_facts
record_facts-config can sent wants now a =
    let c = recorded sent wants now a.config in
    let a1 : Agent = record a { config = c } in
    either-config (same_facts a.config c) (a1, true) (save can a1) c refl (save-config can a1)

block-due :
    (collect : Kind → Option Text) (c : Config) (now : Time) (k : Kind) (h : Text)
    → facts_due c now ≡ true
    → collect k ≡ some h
    → block collect c now k ≡ (if not (h =ᵗ hash_of c k) || is_wanted c k then some h else none)
unfolding block offer facts_due
block-due collect c now k h due e = ground arith

-- What is recorded of a kind that was due, when its collector read the hash.
kept-read :
    (collect : Kind → Option Text) (c : Config) (now : Time) (k : Kind) (h : Text)
    → facts_due c now ≡ true
    → collect k ≡ some h
    → (h =ᵗ []) ≡ false
    → kept_hash (attach_facts collect c now).0 c k ≡ h
unfolding attach_facts
kept-read collect c now k h due e n =
    let offered = block-due collect c now k h due e in
    elim (Bool-cases (not (h =ᵗ hash_of c k) || is_wanted c k)) [
      | inl o ↦ ground (arith, offered)
      | inr o ↦ ground (arith, offered, text_eq_refl [], text_eq_iff h (hash_of c k))
    ]

not_offered :
    (collect : Kind → Option Text) (c : Config) (now : Time) (k : Kind) (h : Text)
    → collect k ≡ some h
    → hash_of c k ≡ h
    → is_wanted c k ≡ false
    → (attach_facts collect c now).1 k ≡ none
unfolding attach_facts block offer
not_offered collect c now k h e s w = ground (arith, text_eq_refl h)

-- A kind whose collector read something with a hash at a poll with facts due, whether it was sent or the server had it, is not
-- sent again once that poll is recorded, while its collector reads the same and the server does not ask
-- for it, however much later.
pub record_facts_settles :
    (can : Log → Bool) (collect : Kind → Option Text) (wants : Wants) (now later : Time) (a : Agent)
    (k : Kind) (h : Text)
    → facts_due a.config now ≡ true
    → collect k ≡ some h
    → (h =ᵗ []) ≡ false
    → wants.of_kind k ≡ false
    → let sent = (attach_facts collect a.config now).0 in
      let b = (record_facts can sent wants now a).0 in
      (attach_facts collect b.config later).1 k ≡ none
record_facts_settles can collect wants now later a k h due e n w =
    let sent = (attach_facts collect a.config now).0 in
    let b = (record_facts can sent wants now a).0 in
    let same = record_facts-config can sent wants now a in
    not_offered collect b.config later k h e
      (ap (λ c. hash_of c k) same
        ∙ recorded-hash sent wants now a.config k
        ∙ kept-read collect a.config now k h due e n)
      (ap (λ c. is_wanted c k) same ∙ recorded-wants sent wants now a.config k ∙ w)
