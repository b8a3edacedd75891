-- ===== src/AutoLogout/Overflow.antt =====
-- The floor of five minutes against the 64 bits of a duration.
use fog_agent.Prelude.{
  ℕ, ◌≤◌, ◌<◌, ◌≡◌, refl, Bool, true, false, not, ◌&&◌, List, [], ◌∷◌, any, all, Text, arith,
  Bool-cases, inl, inr, ◌∙◌,
}
use fog_agent.Prelude.Int.{ℤ, pos, negsuc, leb_ℤ, wrap64, ◌*ℤ◌}
use fog_agent.AutoLogout.{Policy, Idle, KeySet, is_over, limit_of, warn_of, enabled, plan}
use fog_agent.AutoLogout.Window.{
  has_key, logs_off, warns, in_window, Distinct, plan-logs_off, plan-warns, plan_warned,
}

abbrev pub five_minutes : ℤ
five_minutes = pos 300000000000

-- A session has been idle for five minutes at least.
abbrev pub is_idle_long : Idle → Bool
is_idle_long s = leb_ℤ five_minutes s.idle_for

over_is_long :
    (limit : ℤ) (k : Text) (idle : List Idle)
    → leb_ℤ five_minutes limit ≡ true
    → any (λ s. has_key k s && is_over limit s) idle ≡ true
    → any (λ s. has_key k s && is_idle_long s) idle ≡ true
over_is_long limit k [] h o = ground arith
over_is_long limit k (s ∷ rest) h o = ground (arith, over_is_long limit k rest)

limit_of_small :
    (p : Policy) (m : ℕ)
    → p.minutes ≡ pos m
    → 5 ≤ m
    → m ≤ 153722867
    → leb_ℤ five_minutes (limit_of p) ≡ true
unfolding limit_of wrap64 ◌*ℤ◌
limit_of_small p m e l h = ground arith

enabled_least : (p : Policy) (m : ℕ) → p.minutes ≡ pos m → enabled p ≡ true → 5 ≤ m
unfolding enabled
enabled_least p m e on = ground arith

plan_disabled :
    (p : Policy) (idle : List Idle) (warned : KeySet) (k : Text)
    → enabled p ≡ false
    → any (logs_off k) (plan p idle warned).0 ≡ true
    → ⊥
unfolding plan
plan_disabled p idle warned k o off = ground arith

-- With at most 153722867 minutes in the policy, no key is logged off without a session of it that
-- has been idle for five minutes.
pub plan_patient :
    (p : Policy) (m : ℕ) (idle : List Idle) (warned : KeySet) (k : Text)
    → p.minutes ≡ pos m
    → m ≤ 153722867
    → any (logs_off k) (plan p idle warned).0 ≡ true
    → any (λ s. has_key k s && is_idle_long s) idle ≡ true
plan_patient p m idle warned k e h off = elim (Bool-cases (enabled p)) [
  | inl on ↦
      over_is_long (limit_of p) k idle (limit_of_small p m e (enabled_least p m e on) h)
        (rw (← plan-logs_off p idle warned k on) off)
  | inr o ↦ absurd (plan_disabled p idle warned k o off)
]

limit_of_wrapped :
    (p : Policy) (m : ℕ)
    → p.minutes ≡ pos m
    → 153722867 < m
    → m ≤ 307445734
    → (n : ℕ) → leb_ℤ (limit_of p) (pos n) ≡ true
unfolding limit_of wrap64 ◌*ℤ◌
limit_of_wrapped p m e l h n = ground arith

abbrev pub is_present : Idle → Bool
is_present s = leb_ℤ (pos 0) s.idle_for

enabled_large : (p : Policy) (m : ℕ) → p.minutes ≡ pos m → 153722867 < m → enabled p ≡ true
unfolding enabled
enabled_large p m e l = ground arith

over_present :
    (limit : ℤ) (d : ℤ)
    → ((n : ℕ) → leb_ℤ limit (pos n) ≡ true)
    → leb_ℤ (pos 0) d ≡ true
    → leb_ℤ limit d ≡ true
over_present limit (pos n) h p = h n
over_present limit (negsuc n) h p = ground arith

over_everywhere :
    (limit : ℤ) (k : Text) (idle : List Idle)
    → ((n : ℕ) → leb_ℤ limit (pos n) ≡ true)
    → all is_present idle ≡ true
    → any (λ s. has_key k s && is_over limit s) idle ≡ any (has_key k) idle
over_everywhere limit k [] h p = refl
over_everywhere limit k (s ∷ rest) h p =
    ground (arith, over_everywhere limit k rest h, over_present limit s.idle_for h)

-- From 153722868 up to 307445734 minutes the limit wraps to a negative duration, and every key with
-- a session is logged off, however short its idle time, as long as no idle time is below 0.
pub plan_overflow :
    (p : Policy) (m : ℕ) (idle : List Idle) (warned : KeySet) (k : Text)
    → p.minutes ≡ pos m
    → 153722867 < m
    → m ≤ 307445734
    → all is_present idle ≡ true
    → any (logs_off k) (plan p idle warned).0 ≡ any (has_key k) idle
plan_overflow p m idle warned k e l h present =
    plan-logs_off p idle warned k (enabled_large p m e l)
    ∙ over_everywhere (limit_of p) k idle (limit_of_wrapped p m e l h) present

-- Over two samples with no key listed twice, a key is warned at the second exactly if its session is
-- in the warning window then and was not at the first: who returns and leaves again is warned again,
-- and nobody is warned twice in a row.
pub plan_twice :
    (p : Policy) (first second : List Idle) (warned : KeySet) (k : Text)
    → enabled p ≡ true
    → Distinct first
    → Distinct second
    → any (warns k) (plan p second (plan p first warned).1).0 ≡ (
        any (λ s. has_key k s && in_window (limit_of p) (warn_of p) s) second
        && not (any (λ s. has_key k s && in_window (limit_of p) (warn_of p) s) first))
plan_twice p first second warned k on d d' =
    ground (
      arith,
      plan-warns p second (plan p first warned).1 k on d',
      plan_warned p first warned k on d,
    )
