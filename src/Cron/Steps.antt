-- ===== src/Cron/Steps.antt =====
-- What the step loop of a field sets.
use mathlib.Core.Path.{subst}
use fog_agent.Prelude.{
  ℕ, zero, suc, ◌+◌, ◌-◌, ◌*◌, ◌%◌, ◌^◌, ◌≤◌, ◌<◌, ◌≡◌, ◌↔◌, ap, sym, ◌∙◌, ◌⊎◌, inl, inr,
  Bool-cases, true, leb, arith,
}
use fog_agent.Cron.{Bits, set_bit, no_bits, steps, step_fuel}

-- A bit that is set stays set.
steps_keeps :
    (n v hi step : ℕ) (bits : Bits) (i : ℕ) → bits i ≡ true → steps n v hi step bits i ≡ true
unfolding steps
steps_keeps zero v hi step bits i h = h
steps_keeps (suc n) v hi step bits i h =
    ground (arith, steps_keeps n ((v + step) % 2 ^ 64) hi step (set_bit bits v) i)

-- The bits that the loop is to set.
abbrev pub IsStep : ℕ → ℕ → ℕ → ℕ → Type 0
IsStep lo hi step i = (k : ℕ) × (i ≡ lo + k * step) × (i ≤ hi)

steps_sets :
    (n k v hi step : ℕ) (bits : Bits) (i : ℕ)
    → v < 2 ^ 63
    → hi < 64
    → 1 ≤ step
    → step ≤ 2 ^ 63 - 65
    → 64 ≤ n + v
    → i ≡ v + k * step
    → i ≤ hi
    → steps n v hi step bits i ≡ true
unfolding steps
steps_sets zero zero v hi step bits i a b c d e h g = absurd (omega arith)
steps_sets zero (suc k) v hi step bits i a b c d e h g = absurd (omega arith)
steps_sets (suc n) zero v hi step bits i a b c d e h g =
    ground (arith, steps_keeps n ((v + step) % 2 ^ 64) hi step (set_bit bits v) i)
steps_sets (suc n) (suc k) v hi step bits i a b c d e h g =
    ground (arith, steps_sets n k ((v + step) % 2 ^ 64) hi step (set_bit bits v) i)

steps_sound :
    (n v hi step : ℕ) (bits : Bits) (i : ℕ)
    → v < 2 ^ 63
    → hi < 64
    → 1 ≤ step
    → step ≤ 2 ^ 63 - 65
    → steps n v hi step bits i ≡ true
    → (bits i ≡ true) ⊎ IsStep v hi step i
unfolding steps
steps_sound zero v hi step bits i a b c d h = inl h
steps_sound (suc n) v hi step bits i a b c d h = elim (Bool-cases (leb v hi)) [
  | inl e ↦
      elim (steps_sound n ((v + step) % 2 ^ 64) hi step (set_bit bits v) i (ground arith) b c d
        (ground arith)) [
          | inl o ↦ elim (Bool-cases (bits i)) [
            | inl p ↦ inl p
            | inr p ↦ inr (0, ground arith, ground arith)
          ]
          | inr (k, q, r) ↦ inr (suc k, ground arith, r)
        ]
  | inr e ↦ inl (ground arith)
]

steps_turn :
    (n v hi step : ℕ) (bits : Bits)
    → (v ≤ hi) ⊎ (2 ^ 63 ≤ v)
    → steps (suc n) v hi step bits ≡ steps n ((v + step) % 2 ^ 64) hi step (set_bit bits v)
unfolding steps
steps_turn n v hi step bits h = ground arith

-- With the largest step the loop wraps round: from a start of 2 or more, and an upper bound from
-- there on and below 64, it sets the bit two below the start.
pub steps_wrap :
    (lo hi : ℕ) (bits : Bits)
    → 2 ≤ lo
    → lo ≤ hi
    → hi < 64
    → steps step_fuel lo hi (2 ^ 63 - 1) bits (lo - 2) ≡ true
steps_wrap lo hi bits a b c =
    let v1 = (lo + (2 ^ 63 - 1)) % 2 ^ 64 in
    let v2 = (v1 + (2 ^ 63 - 1)) % 2 ^ 64 in
    let bits1 = set_bit bits lo in
    let bits2 = set_bit bits1 v1 in
    ap (λ f. f (lo - 2))
      (steps_turn 255 lo hi (2 ^ 63 - 1) bits (inl b)
        ∙ steps_turn 254 v1 hi (2 ^ 63 - 1) bits1 (inr (omega arith))
        ∙ steps_turn 253 v2 hi (2 ^ 63 - 1) bits2 (inl (omega arith)))
    ∙ steps_keeps 253 ((v2 + (2 ^ 63 - 1)) % 2 ^ 64) hi (2 ^ 63 - 1) (set_bit bits2 v2) (lo - 2)
        (ground arith)

-- The loop as it runs, on numbers of 64 bits with a sign: from the number `v` and the set `bits` it
-- ends with the set `out`. It ends where `v` is above the upper bound; where it is not, which a
-- negative number never is, the bit is set and `v` goes on by the step. A run that never ends is none.
pub data Run (hi step : ℕ) : ℕ → Bits → Bits → Type 0 where
  ends : {v : ℕ} {bits : Bits} → hi < v → v < 2 ^ 63 → Run hi step v bits bits
  turns :
      {v : ℕ} {bits out : Bits}
      → (v ≤ hi) ⊎ (2 ^ 63 ≤ v)
      → Run hi step ((v + step) % 2 ^ 64) (set_bit bits v) out
      → Run hi step v bits out

Run-end :
    (n v hi step : ℕ) (bits : Bits)
    → hi < v
    → v < 2 ^ 63
    → Run hi step v bits (steps n v hi step bits)
unfolding steps
Run-end zero v hi step bits a b = ends a b
Run-end (suc n) v hi step bits a b = subst (Run hi step v bits) (ground arith) (ends a b)

Run-turn :
    (n v hi step : ℕ) (bits : Bits)
    → (v ≤ hi) ⊎ (2 ^ 63 ≤ v)
    → let next = (v + step) % 2 ^ 64 in
      Run hi step next (set_bit bits v) (steps n next hi step (set_bit bits v))
      → Run hi step v bits (steps (suc n) v hi step bits)
Run-turn n v hi step bits h r =
    subst (Run hi step v bits) (sym (steps_turn n v hi step bits h)) (turns h r)

-- With a step that stays small the number counts up past the upper bound.
Run-small :
    (n v hi step : ℕ) (bits : Bits)
    → v < 2 ^ 63
    → hi < 64
    → 1 ≤ step
    → step ≤ 2 ^ 63 - 65
    → 64 ≤ n + v
    → Run hi step v bits (steps n v hi step bits)
Run-small zero v hi step bits a b c d e = Run-end zero v hi step bits (omega arith) a
Run-small (suc n) v hi step bits a b c d e = elim (Bool-cases (leb v hi)) [
  | inr g ↦ Run-end (suc n) v hi step bits (ground arith) a
  | inl g ↦
      let low : v ≤ hi = ground arith in
      Run-turn n v hi step bits (inl low) (
        Run-small n ((v + step) % 2 ^ 64) hi step (set_bit bits v) (omega arith) b c d
          (omega arith))
]

-- A number just below 0 whose successor is above the upper bound is the last.
Run-last :
    (n v hi step : ℕ) (bits : Bits)
    → 2 ^ 63 ≤ v
    → hi < (v + step) % 2 ^ 64
    → (v + step) % 2 ^ 64 < 2 ^ 63
    → Run hi step v bits (steps (suc n) v hi step bits)
Run-last n v hi step bits a b c =
    Run-turn n v hi step bits (inr a) (Run-end n ((v + step) % 2 ^ 64) hi step (set_bit bits v) b c)

-- With a larger step two turns count down, until the number is below 0 once more and then above.
Run-large :
    (n v hi step : ℕ) (bits : Bits)
    → v < 64
    → hi < 64
    → 2 ^ 63 - 65 < step
    → step < 2 ^ 63
    → 2 * v + 5 ≤ n
    → Run hi step v bits (steps n v hi step bits)
Run-large zero v hi step bits a b c d e = absurd (omega arith)
Run-large (suc zero) v hi step bits a b c d e = absurd (omega arith)
Run-large (suc (suc zero)) v hi step bits a b c d e = absurd (omega arith)
Run-large (suc (suc (suc n))) v hi step bits a b c d e =
    let v1 = (v + step) % 2 ^ 64 in
    let v2 = (v1 + step) % 2 ^ 64 in
    let bits1 = set_bit bits v in
    let bits2 = set_bit bits1 v1 in
    elim (Bool-cases (leb v hi)) [
      | inr g ↦ Run-end (suc (suc (suc n))) v hi step bits (ground arith) (omega arith)
      | inl g ↦ elim (Bool-cases (leb (2 ^ 63) v1)) [
        | inr k ↦
            Run-turn (suc (suc n)) v hi step bits (inl (ground arith))
              (Run-end (suc (suc n)) v1 hi step bits1 (omega arith) (ground arith))
        | inl k ↦
            let below : 2 ^ 63 ≤ v1 = ground arith in
            Run-turn (suc (suc n)) v hi step bits (inl (ground arith)) (
              Run-turn (suc n) v1 hi step bits1 (inr below) (elim (Bool-cases (leb (2 ^ 63) v2)) [
                | inl l ↦
                    let below2 : 2 ^ 63 ≤ v2 = ground arith in
                    Run-last n v2 hi step bits2 below2 (omega arith) (omega arith)
                | inr l ↦
                    let above : v2 < 2 ^ 63 = ground arith in
                    Run-large (suc n) v2 hi step bits2 (omega arith) b c d (omega arith)
              ]))
      ]
    ]

-- With bounds in order and below 64 and any step from 1 that an int holds the loop of the source comes
-- to its end, and `steps` with its fuel computes the set that it ends with.
pub steps-Run :
    (lo hi step : ℕ) (bits : Bits)
    → lo ≤ hi
    → hi < 64
    → 1 ≤ step
    → step < 2 ^ 63
    → Run hi step lo bits (steps step_fuel lo hi step bits)
steps-Run lo hi step bits a b c d = elim (Bool-cases (leb step (2 ^ 63 - 65))) [
  | inl s ↦ Run-small step_fuel lo hi step bits (omega arith) b c (ground arith) (omega arith)
  | inr s ↦ Run-large step_fuel lo hi step bits (omega arith) b (ground arith) d (omega arith)
]

-- With bounds in order and below 64 and a step from 1 up to 2 ^ 63 - 65 the loop sets, on an empty
-- set, exactly the numbers of the range that are a multiple of the step above its start.
pub steps_lem :
    (lo hi step i : ℕ)
    → lo ≤ hi
    → hi < 64
    → 1 ≤ step
    → step ≤ 2 ^ 63 - 65
    → (steps step_fuel lo hi step no_bits i ≡ true) ↔ IsStep lo hi step i
steps_lem lo hi step i a b c d = (
  λ h. elim (steps_sound step_fuel lo hi step no_bits i (omega arith) b c d h) [
    | inl e ↦ absurd (ground arith)
    | inr s ↦ s
  ],
  λ s. steps_sets step_fuel s.0 lo hi step no_bits i (omega arith) b c d (omega arith) s.1 s.2,
)
