-- ===== src/Cron.antt =====
-- internal/provider/power/cron.go: five-field schedules. A field is a 64-bit set, here the test of its
-- bits; the integers of the step loop are int64 bit patterns, numbers below 2 ^ 64.
pub mod Steps
use fog_agent.Prelude.{
  ℕ, zero, suc, ◌+◌, ◌%◌, ◌^◌, ◌≡◌, Bool, true, false, not, ◌&&◌, ◌||◌, List, [], ◌∷◌, Option, none,
  some, ◌==◌, ltb, leb, if◌then◌else◌, Text, length, ◌=ᵗ◌, cut, split_on, has_byte, atoi,
}
use fog_agent.Prelude.Int.{ℤ, pos, ltb_ℤ, pos_part}

abbrev pub Bits : Type 0
Bits = ℕ → Bool

abbrev pub no_bits : Bits
no_bits i = false

-- bits | 1<<uint(v): a shift by 64 or more, so also by a negative number, gives 0.
abbrev pub set_bit : Bits → ℕ → Bits
set_bit bits v i = bits i || (i == v && ltb v 64)

-- Cron
pub record Cron : Type 0 where
  pub min : Bits
  pub hour : Bits
  pub dom : Bits
  pub month : Bits
  pub dow : Bits
  pub any_dom : Bool
  pub any_dow : Bool

-- field
pub record Field : Type 0 where
  pub lo : ℕ
  pub hi : ℕ

abbrev pub min_field : Field
min_field = record { lo = 0; hi = 59 }

abbrev pub hour_field : Field
hour_field = record { lo = 0; hi = 23 }

abbrev pub dom_field : Field
dom_field = record { lo = 1; hi = 31 }

abbrev pub month_field : Field
month_field = record { lo = 1; hi = 12 }

abbrev pub dow_field : Field
dow_field = record { lo = 0; hi = 7 }

pub data Error : Type 0 where
  want_five : ℕ → Error
  bad_step bad_range bad_value step_needs_range outside : Text → Error

pub data Result (A : Type 0) : Type 0 where
  err : Error → Result A
  ok : A → Result A

infixl 5 ◌>>=◌
-- A field, and what follows it if it could be read.
abbrev pub ◌>>=◌ : {From To : Type 0} → Result From → (From → Result To) → Result To
err failure >>= next = err failure
ok field >>= next = next field

-- for v := lo; v <= hi; v += step, on fuel: a pattern from 2 ^ 63 on is a negative number.
unfoldable pub steps : ℕ → ℕ → ℕ → ℕ → Bits → Bits
steps zero v hi step bits = bits
steps (suc fuel) v hi step bits =
    let rest = steps fuel ((v + step) % 2 ^ 64) hi step (set_bit bits v) in
    if leb v hi || leb (2 ^ 63) v then rest else bits

abbrev pub step_fuel : ℕ
step_fuel = 256

-- What stands in one item behind its step: the bounds, and whether it is a `*`.
abbrev range_of : Field → Text → ℕ → Result (ℤ × ℤ × Bool)
range_of f item step =
    let (a, b, dashed) = cut b'-' item in
    let (lo, lo_errs) = atoi a in
    let (hi, hi_errs) = atoi b in
    let (n, errs) = atoi item in
    if item =ᵗ b'*' ∷ []
    then ok (pos f.lo, pos f.hi, true)
    else if has_byte b'-' item
    then (if lo_errs || hi_errs then err (bad_range item) else ok (lo, hi, false))
    else if errs
    then err (bad_value item)
    else if ltb 1 step
    then err (step_needs_range item)
    else ok (n, n, false)

-- The part of an item before its step, and the step.
abbrev step_of : Text → Result (Text × ℕ)
step_of item =
    let (before, after, found) = cut b'/' item in
    let (n, errs) = atoi after in
    if not found
    then ok (item, 1)
    else if errs || ltb_ℤ n (pos 1)
    then err (bad_step item)
    else ok (before, pos_part n)

-- One turn of the loop of parseField.
unfoldable pub parse_item : Field → Bits → Bool → Text → Result (Bits × Bool)
unfolding steps
parse_item f bits any item = elim (step_of item) [
  | err e ↦ err e
  | ok (rest, step) ↦ elim (range_of f rest step) [
    | err e ↦ err e
    | ok (lo, hi, star) ↦
        if ltb_ℤ lo (pos f.lo) || ltb_ℤ (pos f.hi) hi || ltb_ℤ hi lo
        then err (outside rest)
        else ok (steps step_fuel (pos_part lo) (pos_part hi) step bits, any || (star && step == 1))
  ]
]

unfoldable pub parse_items : Field → Bits → Bool → List Text → Result (Bits × Bool)
unfolding parse_item
parse_items f bits any [] = ok (bits, any)
parse_items f bits any (item ∷ items) = elim (parse_item f bits any item) [
  | err e ↦ err e
  | ok (bits', any') ↦ parse_items f bits' any' items
]

-- parseField
unfoldable pub parse_field : Text → Field → Result (Bits × Bool)
unfolding parse_items
parse_field s f = parse_items f no_bits false (split_on b',' s)

-- The day of week 7 is Sunday like 0.
abbrev pub with_sunday : Bits → Bits
with_sunday bits i = bits i || (bits 7 && i == 0)

-- Parse, of what strings.Fields makes of the expression.
unfoldable pub parse : List Text → Result Cron
unfolding parse_field
parse (p0 ∷ p1 ∷ p2 ∷ p3 ∷ p4 ∷ []) = do
  (min, any0) ← parse_field p0 min_field
  (hour, any1) ← parse_field p1 hour_field
  (dom, any_dom) ← parse_field p2 dom_field
  (month, any3) ← parse_field p3 month_field
  (dow, any_dow) ← parse_field p4 dow_field
  ok (record {
    min = min;
    hour = hour;
    dom = dom;
    month = month;
    dow = with_sunday dow;
    any_dom = any_dom;
    any_dow = any_dow;
  })
parse parts = err (want_five (length parts))

-- What the matcher asks of a time.
pub record Clock : Type 0 where
  pub minute : ℕ
  pub hour : ℕ
  pub day : ℕ
  pub month : ℕ
  pub weekday : ℕ

-- dayMatches
unfoldable pub day_matches : Cron → Clock → Bool
day_matches c t =
    if c.any_dom && c.any_dow
    then true
    else if c.any_dom
    then c.dow t.weekday
    else if c.any_dow
    then c.dom t.day
    else c.dom t.day || c.dow t.weekday

-- Matches
unfoldable pub matches : Cron → Clock → Bool
unfolding day_matches
matches c t = c.min t.minute && c.hour t.hour && c.month t.month && day_matches c t
