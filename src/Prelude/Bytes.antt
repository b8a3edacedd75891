-- ===== src/Prelude/Bytes.antt =====
-- Go strings as lists of bytes: comparison, and what the code uses of the package strings.
use Prim.Native.Char.{code}
use Prim.Native.String.{String}
use Prim.Native.Nat.{ℕ, zero, suc, ◌+◌, ◌-◌, ◌*◌, ◌^◌}
use mathlib.Core.Path.{◌≡◌, refl, ap, ◌∙◌}
use mathlib.Core.Logic.{◌↔◌, ◌⊎◌}
use mathlib.Core.Bool.{Bool, true, false, ◌&&◌, ◌||◌}
use mathlib.Core.List.{List, [], ◌∷◌}
use native.Mathlib.Omega.{arith}
use fog_agent.Prelude.Tests.{ltb, leb, ◌==◌, if◌then◌else◌}
use fog_agent.Prelude.Int.{ℤ, pos, negsuc}

abbrev pub Text : Type 0
Text = List ℕ

-- The bytes of an ASCII literal.
abbrev pub text : String → Text
text String.[] = []
text (String.◌∷◌ c s) = code c ∷ text s

infix 50 ◌=ᵗ◌ ◌<ᵗ◌
-- a == b on strings
unfoldable pub ◌=ᵗ◌ : Text → Text → Bool
[] =ᵗ [] = true
[] =ᵗ (b ∷ bs) = false
(a ∷ as') =ᵗ [] = false
(a ∷ as') =ᵗ (b ∷ bs) = a == b && as' =ᵗ bs

-- a < b on strings: by bytes
unfoldable pub ◌<ᵗ◌ : Text → Text → Bool
[] <ᵗ [] = false
[] <ᵗ (b ∷ bs) = true
(a ∷ as') <ᵗ [] = false
(a ∷ as') <ᵗ (b ∷ bs) = ltb a b || (a == b && as' <ᵗ bs)

pub text_eq_refl : (a : Text) → (a =ᵗ a) ≡ true
unfolding ◌=ᵗ◌
text_eq_refl [] = refl
text_eq_refl (x ∷ xs) = ground (arith, text_eq_refl xs)

pub text_eq→eq : (a b : Text) → (a =ᵗ b) ≡ true → a ≡ b
unfolding ◌=ᵗ◌
text_eq→eq [] [] h = refl
text_eq→eq [] (y ∷ ys) h = ground arith
text_eq→eq (x ∷ xs) [] h = ground arith
text_eq→eq (x ∷ xs) (y ∷ ys) h = ground (arith, text_eq→eq xs ys)

pub text_eq_iff : (a b : Text) → ((a =ᵗ b) ≡ true) ↔ (a ≡ b)
text_eq_iff a b = (text_eq→eq a b, λ e. ap (λ t. t =ᵗ b) e ∙ text_eq_refl b)

-- Exactly one of: equal, below, above.
pub text_trichotomy :
    (a b : Text)
    → (((a =ᵗ b) ≡ true) × ((a <ᵗ b) ≡ false) × ((b <ᵗ a) ≡ false))
      ⊎ (((a =ᵗ b) ≡ false) × ((a <ᵗ b) ≡ true) × ((b <ᵗ a) ≡ false))
      ⊎ (((a =ᵗ b) ≡ false) × ((a <ᵗ b) ≡ false) × ((b <ᵗ a) ≡ true))
unfolding ◌=ᵗ◌ ◌<ᵗ◌
text_trichotomy [] [] = ground arith
text_trichotomy [] (y ∷ ys) = ground arith
text_trichotomy (x ∷ xs) [] = ground arith
text_trichotomy (x ∷ xs) (y ∷ ys) = ground (arith, text_trichotomy xs ys)

pub text_lt_trans : (a b c : Text) → (a <ᵗ b) ≡ true → (b <ᵗ c) ≡ true → (a <ᵗ c) ≡ true
unfolding ◌<ᵗ◌
text_lt_trans [] [] c h k = ground arith
text_lt_trans [] (y ∷ ys) [] h k = ground arith
text_lt_trans [] (y ∷ ys) (z ∷ zs) h k = refl
text_lt_trans (x ∷ xs) [] c h k = ground arith
text_lt_trans (x ∷ xs) (y ∷ ys) [] h k = ground arith
text_lt_trans (x ∷ xs) (y ∷ ys) (z ∷ zs) h k = ground (arith, text_lt_trans xs ys zs)

-- strings.Cut by a one-byte separator: what stands before it, after it, and whether it is there.
unfoldable pub cut : ℕ → Text → Text × Text × Bool
cut sep [] = ([], [], false)
cut sep (c ∷ cs) =
    let (before, after, found) = cut sep cs in
    if c == sep then ([], cs, true) else (c ∷ before, after, found)

-- strings.Split by a one-byte separator, as its first part and the rest.
unfoldable pub split_first : ℕ → Text → Text × List Text
split_first sep [] = ([], [])
split_first sep (c ∷ cs) =
    let (part, rest) = split_first sep cs in
    if c == sep then ([], part ∷ rest) else (c ∷ part, rest)

unfoldable pub split_on : ℕ → Text → List Text
unfolding split_first
split_on sep s = let (part, rest) = split_first sep s in part ∷ rest

-- strings.TrimPrefix by one byte
unfoldable pub trim_prefix : ℕ → Text → Text
trim_prefix p [] = []
trim_prefix p (c ∷ cs) = if c == p then cs else c ∷ cs

-- strings.IndexByte(s, c) >= 0
unfoldable pub has_byte : ℕ → Text → Bool
has_byte p [] = false
has_byte p (c ∷ cs) = c == p || has_byte p cs

unfoldable pub is_digit : ℕ → Bool
is_digit c = leb b'0' c && leb c b'9'

-- strings.SplitN: at most `n` parts, the last with what is left.
unfoldable pub split_n : ℕ → ℕ → Text → List Text
split_n sep zero s = []
split_n sep (suc zero) s = s ∷ []
split_n sep (suc (suc n)) s =
    let (part, rest, found) = cut sep s in
    if found then part ∷ split_n sep (suc n) rest else part ∷ []

-- strconv.ParseUint in base ten, byte by byte: a bad byte and a number past 64 bits are told apart,
-- by which comes first.
pub data Digits : Type 0 where
  number : ℕ → Digits
  syntax range : Digits

unfoldable pub parse_uint : ℕ → Text → Digits
unfolding is_digit
parse_uint n [] = number n
parse_uint n (c ∷ cs) =
    let n' = n * 10 + (c - b'0') in
    let rest = parse_uint n' cs in
    if is_digit c then (if ltb n' (2 ^ 64) then rest else range) else syntax

-- An unsigned reading as an int64 with its sign, and whether strconv.Atoi reports an error.
abbrev pub signed : Bool → Digits → ℤ × Bool
signed negative syntax = (pos 0, true)
signed false (number n) = if ltb n (2 ^ 63) then (pos n, false) else (pos (2 ^ 63 - 1), true)
signed true (number zero) = (pos 0, false)
signed true (number (suc n)) =
    if ltb n (2 ^ 63) then (negsuc n, false) else (negsuc (2 ^ 63 - 1), true)
signed false range = (pos (2 ^ 63 - 1), true)
signed true range = (negsuc (2 ^ 63 - 1), true)

abbrev pub unsigned_part : Text → Digits
unsigned_part [] = syntax
unsigned_part (c ∷ cs) = parse_uint 0 (c ∷ cs)

-- strconv.Atoi: the value (0 on bad syntax, the nearest bound out of range) and whether it errs.
unfoldable pub atoi : Text → ℤ × Bool
unfolding parse_uint
atoi [] = (pos 0, true)
atoi (c ∷ cs) =
    if c == b'-'
    then signed true (unsigned_part cs)
    else if c == b'+'
    then signed false (unsigned_part cs)
    else signed false (unsigned_part (c ∷ cs))
