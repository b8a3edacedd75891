-- ===== src/Version/Grammar.antt =====
-- What `valid` promises of the numbers that `compare` reads.
use native.Mathlib.Nat.{pow-suc, one-le-pow, pow-le-pow_right}
use fog_agent.Prelude.{
  ℕ, ◌+◌, ◌-◌, ◌*◌, ◌^◌, ◌≤◌, ◌<◌, ◌≡◌, refl, ap, true, false, List, [], ◌∷◌, ◌==◌, if◌then◌else◌,
  length, all, Text, ◌=ᵗ◌, cut, split_on, split_n, is_digit, atoi, parse_uint, number, trim_prefix,
  arith,
}
use fog_agent.Prelude.Int.{pos}
use fog_agent.Version.{split, valid, good_part, fill}

shift : (n d q b : ℕ) → d ≤ 9 → (n + 1) * (q * 10) ≤ b → (n * 10 + d + 1) * q ≤ b
shift n d q b h k = grind arith

small_factor : (n q b : ℕ) → 1 ≤ q → (n + 1) * q ≤ b → n < b
small_factor n q b h k = grind arith

digit_range :
    (c : ℕ) → is_digit c ≡ true → (c - b'0' ≤ 9) × ((c == b'-') ≡ false) × ((c == b'+') ≡ false)
unfolding is_digit
digit_range c h = ground arith

-- A run of digits is below the power of ten that its length gives.
parse_uint_digits :
    (n : ℕ) (cs : Text)
    → all is_digit cs ≡ true
    → (n + 1) * 10 ^ length cs ≤ 10 ^ 9
    → (m : ℕ) × (parse_uint n cs ≡ number m) × (m < 10 ^ 9)
unfolding parse_uint
parse_uint_digits n [] h b = (n, refl, omega arith)
parse_uint_digits n (c ∷ cs) h b =
    let digit : is_digit c ≡ true = ground arith in
    let room : (n * 10 + (c - b'0') + 1) * 10 ^ length cs ≤ 10 ^ 9 =
      shift n (c - b'0') (10 ^ length cs) (10 ^ 9) (digit_range c digit).0 (rw pow-suc at b) in
    let (m, reads, small) = parse_uint_digits (n * 10 + (c - b'0')) cs (ground arith) room in
    let below = small_factor _ (10 ^ length cs) _ (one-le-pow (length cs) 10 (omega arith)) room in
    (m, ground arith, small)

-- A part that `valid` takes is read with no error, as a number below a thousand million.
good_part_component :
    (p : Text) → good_part p ≡ true → (m : ℕ) × (atoi p ≡ (pos m, false)) × (m < 10 ^ 9)
unfolding good_part atoi ◌=ᵗ◌
good_part_component [] h = ground arith
good_part_component (c ∷ cs) h =
    let digits : all is_digit (c ∷ cs) ≡ true = ground arith in
    let short : length (c ∷ cs) ≤ 9 = ground arith in
    let room : (0 + 1) * 10 ^ length (c ∷ cs) ≤ 10 ^ 9 =
      omega (arith, pow-le-pow_right {n = 10} (omega arith) short) in
    let (m, reads, small) = parse_uint_digits 0 (c ∷ cs) digits room in
    (m, ground (arith, digit_range c), small)

-- strings.Split, by strings.Cut.
split_on-cut :
    (sep : ℕ) (s : Text)
    → split_on sep s ≡ (
        let (part, rest, found) = cut sep s in
        if found then part ∷ split_on sep rest else part ∷ [])
unfolding split_on cut
split_on-cut sep [] = refl
split_on-cut sep (c ∷ cs) = ground (arith, split_on-cut sep cs)

cut_not_found : (sep : ℕ) (s : Text) → (cut sep s).2 ≡ false → (cut sep s).0 ≡ s
unfolding cut
cut_not_found sep [] h = refl
cut_not_found sep (c ∷ cs) h = ground (arith, cut_not_found sep cs)

split_on-pos : (sep : ℕ) (s : Text) → 0 < length (split_on sep s)
split_on-pos sep s = ground (arith, split_on-cut sep s)

-- With three parts, SplitN(s, sep, 3) is Split(s, sep).
split_n-three :
    (sep : ℕ) (s : Text) → length (split_on sep s) ≡ 3 → split_n sep 3 s ≡ split_on sep s
unfolding split_n
split_n-three sep s h =
    let rest = (cut sep s).1 in
    let rest' = (cut sep rest).1 in
    ground (
      arith,
      split_on-cut sep s,
      split_on-cut sep rest,
      split_on-cut sep rest',
      cut_not_found sep rest',
      split_on-pos sep (cut sep rest').1,
    )

fill_good :
    (ps : List Text) (pre : Text)
    → length ps ≡ 3
    → all good_part ps ≡ true
    → (a b c : ℕ) × ((fill ps pre).major ≡ pos a)
      × ((fill ps pre).minor ≡ pos b)
      × ((fill ps pre).patch ≡ pos c)
      × (a < 10 ^ 9)
      × (b < 10 ^ 9)
      × (c < 10 ^ 9)
fill_good [] pre l g = absurd (omega arith)
fill_good (p ∷ []) pre l g = absurd (omega arith)
fill_good (p ∷ q ∷ []) pre l g = absurd (omega arith)
fill_good (p ∷ q ∷ r ∷ s ∷ rest) pre l g = absurd (omega arith)
fill_good (p ∷ q ∷ r ∷ []) pre l g =
    let (a, ea, sa) = good_part_component p (ground arith) in
    let (b, eb, sb) = good_part_component q (ground arith) in
    let (c, ec, sc) = good_part_component r (ground arith) in
    (a, b, c, ap (λ t. t.0) ea, ap (λ t. t.0) eb, ap (λ t. t.0) ec, sa, sb, sc)

-- Every version that `valid` takes is read by `split` as three numbers below a thousand million, each
-- with no error of Atoi.
pub split-valid :
    (v : Text)
    → valid v ≡ true
    → (a b c : ℕ) × ((split v).major ≡ pos a)
      × ((split v).minor ≡ pos b)
      × ((split v).patch ≡ pos c)
      × (a < 10 ^ 9)
      × (b < 10 ^ 9)
      × (c < 10 ^ 9)
unfolding valid split
split-valid v h =
    let base = (cut b'-' (cut b'+' (trim_prefix b'v' v)).0).0 in
    let three : length (split_on b'.' base) ≡ 3 = ground arith in
    let good : all good_part (split_on b'.' base) ≡ true = ground arith in
    rw (split_n-three b'.' base three) (fill_good (split_on b'.' base) _ three good)
