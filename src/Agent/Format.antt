-- ===== src/Agent/Format.antt =====
-- What fmt prints for %d, and the spans of time that the agent compares.
pub mod Elapsed
use fog_agent.Prelude.{
  ℕ, zero, suc, ◌+◌, ◌-◌, ◌/◌, ◌%◌, ◌^◌, List, [], ◌∷◌, ◌++◌, ltb, leb, if◌then◌else◌, Text, text,
  Time, Bool,
}
use fog_agent.Prelude.Int.{ℤ, pos, negsuc, leb_ℤ}

-- The digits of a number; the second argument bounds their count.
unfoldable pub digits : ℕ → ℕ → Text
digits n zero = []
digits n (suc fuel) =
    let front = digits (n / 10) fuel in
    if ltb n 10 then (48 + n) ∷ [] else front ++ (48 + n % 10) ∷ []

-- 20 digits hold every 64-bit number.
unfoldable pub decimal : ℤ → Text
unfolding digits
decimal (pos n) = digits n 20
decimal (negsuc n) = text "-" ++ digits (suc n) 20

-- Time.Sub, which stops at the ends of 64 bits.
unfoldable pub sub_time : Time → Time → ℤ
sub_time t u =
    let most = 2 ^ 63 - 1 in
    if leb u t
    then (if leb (t - u) most then pos (t - u) else pos most)
    else (if leb (u - t - 1) most then negsuc (u - t - 1) else negsuc most)

-- An hour.
unfoldable pub facts_interval : ℤ
facts_interval = pos 3600000000000

abbrev pub has_elapsed : Time → Time → ℤ → Bool
has_elapsed t since span = leb_ℤ span (sub_time t since)
