-- ===== src/Version/Order.antt =====
-- `compare` is a total preorder whose equivalence is "reads the same".
use fog_agent.Prelude.{
  ◌+◌, ◌≡◌, ap, ◌∙◌, ◌↔◌, [], Text, text_trichotomy, text_lt_trans, text_eq_iff, arith,
}
use fog_agent.Prelude.Int.{ℤ, pos, pos_part, neg_part, ◌≤ℤ◌, ◌-ℤ◌}
use fog_agent.Version.{Parts, split, compare, compare_parts, compare_at, compare_pre}

compare_pre_opposite : (a b : Text) → compare_pre b a ≡ pos 0 -ℤ compare_pre a b
unfolding ◌-ℤ◌
compare_pre_opposite a b = ground (
  arith,
  text_trichotomy a b,
  text_eq_iff a b,
  text_eq_iff b a,
  text_eq_iff a [],
  text_eq_iff b [],
)

compare_pre_trans :
    (a b c : Text) → compare_pre a b ≤ℤ pos 0 → compare_pre b c ≤ℤ pos 0 → compare_pre a c ≤ℤ pos 0
compare_pre_trans a b c h k = ground (
  arith,
  text_eq_iff a b,
  text_eq_iff b c,
  text_eq_iff a c,
  text_eq_iff a [],
  text_eq_iff b [],
  text_eq_iff c [],
  text_lt_trans a b c,
)

compare_at_trans :
    (x y z later later' later'' : ℤ)
    → (later ≤ℤ pos 0 → later' ≤ℤ pos 0 → later'' ≤ℤ pos 0)
    → compare_at x y later ≤ℤ pos 0
    → compare_at y z later' ≤ℤ pos 0
    → compare_at x z later'' ≤ℤ pos 0
compare_at_trans x y z later later' later'' step h k = ground arith

compare_parts_trans :
    (a b c : Parts)
    → compare_parts a b ≤ℤ pos 0
    → compare_parts b c ≤ℤ pos 0
    → compare_parts a c ≤ℤ pos 0
unfolding compare_parts
compare_parts_trans a b c = compare_at_trans a.major b.major c.major _ _ _ (
    compare_at_trans a.minor b.minor c.minor _ _ _
      (compare_at_trans a.patch b.patch c.patch _ _ _ (compare_pre_trans a.pre b.pre c.pre)))

-- Swapping the versions swaps the sign of the answer.
pub compare_opposite : (a b : Text) → compare b a ≡ pos 0 -ℤ compare a b
unfolding compare ◌-ℤ◌
compare_opposite a b = ground (arith, compare_pre_opposite (split a).pre (split b).pre)

-- "Not newer than" is transitive.
pub compare_trans :
    (a b c : Text) → compare a b ≤ℤ pos 0 → compare b c ≤ℤ pos 0 → compare a c ≤ℤ pos 0
unfolding compare
compare_trans a b c = compare_parts_trans (split a) (split b) (split c)

same_number : (x y : ℤ) → pos_part x + neg_part y ≡ pos_part y + neg_part x → x ≡ y
same_number x y h = ground arith

compare_parts_zero : (a b : Parts) → compare_parts a b ≡ pos 0 → a ≡ b
unfolding compare_parts
compare_parts_zero a b h = ground (
  arith,
  text_eq_iff a.pre b.pre,
  same_number a.major b.major,
  same_number a.minor b.minor,
  same_number a.patch b.patch,
)

compare_parts_refl : (a : Parts) → compare_parts a a ≡ pos 0
unfolding compare_parts
compare_parts_refl a = ground (arith, text_eq_iff a.pre a.pre)

-- The answer is 0 exactly for versions that read as the same numbers and the same tag.
pub compare_zero_iff : (a b : Text) → (compare a b ≡ pos 0) ↔ (split a ≡ split b)
unfolding compare
compare_zero_iff a b = (
  compare_parts_zero (split a) (split b),
  λ e. ap (λ p. compare_parts p (split b)) e ∙ compare_parts_refl (split b),
)
