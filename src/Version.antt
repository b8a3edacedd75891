-- ===== src/Version.antt =====
-- internal/provider/update/version.go: what a version is, and how two are ordered.
pub mod Order
pub mod Grammar
use fog_agent.Prelude.{
  ℕ, ◌≡◌, Bool, true, false, not, ◌&&◌, List, [], ◌∷◌, leb, ◌==◌, if◌then◌else◌, length, all, Text,
  ◌=ᵗ◌, ◌<ᵗ◌, cut, split_on, split_n, trim_prefix, is_digit, atoi,
}
use fog_agent.Prelude.Int.{ℤ, pos, negsuc, ltb_ℤ, ◌=ℤ◌}

-- The three numbers and the pre-release tag.
pub record Parts : Type 0 where
  pub major : ℤ
  pub minor : ℤ
  pub patch : ℤ
  pub pre : Text

-- n[i], _ = strconv.Atoi(p) over the parts there are; the array starts as zeros.
abbrev pub component : Text → ℤ
component p = (atoi p).0

abbrev pub fill : List Text → Text → Parts
fill [] pre = record { major = pos 0; minor = pos 0; patch = pos 0; pre = pre }
fill (a ∷ []) pre = record { major = component a; minor = pos 0; patch = pos 0; pre = pre }
fill (a ∷ b ∷ []) pre = record {
  major = component a;
  minor = component b;
  patch = pos 0;
  pre = pre;
}
fill (a ∷ b ∷ c ∷ rest) pre = record {
  major = component a;
  minor = component b;
  patch = component c;
  pre = pre;
}

unfoldable pub split : Text → Parts
split v =
    let (v', build, had_build) = cut b'+' (trim_prefix b'v' v) in
    let (base, pre, had_pre) = cut b'-' v' in fill (split_n b'.' 3 base) pre

-- The loop over the three numbers, one round with what comes after it.
abbrev pub compare_at : ℤ → ℤ → ℤ → ℤ
compare_at x y later = if not (x =ℤ y) then (if ltb_ℤ x y then negsuc 0 else pos 1) else later

abbrev pub compare_pre : Text → Text → ℤ
compare_pre a b =
    if a =ᵗ b
    then pos 0
    else if a =ᵗ []
    then pos 1
    else if b =ᵗ []
    then negsuc 0
    else if a <ᵗ b
    then negsuc 0
    else pos 1

unfoldable pub compare_parts : Parts → Parts → ℤ
compare_parts a b =
    compare_at a.major b.major
      (compare_at a.minor b.minor (compare_at a.patch b.patch (compare_pre a.pre b.pre)))

-- Compare
unfoldable pub compare : Text → Text → ℤ
unfolding compare_parts
compare a b = compare_parts (split a) (split b)

-- p == "" || len(p) > 9, and the bytes of p
unfoldable pub good_part : Text → Bool
good_part p = not (p =ᵗ []) && leb (length p) 9 && all is_digit p

-- Valid
unfoldable pub valid : Text → Bool
unfolding good_part
valid v =
    let v' = trim_prefix b'v' v in
    let (base, build, had_build) = cut b'+' v' in
    let (base', pre, had_pre) = cut b'-' base in
    let parts = split_on b'.' base' in
    if v' =ᵗ []
    then false
    else if had_pre && pre =ᵗ []
    then false
    else if not (length parts == 3)
    then false
    else all good_part parts
