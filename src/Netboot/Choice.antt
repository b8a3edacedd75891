-- ===== src/Netboot/Choice.antt =====
-- Which entry `choose` and `find` pick.
use mathlib.Core.Path.{ap₂}
use fog_agent.Prelude.{
  ℕ, ◌%◌, ◌≡◌, refl, ◌∙◌, inl, inr, Bool, Bool-cases, true, false, ◌&&◌, List, [], ◌∷◌, Option,
  none, some, Option-cases, ◌==◌, any, length, if◌then◌else◌, Text, arith,
}
use fog_agent.Netboot.{
  BootOption, LoadOption, Options, is_candidate, is_ipv4, boot_option, choose, choose_from,
  Variable, FirmwareError, Answer, ok, err, find, no_option, odd_order, boot_order, read_order,
  options_of,
}

-- The first number of the order that passes the test.
abbrev pub first : (ℕ → Bool) → List ℕ → Option ℕ
first p [] = none
first p (n ∷ ns) = if p n then some n else first p ns

abbrev pub is_network : Options → ℕ → Bool
is_network opts n = is_candidate (opts n)

abbrev pub is_network_ipv4 : Options → ℕ → Bool
is_network_ipv4 opts n = is_candidate (opts n) && is_ipv4 (opts n)

-- The entry of a number, if there is one.
abbrev pub entry_at : Options → ℕ → Option BootOption
entry_at opts n = elim (opts n) [ none ↦ none | some lo ↦ some (boot_option n lo) ]

abbrev pub entry_of : Options → Option ℕ → Option BootOption
entry_of opts none = none
entry_of opts (some n) = entry_at opts n

-- The first of the answers that there is.
abbrev pub or_then : Option BootOption → Option BootOption → Option BootOption
or_then (some o) later = some o
or_then none later = later

choose_from_lem :
    (fallback : Option BootOption) (order : List ℕ) (opts : Options)
    → choose_from fallback order opts
      ≡ or_then
          (entry_of opts (first (is_network_ipv4 opts) order))
          (or_then fallback (entry_of opts (first (is_network opts) order)))
unfolding choose_from
choose_from_lem none [] opts = refl
choose_from_lem (some o) [] opts = refl
choose_from_lem fallback (n ∷ order) opts = elim (Option-cases (opts n)) [
  | inl e ↦ ground (arith, choose_from_lem fallback order opts)
  | inr (lo, e) ↦ ground (
    arith,
    choose_from_lem fallback order opts,
    choose_from_lem (some (boot_option n lo)) order opts,
  )
]

-- `choose` takes the first active network entry on IPv4 in the boot order, and with none of those the
-- first active network entry.
pub choose_lem :
    (order : List ℕ) (opts : Options)
    → choose order opts
      ≡ or_then
          (entry_of opts (first (is_network_ipv4 opts) order))
          (entry_of opts (first (is_network opts) order))
unfolding choose
choose_lem order opts = choose_from_lem none order opts

ipv4_is_network :
    (o : Option LoadOption) → (is_candidate o && is_ipv4 o) ≡ true → is_candidate o ≡ true
ipv4_is_network o h = ground arith

first-none :
    (p : ℕ → Bool) (q : ℕ → Bool) (ns : List ℕ)
    → ((n : ℕ) → p n ≡ true → q n ≡ true)
    → any q ns ≡ false
    → (first p ns ≡ none) × (first q ns ≡ none)
first-none p q [] h e = (refl, refl)
first-none p q (n ∷ ns) h e =
    let (a, b) = first-none p q ns h (ground arith) in
    elim (Bool-cases (p n)) [
      | inl t ↦ absurd (ground (arith, h n))
      | inr t ↦ (ground arith, ground arith)
    ]

-- `find` fails as the firmware does where the boot order cannot be read, refuses a boot order of an odd
-- number of bytes, and says that there is no option where no entry of the order is an active network
-- entry that can be read; else it answers with the choice of `choose`.
pub find_errors :
    (read_var : Variable → Answer Text)
    → ((e : FirmwareError) → read_var boot_order ≡ err e → find read_var ≡ err e)
      × ((raw : Text)
          → read_var boot_order ≡ ok raw
          → (length raw % 2 == 0) ≡ false
          → find read_var ≡ err odd_order)
      × ((raw : Text)
          → let opts = options_of read_var (read_order raw) in
            read_var boot_order ≡ ok raw
            → (length raw % 2 == 0) ≡ true
            → any (is_network opts) (read_order raw) ≡ false
            → find read_var ≡ err no_option)
unfolding find
find_errors read_var = (
  λ e h. ground arith,
  λ raw h odd. ground arith,
  λ raw h even none'.
      let opts = options_of read_var (read_order raw) in
      let both =
        first-none (is_network_ipv4 opts) (is_network opts) (read_order raw)
          (λ n. ipv4_is_network (opts n)) none' in
      let nothing : choose (read_order raw) opts ≡ none =
        choose_lem (read_order raw) opts
        ∙ ap₂ (λ a b. or_then (entry_of opts a) (entry_of opts b)) both.0 both.1 in
      ground arith,
)

-- Where the boot order can be read and has an even number of bytes, and no entry of it is an active
-- network entry that can be read, `find` says that there is no option.
pub find_no_option :
    (read_var : Variable → Answer Text) (raw : Text)
    → read_var boot_order ≡ ok raw
    → (length raw % 2 == 0) ≡ true
    → any (is_network (options_of read_var (read_order raw))) (read_order raw) ≡ false
    → find read_var ≡ err no_option
find_no_option read_var raw h even none' = (find_errors read_var).2 raw h even none'
