-- ===== src/AutoLogout/Window.antt =====
-- What `plan` does with each session.
use fog_agent.Prelude.{
  ◌≡◌, refl, Bool, true, false, not, ◌&&◌, ◌||◌, List, [], ◌∷◌, ◌++◌, if◌then◌else◌, any, Text,
  ◌=ᵗ◌, text_eq_iff, arith,
}
use fog_agent.Prelude.Int.{ℤ}
use fog_agent.AutoLogout.{
  Policy, Idle, warn, logoff, Action, KeySet, Progress, logoff_action, warn_action, is_over,
  is_near, visit, visit_all, begin, insert_action, sort_actions, limit_of, warn_of, message_of,
  enabled, sample, plan,
}

-- The sessions of one key.
abbrev pub has_key : Text → Idle → Bool
has_key k s = s.key =ᵗ k

-- The session is in the warning window, and not past the limit.
abbrev pub in_window : ℤ → ℤ → Idle → Bool
in_window limit warn' s = not (is_over limit s) && is_near limit warn' s

-- No key stands twice in the list.
abbrev pub Distinct : List Idle → Type 0
Distinct [] = Unit {0}
Distinct (s ∷ rest) = (any (has_key s.key) rest ≡ false) × Distinct rest

abbrev pub is_warn : Action → Bool
is_warn a = elim a.kind [ warn ↦ true | logoff ↦ false ]

abbrev pub warns : Text → Action → Bool
warns k a = is_warn a && a.key =ᵗ k

abbrev pub logs_off : Text → Action → Bool
logs_off k a = not (is_warn a) && a.key =ᵗ k

any-snoc :
    (p : Action → Bool) (xs : List Action) (a : Action) → any p (xs ++ a ∷ []) ≡ (any p xs || p a)
any-snoc p [] a = ground arith
any-snoc p (x ∷ xs) a = ground (arith, any-snoc p xs a)

any-insert :
    (p : Action → Bool) (a : Action) (as' : List Action)
    → any p (insert_action a as') ≡ (p a || any p as')
unfolding insert_action
any-insert p a [] = refl
any-insert p a (b ∷ bs) = ground (arith, any-insert p a bs)

any-sort : (p : Action → Bool) (as' : List Action) → any p (sort_actions as') ≡ any p as'
unfolding sort_actions
any-sort p [] = refl
any-sort p (a ∷ as') = ground (arith, any-insert p a (sort_actions as'), any-sort p as')

module _ (limit warn' : ℤ) (msg : Text) (k : Text) where
  visit_all-live :
      (g : Progress) (idle : List Idle)
      → (visit_all limit warn' msg g idle).live k ≡ (g.live k || any (has_key k) idle)
  unfolding visit_all visit
  visit_all-live g [] = ground arith
  visit_all-live g (s ∷ rest) = ground (arith, visit_all-live (visit limit warn' msg g s) rest)

  visit-warned :
      (g : Progress) (s : Idle)
      → (visit limit warn' msg g s).warned k
        ≡ (if has_key k s then in_window limit warn' s else g.warned k)
  unfolding visit
  visit-warned g s = ground (arith, text_eq_iff s.key k)

  visit-logs_off :
      (g : Progress) (s : Idle)
      → any (logs_off k) (visit limit warn' msg g s).out
        ≡ (any (logs_off k) g.out || (has_key k s && is_over limit s))
  unfolding visit
  visit-logs_off g s = ground (
    arith,
    any-snoc (logs_off k) g.out (logoff_action s),
    any-snoc (logs_off k) g.out (warn_action limit msg s),
  )

  visit-warns :
      (g : Progress) (s : Idle)
      → any (warns k) (visit limit warn' msg g s).out
        ≡ (any (warns k) g.out || (has_key k s && in_window limit warn' s && not (g.warned k)))
  unfolding visit
  visit-warns g s = ground (
    arith,
    any-snoc (warns k) g.out (logoff_action s),
    any-snoc (warns k) g.out (warn_action limit msg s),
    text_eq_iff s.key k,
  )

  visit_all-logs_off :
      (g : Progress) (idle : List Idle)
      → any (logs_off k) (visit_all limit warn' msg g idle).out
        ≡ (any (logs_off k) g.out || any (λ s. has_key k s && is_over limit s) idle)
  unfolding visit_all
  visit_all-logs_off g [] = ground arith
  visit_all-logs_off g (s ∷ rest) =
      ground (arith, visit-logs_off g s, visit_all-logs_off (visit limit warn' msg g s) rest)

  absent :
      (s : Idle) (rest : List Idle)
      → (s.key =ᵗ k) ≡ true
      → any (has_key s.key) rest ≡ false
      → (any (has_key k) rest ≡ false)
        × (any (λ s. has_key k s && in_window limit warn' s) rest ≡ false)
  absent s [] e h = ground arith
  absent s (t ∷ rest) e h =
      ground
        (arith, absent s rest, text_eq_iff s.key k, text_eq_iff t.key k, text_eq_iff t.key s.key)

  visit_all-warned :
      (g : Progress) (idle : List Idle)
      → Distinct idle
      → (visit_all limit warn' msg g idle).warned k ≡ (
          if any (has_key k) idle
          then any (λ s. has_key k s && in_window limit warn' s) idle
          else g.warned k)
  unfolding visit_all
  visit_all-warned g [] d = refl
  visit_all-warned g (s ∷ rest) d =
      ground
        (arith, visit-warned g s, visit_all-warned (visit limit warn' msg g s) rest, absent s rest)

  visit_all-warns :
      (g : Progress) (idle : List Idle)
      → Distinct idle
      → any (warns k) (visit_all limit warn' msg g idle).out ≡ (
          any (warns k) g.out
          || (any (λ s. has_key k s && in_window limit warn' s) idle && not (g.warned k)))
  unfolding visit_all
  visit_all-warns g [] d = ground arith
  visit_all-warns g (s ∷ rest) d = ground (
    arith,
    visit-warned g s,
    visit-warns g s,
    visit_all-warns (visit limit warn' msg g s) rest,
    absent s rest,
  )

window_of_none :
    (limit warn' : ℤ) (k : Text) (idle : List Idle)
    → any (has_key k) idle ≡ false
    → any (λ s. has_key k s && in_window limit warn' s) idle ≡ false
window_of_none limit warn' k [] h = refl
window_of_none limit warn' k (s ∷ rest) h = ground (arith, window_of_none limit warn' k rest)

-- With the policy enabled, a key is logged off exactly if one of its sessions has been idle for the
-- limit.
pub plan-logs_off :
    (p : Policy) (idle : List Idle) (warned : KeySet) (k : Text)
    → enabled p ≡ true
    → any (logs_off k) (plan p idle warned).0
      ≡ any (λ s. has_key k s && is_over (limit_of p) s) idle
unfolding plan sample
plan-logs_off p idle warned k on = ground (
  arith,
  any-sort (logs_off k) (sample p idle warned).out,
  visit_all-logs_off (limit_of p) (warn_of p) (message_of p) k (begin warned) idle,
)

-- With the policy enabled and no key listed twice, a key is warned exactly if its session is in the
-- warning window and was not warned before.
pub plan-warns :
    (p : Policy) (idle : List Idle) (warned : KeySet) (k : Text)
    → enabled p ≡ true
    → Distinct idle
    → any (warns k) (plan p idle warned).0
      ≡ (any (λ s. has_key k s && in_window (limit_of p) (warn_of p) s) idle && not (warned k))
unfolding plan sample
plan-warns p idle warned k on d = ground (
  arith,
  any-sort (warns k) (sample p idle warned).out,
  visit_all-warns (limit_of p) (warn_of p) (message_of p) k (begin warned) idle d,
)

-- After a sample with the policy enabled and no key listed twice, the keys that count as warned are
-- exactly those with a session in the warning window, whatever was recorded before.
pub plan_warned :
    (p : Policy) (idle : List Idle) (warned : KeySet) (k : Text)
    → enabled p ≡ true
    → Distinct idle
    → (plan p idle warned).1 k ≡ any (λ s. has_key k s && in_window (limit_of p) (warn_of p) s) idle
unfolding plan sample
plan_warned p idle warned k on d = ground (
  arith,
  visit_all-warned (limit_of p) (warn_of p) (message_of p) k (begin warned) idle d,
  visit_all-live (limit_of p) (warn_of p) (message_of p) k (begin warned) idle,
  window_of_none (limit_of p) (warn_of p) k idle,
)
