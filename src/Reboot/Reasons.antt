-- ===== src/Reboot/Reasons.antt =====
-- The list of outstanding reasons as a map from sources.
use fog_agent.Prelude.{
  ℕ, suc, ◌+◌, ◌≡◌, List, [], ◌∷◌, ◌++◌, Option, none, some, ◌==◌, if◌then◌else◌, Text, ◌=ᵗ◌,
  text_eq_iff, Time, arith,
}
use fog_agent.Reboot.{Reason, drop_source, merge}

-- The first reason of a source, and how many there are.
abbrev pub pending : Text → List Reason → Option Reason
pending s [] = none
pending s (x ∷ xs) = if x.source =ᵗ s then some x else pending s xs

abbrev pub count : Text → List Reason → ℕ
count s [] = 0
count s (x ∷ xs) = if x.source =ᵗ s then suc (count s xs) else count s xs

pending-drop :
    (s t : Text) (rs : List Reason)
    → (pending s (drop_source rs t) ≡ (if t =ᵗ s then none else pending s rs))
      × (count s (drop_source rs t) ≡ (if t =ᵗ s then 0 else count s rs))
unfolding drop_source
pending-drop s t [] = ground arith
pending-drop s t (x ∷ xs) =
    ground
      (arith, pending-drop s t xs, text_eq_iff x.source t, text_eq_iff x.source s, text_eq_iff t s)

pending-append :
    (s : Text) (rs : List Reason) (r : Reason)
    → (pending s (rs ++ r ∷ [])
        ≡ elim (pending s rs) [ some x ↦ some x | none ↦ if r.source =ᵗ s then some r else none ])
      × (count s (rs ++ r ∷ []) ≡ count s rs + (if r.source =ᵗ s then 1 else 0))
pending-append s [] r = ground arith
pending-append s (x ∷ xs) r = ground (arith, pending-append s xs r)

-- The reason as it is recorded.
abbrev pub stamped : Reason → Time → Reason
stamped r clock = if r.since == 0 then record r { since = clock } else r

-- After `merge` the source of the reason has that one reason, stamped with the clock if it had no
-- time, and every other source has what it had.
pub pending-merge :
    (s : Text) (rs : List Reason) (r : Reason) (clock : Time)
    → (pending s (merge rs r clock)
        ≡ (if r.source =ᵗ s then some (stamped r clock) else pending s rs))
      × (count s (merge rs r clock) ≡ (if r.source =ᵗ s then 1 else count s rs))
unfolding merge
pending-merge s rs r clock = ground (
  arith,
  pending-drop s r.source rs,
  pending-append s (drop_source rs r.source) r,
  pending-append s (drop_source rs r.source) (record r { since = clock }),
)

-- A withdrawn source has no reason left, and every other source has what it had.
pub pending-drop_source :
    (s t : Text) (rs : List Reason)
    → (pending s (drop_source rs t) ≡ (if t =ᵗ s then none else pending s rs))
      × (count s (drop_source rs t) ≡ (if t =ᵗ s then 0 else count s rs))
pending-drop_source = pending-drop
