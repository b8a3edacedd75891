-- ===== src/Agent/Reconcile/Capabilities.antt =====
-- The order in which a reconcile takes the capabilities.
use fog_agent.Prelude.{
  ◌≡◌, refl, inl, inr, Bool, true, false, not, ◌&&◌, ◌||◌, List, [], ◌∷◌, Text, ◌=ᵗ◌, text_eq_iff,
  text_eq_refl, arith, Bool-cases,
}
use fog_agent.Agent.Reconcile.Data.{Desired}
use fog_agent.Agent.Reconcile.{capability_order, cap_directory, mentions, without, is_rename}

mentions-without :
    (want other : Text) (cs : List Text)
    → (other =ᵗ want) ≡ false
    → mentions want (without other cs) ≡ mentions want cs
unfolding without
mentions-without want other [] h = refl
mentions-without want other (c ∷ cs) h =
    ground (arith, mentions-without want other cs h, text_eq_iff c want, text_eq_iff c other)

without_twice : (want : Text) (cs : List Text) → without want (without want cs) ≡ without want cs
unfolding without
without_twice want [] = refl
without_twice want (c ∷ cs) = ground (arith, without_twice want cs)

-- The list begins with it.
abbrev leads : Text → List Text → Bool
leads want [] = false
leads want (c ∷ cs) = c =ᵗ want

-- The order of the capabilities names the ones that the server listed and no other, keeps the order of
-- all but the directory, and puts the directory first for a rename that lists it.
pub capability_order_keeps :
    (trim : Text → Text) (d : Desired)
    → ((want : Text) → mentions want (capability_order trim d) ≡ mentions want d.capabilities)
      × (without cap_directory (capability_order trim d) ≡ without cap_directory d.capabilities)
      × ((not (is_rename trim d && mentions cap_directory d.capabilities)
            || leads cap_directory (capability_order trim d))
          ≡ true)
unfolding capability_order without
capability_order_keeps trim d =
    elim (Bool-cases (is_rename trim d && mentions cap_directory d.capabilities)) [
      | inl e ↦ (
        λ want. elim (Bool-cases (cap_directory =ᵗ want)) [
          | inl w ↦ ground (arith, text_eq_iff cap_directory want)
          | inr w ↦ ground (arith, mentions-without want cap_directory d.capabilities w)
        ],
        ground (arith, without_twice cap_directory d.capabilities, text_eq_refl cap_directory),
        ground (arith, text_eq_refl cap_directory),
      )
      | inr e ↦ (λ want. ground arith, ground arith, ground arith)
    ]
