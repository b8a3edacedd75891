-- ===== src/Reboot/Decide.antt =====
-- What `decide` decides, without its loop.
use fog_agent.Prelude.{
  ℕ, ◌≡◌, refl, Bool, true, false, ◌||◌, List, [], ◌∷◌, ◌==◌, if◌then◌else◌, any, all, ◌=ᵗ◌, arith,
}
use fog_agent.Prelude.Int.{pos, wrap64, ◌*ℤ◌}
use fog_agent.Reboot.{
  Reason, Policy, Tally, tally, tally_one, start, decide, mode_reboot, mode_shutdown,
  nanos_per_second,
}

abbrev pub wants_shutdown : Reason → Bool
wants_shutdown r = r.mode =ᵗ mode_shutdown

abbrev pub is_forced : Reason → Bool
is_forced r = r.force

tally_allowed :
    (n : ℕ) (t : Tally) (rs : List Reason)
    → (tally n t rs).allowed ≡ (t.allowed || any (λ r. n == 0 || r.force) rs)
unfolding tally
tally_allowed n t [] = ground arith
tally_allowed n t (r ∷ rs) = ground (arith, tally_allowed n (tally_one n t r) rs)

any_allowed :
    (n : ℕ) (r : Reason) (rs : List Reason)
    → any (λ r. n == 0 || r.force) (r ∷ rs) ≡ (n == 0 || any is_forced (r ∷ rs))
any_allowed n r [] = ground arith
any_allowed n r (r' ∷ rs) = ground (arith, any_allowed n r' rs)

tally_mode :
    (n : ℕ) (t : Tally) (rs : List Reason)
    → (tally n t rs).mode ≡ (if all wants_shutdown rs then t.mode else mode_reboot)
unfolding tally
tally_mode n t [] = refl
tally_mode n t (r ∷ rs) = ground (arith, tally_mode n (tally_one n t r) rs)

-- The coordinator acts exactly if there is a reason and either nobody is logged in or some
-- reason is forced.
pub decide_reboot :
    (r : Reason) (rs : List Reason) (n : ℕ) (p : Policy)
    → ((decide [] n p).reboot ≡ false)
      × ((decide (r ∷ rs) n p).reboot ≡ (n == 0 || any is_forced (r ∷ rs)))
unfolding decide
decide_reboot r rs n p = (refl, ground (arith, tally_allowed n start (r ∷ rs), any_allowed n r rs))

-- When it acts it shuts down only if every reason asked for that, and reboots otherwise; the delay
-- is 0 with nobody logged in and the grace period otherwise.
pub decide_action :
    (rs : List Reason) (n : ℕ) (p : Policy)
    → (decide rs n p).reboot ≡ true
    → ((decide rs n p).mode ≡ (if all wants_shutdown rs then mode_shutdown else mode_reboot))
      × ((decide rs n p).delay ≡ (if n == 0 then pos 0 else wrap64 (p.grace *ℤ nanos_per_second)))
unfolding decide
decide_action [] n p h = ground arith
decide_action (r ∷ rs) n p h = (ground (arith, tally_mode n start (r ∷ rs)), ground arith)
