-- ===== src/Agent/Coordinate/Armed.antt =====
-- A boot from the network stays armed only for a restart that was accepted.
use fog_agent.Prelude.{
  ℕ, ◌≡◌, ◌⊎◌, inl, inr, Bool, Bool-cases, ◌&&◌, true, false, not, ◌||◌, [], ◌∷◌, Option,
  Option-cases, none, some, arith,
}
use fog_agent.Reboot.{Decision, decide}
use fog_agent.Netboot.{BootOption}
use fog_agent.Agent.World.{
  applied, saved, told, ran, updated, acted, settled, reported, claimed, armed, disarmed, asked,
  Log, Agent, note,
}
use fog_agent.Agent.Coordinate.{
  Platform, Failure, unclaimed, Plan, plan_for, ask, arm_and_ask, committed, commit, detail_of,
  entry_for, pending_of, act_on, coordinate,
}
use fog_agent.Agent.Coordinate.Refused.{is_going_down}

-- A boot from the network stands in the firmware.
abbrev pub is_armed : Log → Bool
is_armed [] = false
is_armed (armed n ∷ log) = true
is_armed (disarmed ∷ log) = false
is_armed (saved c ∷ log) = is_armed log
is_armed (told r o ∷ log) = is_armed log
is_armed (ran n ∷ log) = is_armed log
is_armed (updated c ∷ log) = is_armed log
is_armed (acted x ∷ log) = is_armed log
is_armed (settled ∷ log) = is_armed log
is_armed (reported s d ∷ log) = is_armed log
is_armed (claimed b ∷ log) = is_armed log
is_armed (asked m d b ∷ log) = is_armed log

abbrev is_some : Option BootOption → Bool
is_some none = false
is_some (some o) = true

-- Disarming does not fail.
abbrev pub CanDisarm : Platform → Type 0
CanDisarm p = (log : Log) → p.can_disarm log ≡ true

-- Putting back the claim of the marker failed.
abbrev pub is_unclaimed : Option Failure → Bool
is_unclaimed (some unclaimed) = true
is_unclaimed o = false

unclaimed_is : (o : Option Failure) → is_unclaimed o ≡ true → o ≡ some unclaimed
unclaimed_is o h = ground arith

module _ (p : Platform) where
  ask-is_armed :
      (plan : Plan) (d : Decision) (entry : Option BootOption) (c : Bool) (a : Agent)
      → CanDisarm p
      → (not (is_armed a.log) || is_some entry) ≡ true
      → let r = ask p plan d entry c a in
        (is_going_down r.0.log || not (is_armed r.0.log) || c && is_unclaimed r.1) ≡ true
  unfolding ask
  ask-is_armed plan d entry c a can h =
      let log = asked d.mode d.delay false ∷ a.log in
      ground (arith, can log, can (claimed false ∷ log))

  arm-is_armed :
      (plan : Plan) (d : Decision) (entry : Option BootOption) (c : Bool) (a : Agent)
      → CanDisarm p
      → is_armed a.log ≡ false
      → let r = arm_and_ask p plan d entry c a in
        (is_going_down r.0.log || not (is_armed r.0.log) || c && is_unclaimed r.1) ≡ true
  unfolding arm_and_ask
  arm-is_armed plan d none c a can h = ask-is_armed plan d none c a can (ground arith)
  arm-is_armed plan d (some o) c a can h =
      ground (arith, ask-is_armed plan d (some o) c (note a (armed o.number)) can)

  commit-is_armed :
      (plan : Plan) (d : Decision) (entry : Option BootOption) (c : Bool) (a : Agent)
      → CanDisarm p
      → is_armed a.log ≡ false
      → let r = commit p plan d entry c a in
        (is_going_down r.0.log || not (is_armed r.0.log) || c && is_unclaimed r.1) ≡ true
  unfolding commit
  commit-is_armed plan d entry c a can h =
      let b = committed p plan a.config in
      ground (arith, arm-is_armed plan d entry c (record { config = b; log = saved b ∷ a.log }) can)

  act_on-is_armed :
      (plan : Plan) (n : ℕ) (entry : Option BootOption) (a : Agent)
      → CanDisarm p
      → is_armed a.log ≡ false
      → let r = act_on p plan n entry a in
        (is_going_down r.0.log || not (is_armed r.0.log) || p.windows && is_unclaimed r.1) ≡ true
  unfolding act_on
  act_on-is_armed plan n entry a can h =
      let d = decide plan.act n (record { grace = a.config.reboot_grace }) in
      let a1 = note a (reported applied (detail_of p plan d)) in
      ground (
        arith,
        commit-is_armed plan d entry false a1 can,
        commit-is_armed plan d entry true (note a1 (claimed true)) can,
      )

  coordinate-is_armed :
      (a : Agent)
      → CanDisarm p
      → is_armed a.log ≡ false
      → let r = coordinate p a in
        (is_going_down r.0.log || not (is_armed r.0.log) || p.windows && is_unclaimed r.1) ≡ true
  unfolding coordinate
  coordinate-is_armed a can h = elim (Option-cases p.users) [
    | inl e ↦ ground arith
    | inr (n, e) ↦ ground (
      arith,
      act_on-is_armed (plan_for p a.config) n (entry_for p (pending_of p a.config)) a can h,
    )
  ]

  -- Where disarming does not fail and no boot from the network was armed before, a turn that ends
  -- without an accepted request leaves none armed, except on Windows where the turn ends with the
  -- error that the claim of the marker could not be made or put back.
  pub coordinate_disarms :
      (a : Agent)
      → CanDisarm p
      → is_armed a.log ≡ false
      → is_going_down (coordinate p a).0.log ≡ false
      → (is_armed (coordinate p a).0.log ≡ false)
        ⊎ ((p.windows ≡ true) × ((coordinate p a).1 ≡ some unclaimed))
  coordinate_disarms a can h g = elim (Bool-cases (is_armed (coordinate p a).0.log)) [
    | inr q ↦ inl q
    | inl q ↦ inr (
      ground (arith, coordinate-is_armed a can h),
      unclaimed_is _ (ground (arith, coordinate-is_armed a can h)),
    )
  ]
