-- ===== src/Update/Undo.antt =====
-- An update and its rollback as a whole.
use mathlib.Core.Path.{sym}
use fog_agent.Prelude.{ℕ, ◌≡◌, ◌⊎◌, inl, inr, refl, ◌∙◌, false, none, some, Text, Time, arith}
use fog_agent.Update.Files.{
  exe, exe_prev, exe_bad, config, config_prev, staged, main, Probation, Content, Disk, Failure,
  Faults, statting,
}
use fog_agent.Update.Records.{Loaded, loaded, absent, broken, load_probation, arm, swap, revert}
use fog_agent.Update.Rollback.{arm_other, arm_ok, revert_loaded}
use fog_agent.Update.Swap.{swap-Swapped, swap_other}

Loaded-cases :
    {A : Type 0} (l : Loaded A)
    → (l ≡ absent) ⊎ ((a : A) × (l ≡ loaded a)) ⊎ ((e : Failure) × (l ≡ broken e))
Loaded-cases absent = inl refl
Loaded-cases (loaded a) = inr (inl (a, refl))
Loaded-cases (broken e) = inr (inr (e, refl))

-- Every part of what a revert leaves.
revert_lem :
    (faults : Faults) (d : Disk) (now : Time) (reason : Text)
    → (revert faults d now reason).2 ≡ none
    → ((revert faults d now reason).0 (main exe) ≡ d (main exe_prev))
      × ((revert faults d now reason).0 (main exe_bad) ≡ d (main exe))
      × ((c : Content)
          → d (main config_prev) ≡ some c
          → faults (statting (main config_prev)) ≡ false
          → (revert faults d now reason).0 (main config) ≡ some c)
unfolding revert
revert_lem faults d now reason o = elim (Loaded-cases (load_probation faults d)) [
  | inl e ↦ absurd (ground arith)
  | inr (inl (p, e)) ↦ revert_loaded faults d now reason p e o
  | inr (inr (f, e)) ↦ absurd (ground arith)
]

-- A revert that answers with no error has put the previous binary in place and kept the failed one
-- aside, and the kept configuration, if there is one and the system does not refuse to say so, is the
-- configuration again.
pub revert_ok :
    (faults : Faults) (d : Disk) (now : Time) (reason : Text) (c : Content)
    → (revert faults d now reason).2 ≡ none
    → d (main config_prev) ≡ some c
    → faults (statting (main config_prev)) ≡ false
    → ((revert faults d now reason).0 (main exe) ≡ d (main exe_prev))
      × ((revert faults d now reason).0 (main exe_bad) ≡ d (main exe))
      × ((revert faults d now reason).0 (main config) ≡ some c)
revert_ok faults d now reason c o kept asked =
    let (binary, aside, configuration) = revert_lem faults d now reason o in
    (binary, aside, configuration c kept asked)

-- Where there is a configuration, arming and swapping succeed, and later a revert does while the
-- system does not refuse to say that the kept configuration is there, the binary and the
-- configuration of before the update are back, whichever other calls failed on the way and whatever
-- else the new binary changed, as long as it left the kept binary and the kept configuration alone.
pub update_undone :
    (faults later : Faults) (d d' : Disk) (p : Probation) (n : ℕ) (c : Content) (now : Time)
    (reason : Text)
    → let armed = (arm faults d p).0 in
      let swapped = (swap faults armed (staged n)).0 in
      let undone = revert later d' now reason in
      d (main config) ≡ some c
      → (arm faults d p).1 ≡ none
      → (swap faults armed (staged n)).1 ≡ none
      → d' (main exe_prev) ≡ swapped (main exe_prev)
      → d' (main config_prev) ≡ swapped (main config_prev)
      → later (statting (main config_prev)) ≡ false
      → undone.2 ≡ none
      → (undone.0 (main exe) ≡ d (main exe)) × (undone.0 (main config) ≡ d (main config))
update_undone faults later d d' p n c now reason h a s prev kept asked o =
    let armed = (arm faults d p).0 in
    let (binary, aside, configuration) = revert_lem later d' now reason o in
    let (fresh, old, gone) = (swap-Swapped faults n armed).replaced s in
    let (survives, record_there, kept_there) = arm_ok faults d p c a h in
    (
      binary ∙ prev ∙ old ∙ arm_other faults d p (main exe) refl refl refl refl refl,
      configuration c
            (kept ∙ swap_other faults armed n (main config_prev) refl refl refl ∙ kept_there) asked
          ∙ sym h,
    )
