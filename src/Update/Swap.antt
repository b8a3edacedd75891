-- ===== src/Update/Swap.antt =====
-- What `swap` leaves where the binary stands.
use fog_agent.Prelude.{
  ℕ, ◌≡◌, refl, ◌⊎◌, inl, inr, Bool-cases, Option-cases, Bool, true, false, Option, none, some,
  arith, ==_iff,
}
use mathlib.Core.Path.{subst₂}
use fog_agent.Update.Files.{
  Name, exe, exe_prev, staged, File, main, Content, Disk, Failure, moving_running_aside,
  installing_and_putting_back, renaming, Faults, same_file, remove, rename, rename_at, remove_other,
}
use fog_agent.Update.Records.{swap, install}

-- The error of an installation that could not be taken back.
abbrev pub is_lost : Failure → Bool
is_lost (installing_and_putting_back e r) = true
is_lost e = false

-- How the binaries stand after an installation of `new`, by its answer, where `old` was the binary
-- and `fresh` the staged one. With no error the new one is in place and the old one kept. With an error
-- from which it recovered the old one is in place and the new one still staged. Only where putting it
-- back failed too is nothing in place, and the old one is kept then: if there was one, it was
-- the renaming back that the system refused.
pub record Swapped (faults : Faults) (old fresh : Option Content) (new : Name) (d : Disk)
    (answer : Option Failure) : Type 0 where
  pub replaced :
      answer ≡ none → (d (main exe) ≡ fresh) × (d (main exe_prev) ≡ old) × (d (main new) ≡ none)
  pub recovered :
      (e : Failure)
      → answer ≡ some e
      → is_lost e ≡ false
      → (d (main exe) ≡ old) × (d (main new) ≡ fresh)
  pub lost :
      (e : Failure)
      → answer ≡ some e
      → is_lost e ≡ true
      → (d (main exe) ≡ none) × (d (main exe_prev) ≡ old) × (d (main new) ≡ fresh)
  pub refused_back :
      (e : Failure)
      → answer ≡ some e
      → is_lost e ≡ true
      → (old ≡ none) ⊎ (faults (renaming (main exe_prev) (main exe)) ≡ true)

module _ (faults : Faults) (d : Disk) (n : ℕ) where
  -- With the running binary aside as the previous one.
  -- Renaming a file that is there fails only if the system refuses it.
  rename_refused :
      (e : Failure)
      → (install faults d (staged n)).1 ≡ some e
      → is_lost e ≡ true
      → (d (main exe_prev) ≡ none) ⊎ (faults (renaming (main exe_prev) (main exe)) ≡ true)
  unfolding install rename
  rename_refused e h l = elim (Bool-cases (faults (renaming (main exe_prev) (main exe)))) [
    | inl k ↦ inr k
    | inr k ↦ elim (Option-cases (d (main exe_prev))) [
      | inl g ↦ inl g
      | inr (c, g) ↦ absurd (ground arith)
    ]
  ]

  install-Swapped :
      d (main exe) ≡ none
      → Swapped faults
          (d (main exe_prev))
          (d (main (staged n)))
          (staged n)
          (install faults d (staged n)).0
          (install faults d (staged n)).1
  unfolding install
  install-Swapped empty =
      let new = main (staged n) in
      let d1 = (rename faults d new (main exe)).0 in
      let a = rename_at faults d new (main exe) (main exe) in
      let b = rename_at faults d new (main exe) (main exe_prev) in
      let c = rename_at faults d new (main exe) new in
      let a' = rename_at faults d1 (main exe_prev) (main exe) (main exe) in
      let b' = rename_at faults d1 (main exe_prev) (main exe) (main exe_prev) in
      let c' = rename_at faults d1 (main exe_prev) (main exe) new in
      let same = ==_iff n n in
      record {
        replaced = λ h. ground (arith, a, b, c, same);
        recovered = λ e h l. ground (arith, a, b, c, a', b', c', same);
        lost = λ e h l. ground (arith, a, b, c, a', b', c', same);
        refused_back = rename_refused;
      }

module _ (faults : Faults) (n : ℕ) where
  -- After the first renaming: nothing has moved, or the running binary is aside.
  after_aside :
      (d : Disk) (answer : Option Failure) {old fresh : Option Content}
      → (answer ≡ none
          → (d (main exe) ≡ none) × (d (main exe_prev) ≡ old) × (d (main (staged n)) ≡ fresh))
      → ((e : Failure) → answer ≡ some e → (d (main exe) ≡ old) × (d (main (staged n)) ≡ fresh))
      → let end : Disk × Option Failure = elim answer [
        | some e ↦ (d, some (moving_running_aside e))
        | none ↦ install faults d (staged n)
      ] in
        Swapped faults old fresh (staged n) end.0 end.1
  after_aside d none aside same =
      let (empty, kept, there) = aside refl in
      subst₂
        (λ o f.
          Swapped faults o f (staged n) (install faults d (staged n)).0
            (install faults d (staged n)).1)
        kept there (install-Swapped faults d n empty)
  after_aside d (some e) aside same =
      let (kept, there) = same e refl in
      record {
        replaced = λ h. absurd (cc);
        recovered = λ e' h l. (kept, there);
        lost = λ e' h l. absurd (ground arith);
        refused_back = λ e' h l. absurd (ground arith);
      }

  -- The binaries stand as `Swapped` says of the answer, whichever calls fail.
  pub swap-Swapped :
      (d : Disk)
      → let new = staged n in
        let (d', answer) = swap faults d new in
        Swapped faults (d (main exe)) (d (main new)) new d' answer
  unfolding swap
  swap-Swapped d =
      let d1 = (remove faults d (main exe_prev)).0 in
      let r = remove_other faults d (main exe_prev) (main exe) refl in
      let r' = remove_other faults d (main exe_prev) (main (staged n)) refl in
      let a = rename_at faults d1 (main exe) (main exe_prev) (main exe) in
      let b = rename_at faults d1 (main exe) (main exe_prev) (main exe_prev) in
      let c = rename_at faults d1 (main exe) (main exe_prev) (main (staged n)) in
      after_aside (rename faults d1 (main exe) (main exe_prev)).0
        (rename faults d1 (main exe) (main exe_prev)).1
        (λ h. (ground (arith, a), ground (arith, b, r), ground (arith, c, r')))
        (λ e h. (ground (arith, a, r), ground (arith, c, r')))

module _ (faults : Faults) where
  -- `swap` changes no file but the three binaries.
  install_other :
      (d : Disk) (n : ℕ) (f : File)
      → same_file (main exe) f ≡ false
      → same_file (main exe_prev) f ≡ false
      → same_file (main (staged n)) f ≡ false
      → (install faults d (staged n)).0 f ≡ d f
  unfolding install
  install_other d n f a b c = ground (
    arith,
    rename_at faults d (main (staged n)) (main exe) f,
    rename_at faults (rename faults d (main (staged n)) (main exe)).0 (main exe_prev) (main exe) f,
  )

  pub swap_other :
      (d : Disk) (n : ℕ) (f : File)
      → same_file (main exe) f ≡ false
      → same_file (main exe_prev) f ≡ false
      → same_file (main (staged n)) f ≡ false
      → (swap faults d (staged n)).0 f ≡ d f
  unfolding swap
  swap_other d n f a b c =
      let d1 = (remove faults d (main exe_prev)).0 in
      let d2 = (rename faults d1 (main exe) (main exe_prev)).0 in
      ground (
        arith,
        remove_other faults d (main exe_prev) f,
        rename_at faults d1 (main exe) (main exe_prev) f,
        install_other d2 n f,
      )

  -- A swap that answers with no error has put the staged binary in place and kept the old one.
  pub swap_replaced :
      (d : Disk) (n : ℕ)
      → (swap faults d (staged n)).1 ≡ none
      → let d' = (swap faults d (staged n)).0 in
        (d' (main exe) ≡ d (main (staged n)))
        × (d' (main exe_prev) ≡ d (main exe))
        × (d' (main (staged n)) ≡ none)
  swap_replaced d n h = (swap-Swapped faults n d).replaced h

  -- A swap that answers with an error has left the old binary in place and the staged one where it was,
  -- unless the error says that putting the old binary back failed too.
  pub swap_recovered :
      (d : Disk) (n : ℕ) (e : Failure)
      → (swap faults d (staged n)).1 ≡ some e
      → is_lost e ≡ false
      → let d' = (swap faults d (staged n)).0 in
        (d' (main exe) ≡ d (main exe)) × (d' (main (staged n)) ≡ d (main (staged n)))
  swap_recovered d n e h k = (swap-Swapped faults n d).recovered e h k
