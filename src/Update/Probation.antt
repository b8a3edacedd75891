-- ===== src/Update/Probation.antt =====
-- cmd/fog-agent/update.go: the end of the probation, in the loop that polls. The lines that are printed
-- are left out.
use fog_agent.Prelude.{
  ◌≡◌, inl, inr, Bool, true, false, not, [], ◌++◌, Option, none, some, if◌then◌else◌, Text, text,
  ◌=ᵗ◌, Time, arith, Option-cases,
}
use fog_agent.Update.Files.{
  probation_file, main, Probation, Disk, Faults, remove, read_file, removing,
}
use fog_agent.Update.Records.{
  absent, loaded, broken, load_probation, clear_probation, load_reverted, clear_reverted, revert,
  due, is_none,
}

-- `format` is time.Format with the layout of RFC 3339.
module _ (faults : Faults) (format : Time → Text) where
  -- checkProbation with update.Revert: whether the agent is to start again.
  unfoldable pub check_probation : Disk → Time → Disk × Bool
  unfolding load_probation due revert
  check_probation d now = elim (load_probation faults d) [
    | broken e ↦ (d, false)
    | absent ↦ (d, false)
    | loaded p ↦
        let (d1, from, failed) =
          revert faults d now (text "no successful poll before " ++ format p.deadline) in
        if not (due (some p) now) then (d, false) else (d1, is_none failed)
  ]

  -- passedProbation
  unfoldable pub passed_probation : Disk → Disk
  unfolding load_probation clear_probation
  passed_probation d = elim (load_probation faults d) [
    | broken e ↦ d
    | absent ↦ d
    | loaded p ↦ (clear_probation faults d).0
  ]

  -- reportRevert: `lands` is whether client.Result goes through with the detail.
  unfoldable pub report_revert : (Text → Bool) → Disk → Disk × Option Text
  unfolding load_reverted clear_reverted
  report_revert lands d =
      let (d1, record_of) = load_reverted faults d in
      elim record_of [
        | broken e ↦ (d1, none)
        | absent ↦ (d1, none)
        | loaded r ↦
            let detail = text "reverted: " ++ r.to ++ text " -> " ++ r.from in
            let whole =
              if r.reason =ᵗ [] then detail else detail ++ text " (" ++ r.reason ++ text ")" in
            if lands whole then ((clear_reverted faults d1).0, some whole) else (d1, none)
      ]

  -- The record of the probation that loads.
  abbrev pub on_probation : Disk → Option Probation
  on_probation d = elim (load_probation faults d) [ loaded p ↦ some p | _ ↦ none ]

  -- The loop goes back to the previous binary only while a record of the probation loads and its
  -- deadline has passed.
  pub check_probation-due :
      (d : Disk) (now : Time) → (check_probation d now).1 ≡ true → due (on_probation d) now ≡ true
  unfolding check_probation due
  check_probation-due d now h = ground arith

  cleared :
      (d : Disk) (p : Probation)
      → load_probation faults d ≡ loaded p
      → faults (removing (main probation_file)) ≡ false
      → load_probation faults (clear_probation faults d).0 ≡ absent
  unfolding clear_probation remove load_probation read_file
  cleared d p l f = elim (Option-cases (d (main probation_file))) [
    | inl e ↦ ground arith
    | inr (c, e) ↦ ground arith
  ]

  -- With no record that loads, the loop does not go back.
  not_back :
      (d : Disk) (now : Time)
      → load_probation faults d ≡ absent
      → check_probation d now ≡ (d, false)
  unfolding check_probation
  not_back d now e = ground arith

  -- Once a poll got through, and the record could be read and removed, no later look at the probation
  -- goes back to the previous binary or changes the disk.
  pub passed_probation_stays :
      (d : Disk) (p : Probation) (now : Time)
      → load_probation faults d ≡ loaded p
      → faults (removing (main probation_file)) ≡ false
      → check_probation (passed_probation d) now ≡ (passed_probation d, false)
  unfolding passed_probation
  passed_probation_stays d p now l f =
      ground (arith, not_back (clear_probation faults d).0 now (cleared d p l f))
