-- ===== src/Update/Records.antt =====
-- internal/provider/update/probation.go: the records beside the agent's configuration, the swap of the
-- binary, and what a rollback needs and does.
use fog_agent.Prelude.{
  Bool, true, false, ◌&&◌, Option, none, some, ltb, if◌then◌else◌, Text, ◌=ᵗ◌, Time,
}
use fog_agent.Prelude.Int.{ℤ, pos, ltb_ℤ}
use fog_agent.Update.Files.{
  Name, exe, exe_prev, exe_bad, config, config_prev, probation_file, sequence_file, reverted_file,
  main, Probation, Reverted, probation_json, sequence_json, reverted_json, Disk, Failure, malformed,
  is_not_exist, keeping_config, restoring_config, previous_gone, moving_failed_aside,
  restoring_binary, moving_running_aside, installing, record_not_survived, nothing_to_revert,
  restoring_and_putting_back, installing_and_putting_back, Faults, holds, fails, read_file, stat,
  remove, rename, write_file_sync, copy_file,
}

-- A record, none, or the error of reading it.
pub data Loaded (A : Type 0) : Type 0 where
  absent : Loaded A
  loaded : A → Loaded A
  broken : Failure → Loaded A

abbrev pub is_none {ℓ} : {A : Type ℓ} → Option A → Bool
is_none none = true
is_none (some a) = false

-- got.To == p.To, after a load without an error
abbrev pub survived : Probation → Loaded Probation → Bool
survived p absent = false
survived p (broken e) = false
survived p (loaded got) = got.to =ᵗ p.to

-- err != nil && !errors.Is(err, os.ErrNotExist)
abbrev pub is_serious : Option Failure → Option Failure
is_serious none = none
is_serious (some e) = if is_not_exist e then none else some e

module _ (faults : Faults) where
  -- ClearReverted
  unfoldable pub clear_reverted : Disk → Disk × Option Failure
  unfolding remove
  clear_reverted d =
      let (d', failed) = remove faults d (main reverted_file) in
      elim failed [
        | none ↦ (d', none)
        | some e ↦ if is_not_exist e then (d', none) else (d', some e)
      ]

  -- LoadReverted: a record that does not parse is removed.
  unfoldable pub load_reverted : Disk → Disk × Loaded Reverted
  unfolding clear_reverted read_file
  load_reverted d = elim (read_file faults d (main reverted_file)) [
    | fails e ↦ if is_not_exist e then (d, absent) else (d, broken e)
    | holds c ↦ elim c [ reverted_json r ↦ (d, loaded r) | _ ↦ ((clear_reverted d).0, absent) ]
  ]

  -- LoadSequence: missing is 0.
  unfoldable pub load_sequence : Disk → ℤ × Option Failure
  unfolding read_file
  load_sequence d = elim (read_file faults d (main sequence_file)) [
    | fails e ↦ if is_not_exist e then (pos 0, none) else (pos 0, some e)
    | holds c ↦ elim c [ sequence_json n ↦ (n, none) | _ ↦ (pos 0, some malformed) ]
  ]

  -- SaveSequence
  unfoldable pub save_sequence : Disk → ℤ → Disk × Option Failure
  save_sequence d n =
      let (cur, failed) = load_sequence d in
      if is_none failed && ltb_ℤ n cur
      then (d, none)
      else write_file_sync faults d sequence_file (sequence_json n)

  -- LoadProbation
  unfoldable pub load_probation : Disk → Loaded Probation
  unfolding read_file
  load_probation d = elim (read_file faults d (main probation_file)) [
    | fails e ↦ if is_not_exist e then absent else broken e
    | holds c ↦ elim c [ probation_json p ↦ loaded p | _ ↦ broken malformed ]
  ]

  -- ClearProbation
  unfoldable pub clear_probation : Disk → Disk × Option Failure
  unfolding remove
  clear_probation d = remove faults d (main probation_file)

  -- Arm, from the write of the record on.
  unfoldable pub arm_record : Disk → Probation → Disk × Option Failure
  arm_record d p =
      let (d', failed) = write_file_sync faults d probation_file (probation_json p) in
      elim failed [
        | some e ↦ (d', some e)
        | none ↦
            if survived p (load_probation d') then (d', none) else (d', some record_not_survived)
      ]

  -- Arm
  unfoldable pub arm : Disk → Probation → Disk × Option Failure
  arm d p =
      let d1 = (remove faults d (main exe_bad)).0 in
      let (d2, failed) = copy_file faults d1 config config_prev in
      elim (is_serious failed) [ some e ↦ (d2, some (keeping_config e)) | none ↦ arm_record d2 p ]

  -- swap, once the running binary is aside: the new one, or the old one put back.
  unfoldable pub install : Disk → Name → Disk × Option Failure
  install d new =
      let (d1, failed) = rename faults d (main new) (main exe) in
      let (d2, failed') = rename faults d1 (main exe_prev) (main exe) in
      elim failed [
        | none ↦ (d1, none)
        | some e ↦ elim failed' [
          | some r ↦ (d2, some (installing_and_putting_back e r))
          | none ↦ (d2, some (installing e))
        ]
      ]

  -- swap, with the new binary staged under `new`
  unfoldable pub swap : Disk → Name → Disk × Option Failure
  swap d new =
      let d1 = (remove faults d (main exe_prev)).0 in
      let (d2, failed) = rename faults d1 (main exe) (main exe_prev) in
      elim failed [ some e ↦ (d2, some (moving_running_aside e)) | none ↦ install d2 new ]

  -- Revert, once the previous binary is known to be there: the configuration.
  unfoldable pub restore_config : Disk → Disk × Option Failure
  restore_config d = elim (stat faults d (main config_prev)) [
    | some e ↦ (d, none)
    | none ↦ copy_file faults d config_prev config
  ]

  -- Revert, once the failed binary is aside: the previous one, or the failed one put back.
  unfoldable pub reinstall : Disk → Disk × Option Failure
  reinstall d =
      let (d1, failed) = rename faults d (main exe_prev) (main exe) in
      let (d2, failed') = rename faults d1 (main exe_bad) (main exe) in
      elim failed [
        | none ↦ (d1, none)
        | some e ↦ elim failed' [
          | some r ↦ (d2, some (restoring_and_putting_back e r))
          | none ↦ (d2, some (restoring_binary e))
        ]
      ]

  -- Revert: the binary.
  unfoldable pub restore_binary : Disk → Disk × Option Failure
  restore_binary d =
      let d1 = (remove faults d (main exe_bad)).0 in
      let (d2, failed) = rename faults d1 (main exe) (main exe_bad) in
      elim failed [ some e ↦ (d2, some (moving_failed_aside e)) | none ↦ reinstall d2 ]

  -- Revert: the records, each as far as it goes.
  unfoldable pub finish_revert : Disk → Probation → Time → Text → Disk
  finish_revert d p now reason =
      let d1 = (remove faults d (main probation_file)).0 in
      let d2 = (remove faults d1 (main config_prev)).0 in
      (write_file_sync faults d2 reverted_file
        (reverted_json (record { from = p.from; to = p.to; at = now; reason = reason }))).0

  -- Revert; `now` is time.Now().
  unfoldable pub revert : Disk → Time → Text → Disk × Option Probation × Option Failure
  revert d now reason = elim (load_probation d) [
    | broken e ↦ (d, none, some e)
    | absent ↦ (d, none, some nothing_to_revert)
    | loaded p ↦ elim (stat faults d (main exe_prev)) [
      | some e ↦ (d, some p, some (previous_gone e))
      | none ↦
          let (d1, failed) = restore_config d in
          let (d2, failed') = restore_binary d1 in
          elim failed [
            | some e ↦ (d1, some p, some (restoring_config e))
            | none ↦ elim failed' [
              | some e ↦ (d2, some p, some e)
              | none ↦ (finish_revert d2 p now reason, some p, none)
            ]
          ]
    ]
  ]

-- Due
unfoldable pub due : Option Probation → Time → Bool
due none t = false
due (some p) t = ltb p.deadline t
