-- ===== src/Tests/Files.antt =====
-- Disks with an update on them, and systems that refuse a call.
use fog_agent.Prelude.{◌=ᵗ◌, [], ◌≡◌, refl, true, false, none, some, text}
use fog_agent.Prelude.Int.{pos}
use fog_agent.Update.Files.{
  exe, config, sequence_file, staged, main, Probation, bytes, sequence_json, Disk, store, reading,
  renaming, Faults, read_file, remove, stat, copy_file, write_file_sync,
}
use fog_agent.Update.Records.{
  load_probation, save_sequence, arm, arm_record, install, swap, revert, restore_config,
  restore_binary, reinstall,
}
use fog_agent.Update.Probation.{check_probation, passed_probation, passed_probation_stays}
use fog_agent.Update.Undo.{update_undone}
use fog_agent.Update.Sequence.{save_sequence_unreadable}

abbrev pub willing : Faults
willing call = false

abbrev empty_disk : Disk
empty_disk f = none

abbrev pub old_disk : Disk
old_disk =
    store (store empty_disk (main exe) (some (bytes (text "old")))) (main config)
      (some (bytes (text "url")))

-- A download stands beside the binary.
abbrev staged_disk : Disk
staged_disk = store old_disk (main (staged 0)) (some (bytes (text "new")))

abbrev a_record : Probation
a_record = record { from = text "1.1.0"; to = text "1.2.0"; sequence = pos 5; deadline = 900 }

abbrev armed_disk : Disk
armed_disk = (arm willing staged_disk a_record).0

abbrev swapped_disk : Disk
swapped_disk = (swap willing armed_disk (staged 0)).0

-- The new binary has written its own configuration.
abbrev used_disk : Disk
used_disk = store swapped_disk (main config) (some (bytes (text "other")))

update_undone_example :
    ((revert willing used_disk 950 (text "late")).0 (main exe) ≡ staged_disk (main exe))
    × ((revert willing used_disk 950 (text "late")).0 (main config) ≡ staged_disk (main config))
unfolding arm copy_file read_file remove write_file_sync arm_record load_probation ◌=ᵗ◌ swap install
    revert stat restore_config restore_binary reinstall
update_undone_example =
    update_undone willing willing staged_disk used_disk a_record 0 (bytes (text "url")) 950
      (text "late") refl refl refl refl refl refl refl

-- The system does not let the new binary into place.
abbrev pub stubborn : Faults
stubborn (renaming (main (staged n)) g) = true
stubborn call = false

-- The floor stands at 5.
abbrev floor_disk : Disk
floor_disk = store old_disk (main sequence_file) (some (sequence_json (pos 5)))

abbrev blind : Faults
blind (reading (main sequence_file)) = true
blind call = false

save_sequence_unreadable_example :
    ((save_sequence blind floor_disk (pos 3)).0 (main sequence_file) ≡ some (sequence_json (pos 3)))
    × ((save_sequence blind floor_disk (pos 3)).1 ≡ none)
save_sequence_unreadable_example =
    save_sequence_unreadable blind floor_disk (pos 3) refl refl refl refl refl refl

-- The new binary, whose poll got through.
passed_probation_stays_example :
    check_probation willing (λ t. []) (passed_probation willing (λ t. []) armed_disk) 950
    ≡ (passed_probation willing (λ t. []) armed_disk, false)
unfolding load_probation arm copy_file remove write_file_sync arm_record ◌=ᵗ◌
passed_probation_stays_example =
    passed_probation_stays willing (λ t. []) armed_disk a_record 950 refl refl
