-- ===== src/Update/Sequence.antt =====
-- The floor under the sequence numbers of manifests.
use fog_agent.Prelude.{◌≡◌, refl, true, false, none, some, arith}
use fog_agent.Prelude.Int.{ℤ, ◌≤ℤ◌}
use fog_agent.Update.Files.{
  sequence_file, main, temp, sequence_json, Disk, Faults, reading, opening, writing, syncing,
  closing, renaming, read_file, write_file_sync, write_file_sync_atomic, rename,
}
use fog_agent.Update.Records.{load_sequence, save_sequence}

-- Where the floor can be read, saving a number does not lower it, whatever calls fail.
pub save_sequence_keeps :
    (faults : Faults) (d : Disk) (m n : ℤ)
    → load_sequence faults d ≡ (m, none)
    → m ≤ℤ (load_sequence faults (save_sequence faults d n).0).0
unfolding save_sequence load_sequence
save_sequence_keeps faults d m n h = ground (
  arith,
  write_file_sync_atomic faults d sequence_file (sequence_json n) (main sequence_file) refl,
)

-- A save that answers with no error, where the floor can be read, leaves a floor that is not below the
-- number.
pub save_sequence_raises :
    (faults : Faults) (d : Disk) (m n : ℤ)
    → load_sequence faults d ≡ (m, none)
    → (save_sequence faults d n).1 ≡ none
    → n ≤ℤ (load_sequence faults (save_sequence faults d n).0).0
unfolding save_sequence load_sequence
save_sequence_raises faults d m n h o = ground (
  arith,
  write_file_sync_atomic faults d sequence_file (sequence_json n) (main sequence_file) refl,
)

-- Where the record of the floor cannot be read and can be written, saving a number replaces the
-- floor, also by a lower one.
pub save_sequence_unreadable :
    (faults : Faults) (d : Disk) (n : ℤ)
    → faults (reading (main sequence_file)) ≡ true
    → faults (opening (temp sequence_file)) ≡ false
    → faults (writing (temp sequence_file)) ≡ false
    → faults (syncing (temp sequence_file)) ≡ false
    → faults (closing (temp sequence_file)) ≡ false
    → faults (renaming (temp sequence_file) (main sequence_file)) ≡ false
    → ((save_sequence faults d n).0 (main sequence_file) ≡ some (sequence_json n))
      × ((save_sequence faults d n).1 ≡ none)
unfolding save_sequence load_sequence read_file write_file_sync rename
save_sequence_unreadable faults d n r o w s c m = (ground arith, ground arith)
