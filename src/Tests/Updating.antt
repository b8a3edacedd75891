-- ===== src/Tests/Updating.antt =====
-- One run of the update, from the manifest that the server sent to the replaced binary, and one where
-- the system does not let the new binary into place.
use fog_agent.Version.{compare_parts, good_part, compare, split, valid}
use fog_agent.Prelude.{
  parse_uint, split_first, ◌<ᵗ◌, cut, split_on, is_digit, split_n, trim_prefix, atoi, ◌≡◌, refl,
  ◌⊎◌, true, [], none, ◌=ᵗ◌, text,
}
use fog_agent.Prelude.Int.{wrap64, ◌+ℤ◌, pos}
use fog_agent.Release
use fog_agent.Release.{
  copy_verified, equal_from, equal_hex, find, find_artifact, judge, lookup_version, most_of,
  read_limited, verify, read_chain, read_certificate, judged_at, alg_ecdsa_p256_sha256, fresh,
}
use fog_agent.Update.Files.{
  copy_file, read_file, remove, rename, write_file_sync, exe, exe_prev, main, renaming,
}
use fog_agent.Update.Records.{
  arm, arm_record, clear_probation, install, load_probation, swap, save_sequence, load_sequence,
}
use fog_agent.Update.Run.Data.{Desired, Config}
use fog_agent.Update.Run.{
  run, refusal, obtain, replace, manifest_for, fetch_artifact, stage, accept, accept_verified,
  inline, from_url, fetch_limited,
}
use fog_agent.Update.Run.Restart.{IsAllowed, IsReplaced, run_restart, run_no_restart}
use fog_agent.Tests.Trusted.{toy, a_stream}
use fog_agent.Tests.Files.{willing, stubborn, old_disk}

abbrev desired : Desired
desired = record {
  version = text "1.2.0";
  manifest_url = [];
  manifest = text "m";
  signature = text "m";
  artifact = pos 0;
}

abbrev settings : Config toy
settings = record {
  current = text "1.1.0";
  goos = text "linux";
  goarch = text "amd64";
  roots = 7;
  root_count = 1;
  default_manifest_url = [];
  min_downgrade = [];
  busy = none;
  fetch = λ url. Release.ok a_stream;
  payload = none;
  now = 200;
  probation = 600;
  room = 10;
}

run_restart_example :
    IsAllowed toy willing desired settings
    × IsReplaced toy willing desired settings old_disk (run toy willing desired settings old_disk).0
unfolding run refusal valid ◌=ᵗ◌ trim_prefix cut split_on is_digit compare split split_n atoi obtain
    manifest_for inline accept verify alg_ecdsa_p256_sha256 parse_uint split_first ◌<ᵗ◌ wrap64 ◌+ℤ◌
    copy_verified equal_from equal_hex find find_artifact fresh judge judged_at lookup_version
    most_of read_certificate read_chain read_limited copy_file read_file remove rename
    write_file_sync arm arm_record clear_probation install load_probation load_sequence
    save_sequence swap accept_verified fetch_artifact fetch_limited from_url replace stage
    compare_parts good_part
run_restart_example = run_restart toy willing desired settings old_disk refl

run_no_restart_example :
    let disk' = (run toy stubborn desired settings old_disk).0 in
    (disk' (main exe) ≡ old_disk (main exe))
    ⊎ ((disk' (main exe) ≡ none)
        × (disk' (main exe_prev) ≡ old_disk (main exe))
        × (stubborn (renaming (main exe_prev) (main exe)) ≡ true))
unfolding run refusal valid ◌=ᵗ◌ trim_prefix cut split_on is_digit compare split split_n atoi obtain
    manifest_for inline accept verify alg_ecdsa_p256_sha256 parse_uint split_first ◌<ᵗ◌ wrap64 ◌+ℤ◌
    copy_verified equal_from equal_hex find find_artifact fresh judge judged_at lookup_version
    most_of read_certificate read_chain read_limited copy_file read_file remove rename
    write_file_sync arm arm_record clear_probation install load_probation load_sequence
    save_sequence swap accept_verified fetch_artifact fetch_limited from_url replace stage
    compare_parts good_part
run_no_restart_example = run_no_restart toy stubborn desired settings old_disk refl
