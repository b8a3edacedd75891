-- ===== src/Update/Rollback.antt =====
-- That an update can be undone: what `arm` keeps and `revert` puts back.
use fog_agent.Prelude.{◌≡◌, refl, true, false, Option, none, some, Text, Time, arith}
use fog_agent.Update.Files.{
  Name, exe, exe_prev, exe_bad, config, config_prev, probation_file, reverted_file, File, main,
  temp, Probation, Reverted, Content, probation_json, reverted_json, Disk, Failure, Faults, Read,
  statting, same_file, read_file, stat, remove, rename, write_file_sync, copy_file, rename_at,
  remove_other, write_file_sync_atomic, write_file_sync_exists, holds, fails,
}
use fog_agent.Update.Records.{
  loaded, load_probation, survived, arm, arm_record, revert, restore_config, restore_binary,
  reinstall, finish_revert, is_serious,
}

module _ (faults : Faults) where
  -- A copy changes only the name copied to and its temporary file.
  copy_file_other :
      (d : Disk) (src dst : Name) (f : File)
      → same_file (temp dst) f ≡ false
      → same_file (main dst) f ≡ false
      → (copy_file faults d src dst).0 f ≡ d f
  unfolding copy_file
  copy_file_other d src dst f a b = after (read_file faults d (main src))
    where
      after :
          (r : Read)
          → let end : Disk × Option Failure = elim r [
            | fails e ↦ (d, some e)
            | holds c ↦ write_file_sync faults d dst c
          ] in
            end.0 f ≡ d f
      after (fails e) = refl
      after (holds c) = ground (arith, write_file_sync_atomic faults d dst c f)

  -- A copy that succeeds leaves what the source held under the name copied to.
  copy_file_ok :
      (d : Disk) (src dst : Name) (c : Content)
      → same_file (temp dst) (main dst) ≡ false
      → same_file (main dst) (main dst) ≡ true
      → d (main src) ≡ some c
      → is_serious (copy_file faults d src dst).1 ≡ none
      → (copy_file faults d src dst).0 (main dst) ≡ some c
  unfolding copy_file read_file
  copy_file_ok d src dst c a b h o = ground (
    arith,
    write_file_sync_atomic faults d dst c (main dst),
    write_file_sync_exists faults d dst c,
  )

  -- `arm` changes no file but the failed binary, the kept configuration and the record.
  pub arm_other :
      (d : Disk) (p : Probation) (f : File)
      → same_file (main exe_bad) f ≡ false
      → same_file (temp config_prev) f ≡ false
      → same_file (main config_prev) f ≡ false
      → same_file (temp probation_file) f ≡ false
      → same_file (main probation_file) f ≡ false
      → (arm faults d p).0 f ≡ d f
  unfolding arm arm_record
  arm_other d p f b k k' r r' =
      let d1 = (remove faults d (main exe_bad)).0 in
      let d2 = (copy_file faults d1 config config_prev).0 in
      ground (
        arith,
        remove_other faults d (main exe_bad) f,
        copy_file_other d1 config config_prev f,
        write_file_sync_atomic faults d2 probation_file (probation_json p) f,
      )

  -- Where there is a configuration, an `arm` that succeeds leaves a record that loads with the
  -- version to come, and that configuration as the kept one.
  pub arm_ok :
      (d : Disk) (p : Probation) (c : Content)
      → (arm faults d p).1 ≡ none
      → d (main config) ≡ some c
      → (survived p (load_probation faults (arm faults d p).0) ≡ true)
        × ((arm faults d p).0 (main probation_file) ≡ some (probation_json p))
        × ((arm faults d p).0 (main config_prev) ≡ some c)
  unfolding arm arm_record
  arm_ok d p c o h =
      let d1 = (remove faults d (main exe_bad)).0 in
      let d2 = (copy_file faults d1 config config_prev).0 in
      let r = remove_other faults d (main exe_bad) (main config) in
      let k = copy_file_ok d1 config config_prev c refl refl in
      let w =
        write_file_sync_atomic faults d2 probation_file (probation_json p) (main config_prev) in
      let w' =
        write_file_sync_atomic faults d2 probation_file (probation_json p) (main probation_file) in
      (ground arith, ground (arith, w'), ground (arith, r, k, w))

  -- A restoration of the binary that succeeds puts the previous one in place and keeps the failed one;
  -- one that fails has changed no file but the binaries.
  reinstall_ok :
      (d : Disk)
      → (reinstall faults d).1 ≡ none
      → (reinstall faults d).0 (main exe) ≡ d (main exe_prev)
  unfolding reinstall
  reinstall_ok d o = ground (arith, rename_at faults d (main exe_prev) (main exe) (main exe))

  reinstall_other :
      (d : Disk) (f : File)
      → same_file (main exe) f ≡ false
      → same_file (main exe_prev) f ≡ false
      → same_file (main exe_bad) f ≡ false
      → (reinstall faults d).0 f ≡ d f
  unfolding reinstall
  reinstall_other d f a b c =
      let d1 = (rename faults d (main exe_prev) (main exe)).0 in
      ground (
        arith,
        rename_at faults d (main exe_prev) (main exe) f,
        rename_at faults d1 (main exe_bad) (main exe) f,
      )

  reinstall_bad :
      (d : Disk)
      → (reinstall faults d).1 ≡ none
      → (reinstall faults d).0 (main exe_bad) ≡ d (main exe_bad)
  unfolding reinstall
  reinstall_bad d o = ground (arith, rename_at faults d (main exe_prev) (main exe) (main exe_bad))

  restore_binary_ok :
      (d : Disk)
      → (restore_binary faults d).1 ≡ none
      → ((restore_binary faults d).0 (main exe) ≡ d (main exe_prev))
        × ((restore_binary faults d).0 (main exe_bad) ≡ d (main exe))
  unfolding restore_binary
  restore_binary_ok d o =
      let d1 = (remove faults d (main exe_bad)).0 in
      let d2 = (rename faults d1 (main exe) (main exe_bad)).0 in
      let r = remove_other faults d (main exe_bad) (main exe_prev) refl in
      let r' = remove_other faults d (main exe_bad) (main exe) refl in
      let a = rename_at faults d1 (main exe) (main exe_bad) (main exe_prev) in
      let a' = rename_at faults d1 (main exe) (main exe_bad) (main exe_bad) in
      (ground (arith, r, a, reinstall_ok d2), ground (arith, r', a', reinstall_bad d2))

  restore_binary_other :
      (d : Disk) (f : File)
      → same_file (main exe) f ≡ false
      → same_file (main exe_prev) f ≡ false
      → same_file (main exe_bad) f ≡ false
      → (restore_binary faults d).0 f ≡ d f
  unfolding restore_binary
  restore_binary_other d f a b c =
      let d1 = (remove faults d (main exe_bad)).0 in
      let d2 = (rename faults d1 (main exe) (main exe_bad)).0 in
      ground (
        arith,
        remove_other faults d (main exe_bad) f,
        rename_at faults d1 (main exe) (main exe_bad) f,
        reinstall_other d2 f,
      )

  restore_config_other :
      (d : Disk) (f : File)
      → same_file (temp config) f ≡ false
      → same_file (main config) f ≡ false
      → (restore_config faults d).0 f ≡ d f
  unfolding restore_config
  restore_config_other d f a b = ground (arith, copy_file_other d config_prev config f)

  restore_config_ok :
      (d : Disk) (c : Content)
      → d (main config_prev) ≡ some c
      → faults (statting (main config_prev)) ≡ false
      → (restore_config faults d).1 ≡ none
      → (restore_config faults d).0 (main config) ≡ some c
  unfolding restore_config stat
  restore_config_ok d c h s o = ground (arith, copy_file_ok d config_prev config c refl refl)

  finish_revert_other :
      (d : Disk) (p : Probation) (now : Time) (reason : Text) (f : File)
      → same_file (main probation_file) f ≡ false
      → same_file (main config_prev) f ≡ false
      → same_file (temp reverted_file) f ≡ false
      → same_file (main reverted_file) f ≡ false
      → finish_revert faults d p now reason f ≡ d f
  unfolding finish_revert
  finish_revert_other d p now reason f a b t m =
      let d1 = (remove faults d (main probation_file)).0 in
      let d2 = (remove faults d1 (main config_prev)).0 in
      let note : Reverted = record { from = p.from; to = p.to; at = now; reason = reason } in
      ground (
        arith,
        remove_other faults d (main probation_file) f,
        remove_other faults d1 (main config_prev) f,
        write_file_sync_atomic faults d2 reverted_file (reverted_json note) f,
      )

  -- A revert that succeeds puts the previous binary in place and keeps the failed one aside, and the
  -- kept configuration is the configuration again, if there is one and its presence can be asked.
  pub revert_loaded :
      (d : Disk) (now : Time) (reason : Text) (p : Probation)
      → load_probation faults d ≡ loaded p
      → (revert faults d now reason).2 ≡ none
      → ((revert faults d now reason).0 (main exe) ≡ d (main exe_prev))
        × ((revert faults d now reason).0 (main exe_bad) ≡ d (main exe))
        × ((c : Content)
            → d (main config_prev) ≡ some c
            → faults (statting (main config_prev)) ≡ false
            → (revert faults d now reason).0 (main config) ≡ some c)
  unfolding revert
  revert_loaded d now reason p l o =
      let d1 = (restore_config faults d).0 in
      let d2 = (restore_binary faults d1).0 in
      let other = restore_config_other d in
      let binary = restore_binary_ok d1 in
      let finish = finish_revert_other d2 p now reason in
      (
        ground
            (arith, other (main exe_prev) refl refl, binary, finish (main exe) refl refl refl refl),
        ground
            (arith, other (main exe) refl refl, binary, finish (main exe_bad) refl refl refl refl),
        λ c h s. ground (
          arith,
          restore_config_ok d c h s,
          restore_binary_other d1 (main config) refl refl refl,
          finish (main config) refl refl refl refl,
        ),
      )
