-- ===== src/Rejoin/Marker.antt =====
-- The marker of a rejoin on disk: rejoin.go and attempt_archive.go. Every writer holds the lock for the
-- whole of its call, so a call is one change of the disk.
pub mod Saved
pub mod Cleared
pub mod Phases
use fog_agent.Prelude.{
  ◌≡◌, same_bool, Bool, true, false, not, ◌&&◌, ◌||◌, Option, none, some, [], if◌then◌else◌, ltb,
  ◌==◌, length, Text, text, ◌=ᵗ◌,
}
use fog_agent.Prelude.Int.{ℤ, pos, ◌=ℤ◌}
use fog_agent.Rejoin.Data.{RejoinPlan, Attempt, Library, same_plan, same_attempt}
use fog_agent.Rejoin.Valid.{is_valid, is_nil}

-- The marker, and its name with ".tmp" behind it
pub data File : Type 0 where
  active temp : File

pub record Disk : Type 0 where
  pub active_of : Option Text
  pub temp_of : Option Text
  -- directory-rejoin-verified-<digest>.json
  pub archived : Text → Option Text

-- What the agent asks of the operating system.
pub data Call : Type 0 where
  locking opening sizing reading replacing syncing_directory inspecting archiving : Call
  removing creating writing syncing closing : File → Call

pub data Failure : Type 0 where
  refused : Call → Failure
  bad_size bad_marker bad_version bad_phase too_large already_there not_bound would_regress
        latch_changed snapshot_changed reboot_changed reboot_refused archive_changed archive_exists
        retry_changed unsafe_retry :
      Failure

-- attemptPhaseUpdate
unfoldable pub attempt_phase_update : Text → Text → Bool
attempt_phase_update from to =
    from =ᵗ to
    || (if from =ᵗ text "reserved"
        then to =ᵗ text "may_have_run" || to =ᵗ text "unknown"
        else if from =ᵗ text "may_have_run"
        then to =ᵗ text "awaiting_reboot" || to =ᵗ text "failed" || to =ᵗ text "unknown"
        else if from =ᵗ text "awaiting_reboot"
        then to =ᵗ text "verified" || to =ᵗ text "unknown"
        else false)

-- The phases that LoadAttempt takes.
unfoldable pub is_phase : Text → Bool
is_phase p =
    p =ᵗ text "reserved"
    || p =ᵗ text "may_have_run"
    || p =ᵗ text "awaiting_reboot"
    || p =ᵗ text "verified"
    || p =ᵗ text "failed"
    || p =ᵗ text "unknown"

abbrev pub content : Disk → File → Option Text
content d active = d.active_of
content d temp = d.temp_of

abbrev pub put : Disk → File → Option Text → Disk
put d active t = record d { active_of = t }
put d temp t = record d { temp_of = t }

abbrev pub is_absent : Option Text → Bool
is_absent none = true
is_absent (some t) = false

module _ (lib : Library) where
  -- What LoadAttempt makes of a value that it has decoded.
  unfoldable pub judge : Attempt → Bool → Option Attempt × Option Failure
  unfolding is_phase
  judge a ended =
      if not (a.version =ℤ pos 2 && a.plan.version =ℤ pos 2)
      then (none, some bad_version)
      else if not (ended && length a.fingerprint == 64 && is_valid lib a.plan.host_id a.plan)
      then (none, some bad_marker)
      else if is_phase a.phase
      then (some a, none)
      else (none, some bad_phase)

  -- ValidateReservedRetry, as whether it gives no error
  unfoldable pub validate_reserved_retry : Attempt → RejoinPlan → ℤ → Text → Bool
  validate_reserved_retry a p host fingerprint =
      a.version =ℤ pos 2
      && a.plan.version =ℤ pos 2
      && a.phase =ᵗ text "reserved"
      && a.plan.phase =ᵗ text "ready"
      && (elim a.native_status [ none ↦ true | some n ↦ false ])
      && not a.reboot_requested
      && a.plan.host_id =ℤ host
      && a.fingerprint =ᵗ fingerprint
      && length fingerprint == 64
      && is_valid lib host a.plan
      && p.version =ℤ pos 2
      && p.phase =ᵗ text "ready"
      && is_valid lib host p
      && p.retry_authorized
      && not (a.plan.attempt_id =ᵗ p.attempt_id)
      && not (a.plan.config_revision =ᵗ p.config_revision)

  module _ (refuses : Call → Bool) where
    -- LoadAttempt
    unfoldable pub load_attempt : Disk → Option Attempt × Option Failure
    unfolding judge
    load_attempt d = if refuses opening then (none, some (refused opening)) else elim d.active_of [
      | none ↦ (none, none)
      | some t ↦
          if refuses sizing || ltb 16384 (length t)
          then (none, some bad_size)
          else if refuses reading
          then (none, some bad_marker)
          else elim (lib.decode t) [
            | none ↦ (none, some bad_marker)
            | some (a, ended) ↦ judge a ended
          ]
    ]

    -- The writes of writeAttemptFile behind a successful open; a write that fails leaves the file empty.
    abbrev pub fill_file : Disk → File → Text → Disk × Option Failure
    fill_file d f t =
        if refuses (writing f)
        then (put d f (some []), some (refused (writing f)))
        else if refuses (syncing f)
        then (put d f (some t), some (refused (syncing f)))
        else if refuses (closing f)
        then (put d f (some t), some (refused (closing f)))
        else (put d f (some t), none)

    -- writeAttemptFile, which never writes over a file
    unfoldable pub write_attempt_file : Disk → File → Attempt → Disk × Option Failure
    write_attempt_file d f a = elim (lib.encode a) [
      | none ↦ (d, some too_large)
      | some t ↦
          if ltb 16384 (length t)
          then (d, some too_large)
          else if refuses (creating f)
          then (d, some (refused (creating f)))
          else if is_absent (content d f)
          then fill_file d f t
          else (d, some already_there)
    ]

    -- syncAttemptDir
    abbrev pub sync_dir : Disk → Disk × Option Failure
    sync_dir d =
        if refuses syncing_directory then (d, some (refused syncing_directory)) else (d, none)

    -- withAttemptLock
    abbrev pub with_lock : Disk → Disk × Option Failure → Disk × Option Failure
    with_lock d r = if refuses locking then (d, some (refused locking)) else r

    -- What follows a call that gave no error.
    abbrev pub then_sync : Disk × Option Failure → Disk × Option Failure
    then_sync (d, some e) = (d, some e)
    then_sync (d, none) = sync_dir d

    -- ReserveAttempt
    unfoldable pub reserve_attempt : Disk → Attempt → Disk × Option Failure
    unfolding write_attempt_file
    reserve_attempt d a = with_lock d (then_sync (write_attempt_file d active a))

    -- replaceAttempt and the directory's sync
    abbrev pub replace_marker : Disk × Option Failure → Disk × Option Failure
    replace_marker (d, some e) = (d, some e)
    replace_marker (d, none) =
        if refuses replacing
        then (d, some (refused replacing))
        else sync_dir (record d { active_of = d.temp_of; temp_of = none })

    -- saveAttemptLocked
    unfoldable pub save_attempt_locked : Disk → Attempt → Disk × Option Failure
    unfolding write_attempt_file
    save_attempt_locked d a =
        if refuses (removing temp)
        then (d, some (refused (removing temp)))
        else replace_marker (write_attempt_file (put d temp none) temp a)

    -- The guards of SaveAttempt, on the marker that was loaded.
    unfoldable pub save_refusal : Option Attempt → Attempt → Option Failure
    unfolding attempt_phase_update same_plan same_attempt
    save_refusal none a = some not_bound
    save_refusal (some current) a =
        if not (current.fingerprint =ᵗ a.fingerprint && same_plan current.plan a.plan)
        then some not_bound
        else if not (attempt_phase_update current.phase a.phase)
        then some would_regress
        else if not (same_bool current.reboot_requested a.reboot_requested)
        then some latch_changed
        else if current.phase =ᵗ a.phase && not (same_attempt current a)
        then some snapshot_changed
        else none

    -- A write that the marker as loaded has to allow: the guard says the error, if there is one.
    abbrev pub guarded :
        Disk → (Option Attempt → Option Failure) → Disk × Option Failure → Disk × Option Failure
    guarded d guard r =
        let (current, e) = load_attempt d in
        elim e [
          | some e ↦ (d, some e)
          | none ↦ elim (guard current) [ some e ↦ (d, some e) | none ↦ r ]
        ]

    -- SaveAttempt
    unfoldable pub save_attempt : Disk → Attempt → Disk × Option Failure
    unfolding load_attempt save_refusal save_attempt_locked
    save_attempt d a =
        with_lock d (guarded d (λ current. save_refusal current a) (save_attempt_locked d a))

    -- The guards of SetAttemptRebootRequested.
    abbrev pub latch_refusal : Option Attempt → Option Attempt → Bool → Option Failure
    latch_refusal (some a) (some current) requested =
        if not (same_attempt current a)
        then some reboot_changed
        else if current.phase =ᵗ text "awaiting_reboot"
            && not (same_bool current.reboot_requested requested)
        then none
        else some reboot_refused
    latch_refusal expected current requested = some reboot_changed

    -- SetAttemptRebootRequested
    unfoldable pub set_reboot_requested : Disk → Option Attempt → Bool → Disk × Option Failure
    unfolding load_attempt same_attempt save_attempt_locked
    set_reboot_requested d expected requested = elim expected [
      | none ↦ with_lock d (guarded d (λ c. some reboot_changed) (d, none))
      | some a ↦ with_lock d (
          guarded d (λ current. latch_refusal (some a) current requested)
            (save_attempt_locked d (record a { reboot_requested = requested })))
    ]

    abbrev pub archive_refusal : Attempt → Option Attempt → Option Failure
    archive_refusal a none = some archive_changed
    archive_refusal a (some current) =
        if current.phase =ᵗ text "verified" && same_attempt current a
        then none
        else some archive_changed

    -- The move of ArchiveVerifiedAttempt.
    abbrev pub move_away : Disk → Disk × Option Failure
    move_away d = elim d.active_of [
      | none ↦ (d, some (refused reading))
      | some t ↦
          if refuses reading
          then (d, some (refused reading))
          else if refuses inspecting || not (is_absent (d.archived (lib.digest t)))
          then (d, some archive_exists)
          else if refuses archiving
          then (d, some (refused archiving))
          else sync_dir (record d {
            active_of = none;
            archived = λ n. if n =ᵗ lib.digest t then some t else d.archived n;
          })
    ]

    -- ArchiveVerifiedAttempt
    unfoldable pub archive_verified_attempt : Disk → Attempt → Disk × Option Failure
    unfolding load_attempt same_attempt
    archive_verified_attempt d a = with_lock d (guarded d (archive_refusal a) (move_away d))

    abbrev pub retry_refusal : Attempt → RejoinPlan → ℤ → Text → Option Attempt → Option Failure
    retry_refusal a p host fingerprint none = some retry_changed
    retry_refusal a p host fingerprint (some current) =
        if not (same_attempt current a)
        then some retry_changed
        else if validate_reserved_retry current p host fingerprint
        then none
        else some unsafe_retry

    abbrev pub remove_active : Disk → Disk × Option Failure
    remove_active d =
        if refuses (removing active)
        then (d, some (refused (removing active)))
        else sync_dir (record d { active_of = none })

    -- RemoveAttemptForRetry
    unfoldable pub remove_attempt_for_retry :
        Disk → Attempt → RejoinPlan → ℤ → Text → Disk × Option Failure
    unfolding load_attempt same_attempt validate_reserved_retry
    remove_attempt_for_retry d a p host fingerprint =
        with_lock d (guarded d (retry_refusal a p host fingerprint) (remove_active d))
