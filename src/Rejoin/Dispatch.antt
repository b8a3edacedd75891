-- ===== src/Rejoin/Dispatch.antt =====
-- cmd/fog-agent/directory_rejoin.go, processRejoin where there is no marker: the reservation, the claim,
-- the latch and the native calls, and rejoinReport. The lines that are printed and the zeroing of the
-- credential are left out.
use fog_agent.Prelude.{
  ℕ, Bool, true, false, not, ◌&&◌, ◌||◌, [], Option, none, some, if◌then◌else◌, ◌==◌, Text, text,
  ◌=ᵗ◌,
}
use fog_agent.Prelude.Int.{pos, ◌=ℤ◌}
use fog_agent.Reboot.{merge, mode_reboot}
use fog_agent.Agent.Coordinate.{source_rejoin}
use fog_agent.Agent.Reconcile.Data.{Directory}
use fog_agent.Agent.Reconcile.Queues.{reason}
use fog_agent.Rejoin.Data.{RejoinPlan, Boot, Observation, Attempt}
use fog_agent.Rejoin.Valid.{is_operation, is_member}
use fog_agent.Rejoin.Marker.{
  Failure, unsafe_retry, reserve_attempt, save_attempt, archive_verified_attempt,
  validate_reserved_retry, remove_attempt_for_retry,
}
use fog_agent.Rejoin.World.{
  Native, rename, join, rebind, Report, told, claimed, named, called, saved, Host, Stop, marker,
  no_fingerprint, unresolved, absent, unobserved, bad_role, domain_mismatch, names_changed,
  pending_conflict, not_started, name_review, outcome_review, unsaved, unreported, Machine, note,
  mark,
}

-- Whether the work goes on with a marker, with none, or ends with an error or with nil.
pub data Flow : Type 0 where
  on : Attempt → Flow
  bare : Flow
  ended : Option Stop → Flow

abbrev pub flow_of : Option Attempt → Flow
flow_of none = bare
flow_of (some a) = on a

-- RejoinObservation{}
abbrev pub no_observation : Observation
no_observation = record {
  current_name = [];
  pending_name = [];
  domain = [];
  netbios = [];
  role = [];
  secure_channel = [];
  boot = record { marker = []; started = [] };
}

-- The marker that a rejoin starts with.
abbrev pub first_attempt : Text → RejoinPlan → Boot → Attempt
first_attempt fingerprint p boot = record {
  version = pos 2;
  fingerprint = fingerprint;
  plan = p;
  phase = text "reserved";
  before_boot = boot;
  native_status = none;
  reboot_requested = false;
}

abbrev pub in_phase : Text → Attempt → Attempt
in_phase phase a = record a { phase = phase }

unfoldable pub secure_word : Text → Text
secure_word s =
    if s =ᵗ text "false"
    then text "broken"
    else if s =ᵗ text "true"
    then text "healthy"
    else text "unknown"

abbrev pub native_of : RejoinPlan → Native
native_of p =
    if is_operation (text "rename") p
    then rename
    else if is_operation (text "join") p
    then join
    else rebind

module _ (m : Machine) where
  -- SaveConfig, with its error as whether it was written.
  unfoldable pub save_config : Host → Host × Option Stop
  save_config w = if m.can_save w.log then (note w (saved w.config), none) else (w, some unsaved)

  -- rejoinReport
  unfoldable pub rejoin_report : Attempt → Text → Observation → Bool → Host → Host × Option Stop
  unfolding secure_word
  rejoin_report a phase o boot w =
      let r : Report = record {
        revision = w.config.applied_revision;
        host_id = w.config.host_id;
        attempt_id = a.plan.attempt_id;
        config_revision = a.plan.config_revision;
        task_id = a.plan.task_id;
        status = phase;
        native_status = a.native_status;
        secure_channel = secure_word o.secure_channel;
        boot_changed = boot;
        current_name = o.current_name;
        domain = o.domain;
        netbios = o.netbios;
      } in
      let ok = m.accepts w.log r in (note w (told r ok), if ok then none else some unreported)

  -- A call on the marker that ends the work on an error and goes on without a marker else.
  unfoldable pub clearing : Host × Option Failure → Host × Flow
  clearing (w, none) = (w, bare)
  clearing (w, some e) = (w, ended (some (marker e)))

  -- A verified operation of another identity is archived.
  unfoldable pub forget_history : Option Attempt → Host → Host × Flow
  unfolding archive_verified_attempt clearing
  forget_history none w = (w, bare)
  forget_history (some a) w =
      if not (a.phase =ᵗ text "verified") then (w, on a) else elim m.fingerprint [
        | none ↦ (w, ended (some no_fingerprint))
        | some fp ↦
            if a.fingerprint =ᵗ fp && a.plan.host_id =ℤ w.config.host_id
            then (w, on a)
            else clearing (mark w (archive_verified_attempt m.lib (m.refuses w.log) w.disk a))
      ]

  -- A marker of another attempt makes way only if it is verified or an unused reservation.
  unfoldable pub retire : RejoinPlan → Text → Attempt → Host → Host × Flow
  unfolding archive_verified_attempt validate_reserved_retry remove_attempt_for_retry clearing
  retire p fp a w =
      if a.plan.attempt_id =ᵗ p.attempt_id
      then (w, on a)
      else if not (p.phase =ᵗ text "ready") || not (a.plan.host_id =ℤ w.config.host_id)
      then (w, ended (some unresolved))
      else if a.phase =ᵗ text "verified"
      then clearing (mark w (archive_verified_attempt m.lib (m.refuses w.log) w.disk a))
      else if not (validate_reserved_retry m.lib a p w.config.host_id fp)
      then (w, ended (some (marker unsafe_retry)))
      else clearing
          (mark w (remove_attempt_for_retry m.lib (m.refuses w.log) w.disk a p w.config.host_id fp))

  -- The checks of the observation before a reservation.
  unfoldable pub start_refusal : RejoinPlan → Observation → Option Stop
  start_refusal p o =
      if not (
        is_member m.lib o.role
        || (is_operation (text "join") p && o.role =ᵗ text "standalone_server"))
      then some bad_role
      else if (if is_operation (text "join") p
          then not (o.domain =ᵗ [])
          else not (m.lib.equal_fold o.domain p.domain))
      then some domain_mismatch
      else if not (m.lib.equal_fold o.current_name p.expected_current)
          || not (m.lib.equal_fold o.pending_name p.expected_pending)
      then some names_changed
      else if not (is_operation (text "rename") p)
          && not (m.lib.equal_fold o.pending_name p.name)
          && not (m.lib.equal_fold o.pending_name o.current_name)
      then some pending_conflict
      else none

  -- An outcome that is not known: recorded, reported, and an error.
  unfoldable pub doubt : Attempt → Observation → Stop → Host → Host × Flow
  unfolding save_attempt rejoin_report
  doubt a o why w =
      let b = in_phase (text "unknown") a in
      let (w1, e) = mark w (save_attempt m.lib (m.refuses w.log) w.disk b) in
      elim e [
        | some f ↦ (w1, ended (some (marker f)))
        | none ↦ ((rejoin_report b (text "unknown") o false w1).0, ended (some why))
      ]

  -- SetRejoinName where the name is not pending yet: the observation after it, and whether it failed.
  unfoldable pub name_first : RejoinPlan → Observation → Host → Host × Observation × Bool
  name_first p o w =
      if is_operation (text "rename") p || m.lib.equal_fold o.pending_name p.name
      then (w, o, false)
      else let ok = m.set_name w.log p.name in
        let w1 = note w (named w.disk p.name ok) in
        let (o1, seen) = m.observe w1.log p.dc in
        if not ok
        then (w1, o, true)
        else (w1, o1, not (seen && m.lib.equal_fold o1.pending_name p.name))

  -- What follows a native call that gave a status.
  unfoldable pub finish : Directory → Attempt → Observation → ℕ → Host → Host × Flow
  unfolding save_attempt rejoin_report save_config
  finish policy a o code w =
      let b : Attempt = record a {
        native_status = some code;
        phase = if code == 0 then text "awaiting_reboot" else text "failed";
      } in
      let (w1, e) = mark w (save_attempt m.lib (m.refuses w.log) w.disk b) in
      let asked =
        reason source_rejoin (text "directory rejoin needs a Windows restart") policy.reboot
          mode_reboot in
      let w2 : Host = record w1 {
        config = record w1.config {
          pending_reboot = merge w1.config.pending_reboot asked (m.clock w1.log);
          facts_checked = 0;
        };
      } in
      elim e [
        | some f ↦ (w1, ended (some (marker f)))
        | none ↦
            if not (code == 0)
            then (let (w3, r) = rejoin_report b (text "failed") o false w1 in (w3, ended r))
            else let (w3, r) = save_config w2 in
              elim r [ some s ↦ (w3, ended (some s)) | none ↦ (w3, on b) ]
      ]

  -- The native call.
  unfoldable pub dispatch : RejoinPlan → Directory → Attempt → Observation → Host → Host × Flow
  unfolding doubt finish
  dispatch p policy a o w =
      let w1 = note w (called w.disk (native_of p) p) in
      elim (m.native w.log (native_of p) policy p) [
        | none ↦ doubt a o outcome_review w1
        | some code ↦ finish policy a o code w1
      ]

  -- From a granted claim on: the latch is written before anything is changed.
  unfoldable pub claimed_work : RejoinPlan → Directory → Attempt → Observation → Host → Host × Flow
  unfolding save_attempt name_first doubt dispatch
  claimed_work p policy a o w =
      let b = in_phase (text "may_have_run") a in
      let (w1, e) = mark w (save_attempt m.lib (m.refuses w.log) w.disk b) in
      let (w2, o2, failed) = name_first p o w1 in
      elim e [
        | some f ↦ (w1, ended (some (marker f)))
        | none ↦ if failed then doubt b o2 name_review w2 else dispatch p policy b o2 w2
      ]

  -- StartRejoin on a reservation. A refusal is recorded, and whether that could be written is dropped.
  unfoldable pub claim : RejoinPlan → Attempt → Observation → Host → Host × Flow
  unfolding save_attempt claimed_work
  claim p a o w = elim (m.start w.log p) [
    | none ↦
        let w1 = note w (claimed p false) in
        let b = in_phase (text "unknown") a in
        ((mark w1 (save_attempt m.lib (m.refuses w1.log) w1.disk b)).0, ended (some not_started))
    | some policy ↦ claimed_work p policy a o (note w (claimed p true))
  ]

  -- The checks of the observation, the reservation, and what follows it.
  unfoldable pub reserve : RejoinPlan → Text → Observation → Host → Host × Flow
  unfolding start_refusal reserve_attempt claim
  reserve p fp o w =
      let a = first_attempt fp p o.boot in
      let (w1, e) = mark w (reserve_attempt m.lib (m.refuses w.log) w.disk a) in
      elim (start_refusal p o) [
        | some s ↦ (w, ended (some s))
        | none ↦ elim e [ some f ↦ (w1, ended (some (marker f))) | none ↦ claim p a o w1 ]
      ]

  -- The work where there is no marker.
  unfoldable pub start_work : RejoinPlan → Text → Host → Host × Flow
  unfolding reserve
  start_work p fp w =
      let (o, seen) = m.observe w.log p.dc in
      if not (p.phase =ᵗ text "ready")
      then (w, ended (some absent))
      else if not seen
      then (w, ended (some unobserved))
      else reserve p fp o w
