-- ===== src/Rejoin/Process.antt =====
-- cmd/fog-agent/directory_rejoin.go, processRejoin: one poll's work on a rejoin. The lines that are
-- printed and the zeroing of the credential are left out.
pub mod Stuck
pub mod Quiet
pub mod Latched
pub mod Verified
use fog_agent.Prelude.{
  ℕ, Bool, true, false, not, ◌&&◌, ◌||◌, List, [], ◌∷◌, Option, none, some, if◌then◌else◌, ◌==◌,
  Text, text, ◌=ᵗ◌,
}
use fog_agent.Prelude.Int.{ℤ, pos, ◌=ℤ◌}
use fog_agent.Enroll.Data.{Config}
use fog_agent.Reboot.{Reason, merge, drop_source, mode_reboot}
use fog_agent.Agent.Coordinate.{source_rejoin}
use fog_agent.Agent.Reconcile.Data.{Directory}
use fog_agent.Agent.Reconcile.Queues.{reason}
use fog_agent.Rejoin.Data.{RejoinPlan, Boot, Observation, Attempt, Library}
use fog_agent.Rejoin.Valid.{is_operation, is_member, validate, validate_rename_plan, new_boot}
use fog_agent.Rejoin.Marker.{
  Failure, unsafe_retry, load_attempt, reserve_attempt, save_attempt, archive_verified_attempt,
  validate_reserved_retry, remove_attempt_for_retry,
}
use fog_agent.Rejoin.World.{
  Native, rename, join, rebind, Report, told, claimed, named, called, saved, Host, Stop, marker,
  invalid, no_fingerprint, unconfirmed, bad_rename, unresolved, absent, unobserved, bad_role,
  domain_mismatch, names_changed, pending_conflict, not_started, name_review, outcome_review,
  unsaved, unreported, another_identity, replay_stopped, unhealthy, restart_not_recorded, Machine,
  note, mark,
}
use fog_agent.Rejoin.Dispatch.{
  flow_of, no_observation, first_attempt, in_phase, secure_word, native_of, save_config,
  rejoin_report, clearing, forget_history, retire, start_refusal, doubt, name_first, finish,
  dispatch, claimed_work, claim, reserve, start_work, Flow, on, bare, ended,
}

module _ (m : Machine) where
  -- The machine is as the plan wants it.
  unfoldable pub is_healthy : Attempt → Observation → Bool
  is_healthy a o =
      o.secure_channel =ᵗ text "true"
      && m.lib.equal_fold o.current_name a.plan.name
      && m.lib.equal_fold o.pending_name a.plan.name
      && (m.lib.equal_fold o.domain a.plan.domain || m.lib.equal_fold o.netbios a.plan.domain)
      && is_member m.lib o.role

  -- The case of a new boot, once the machine is found healthy.
  unfoldable pub verify_boot : Attempt → Observation → Host → Host × Option Stop
  unfolding rejoin_report save_attempt save_config
  verify_boot a o w =
      let b = in_phase (text "verified") a in
      let (w1, r) = rejoin_report m a (text "verified") o true w in
      let (w2, e) = mark w1 (save_attempt m.lib (m.refuses w1.log) w1.disk b) in
      let w3 : Host = record w2 {
        config = record w2.config {
          facts_checked = 0;
          pending_reboot = drop_source w2.config.pending_reboot source_rejoin;
        };
      } in
      elim r [
        | some s ↦ (w1, some s)
        | none ↦ elim e [ some f ↦ (w2, some (marker f)) | none ↦ save_config m w3 ]
      ]

  abbrev pub is_empty_list {ℓ} : {A : Type ℓ} → List A → Bool
  is_empty_list [] = true
  is_empty_list (x ∷ xs) = false

  -- What follows the report of a restart that is awaited.
  unfoldable pub check_boot : Attempt → Observation → Host → Host × Option Stop
  unfolding is_healthy verify_boot new_boot
  check_boot a o w =
      if new_boot a.before_boot o.boot
      then (if is_healthy a o then verify_boot a o w else (w, some unhealthy))
      else if not a.reboot_requested && is_empty_list w.config.pending_reboot
      then (w, some restart_not_recorded)
      else (w, none)

  -- The case "awaiting_reboot".
  unfoldable pub confirm : RejoinPlan → Attempt → Host → Host × Option Stop
  unfolding rejoin_report check_boot
  confirm p a w =
      let (o, seen) = m.observe w.log a.plan.dc in
      let (w1, r) = rejoin_report m a (text "awaiting_reboot") o false w in
      if not seen
      then (w, some unobserved)
      else if p.phase =ᵗ text "verified"
      then check_boot a o w
      else elim r [ some s ↦ (w1, some s) | none ↦ check_boot a o w1 ]

  -- From the test of the marker's identity on.
  unfoldable pub conclude : RejoinPlan → Text → Attempt → Host → Host × Option Stop
  unfolding rejoin_report save_config confirm
  conclude p fp a w =
      if not (a.fingerprint =ᵗ fp) || not (a.plan.host_id =ℤ w.config.host_id)
      then (w, some another_identity)
      else if a.phase =ᵗ text "reserved"
          || a.phase =ᵗ text "may_have_run"
          || a.phase =ᵗ text "unknown"
      then ((rejoin_report m a (text "unknown") no_observation false w).0, some replay_stopped)
      else if a.phase =ᵗ text "failed"
      then rejoin_report m a (text "failed") no_observation false w
      else if a.phase =ᵗ text "verified"
      then save_config m w
      else if a.phase =ᵗ text "awaiting_reboot"
      then confirm p a w
      else (w, none)

  abbrev pub conclude_flow : RejoinPlan → Text → Host × Flow → Host × Option Stop
  conclude_flow p fp (w, on a) = conclude p fp a w
  conclude_flow p fp (w, bare) = (w, none)
  conclude_flow p fp (w, ended r) = (w, r)

  -- `if a == nil` with its body
  unfoldable pub begin : RejoinPlan → Text → Host × Flow → Host × Option Stop
  unfolding start_work conclude
  begin p fp (w, on a) = conclude p fp a w
  begin p fp (w, bare) = conclude_flow p fp (start_work m p fp w)
  begin p fp (w, ended r) = (w, r)

  -- From the fingerprint for the plan on.
  unfoldable pub from_plan : RejoinPlan → Option Attempt → Host → Host × Option Stop
  unfolding retire begin
  from_plan p a w = elim m.fingerprint [
    | none ↦ (w, some no_fingerprint)
    | some fp ↦ elim a [ none ↦ begin p fp (w, bare) | some x ↦ begin p fp (retire m p fp x w) ]
  ]

  -- What refuses a plan.
  unfoldable pub plan_refusal : RejoinPlan → ℤ → Option Stop
  unfolding validate validate_rename_plan
  plan_refusal p host = elim (validate m.lib host p) [
    | some e ↦ some (invalid e)
    | none ↦
        if is_operation (text "rename") p
          && p.phase =ᵗ text "ready"
          && not (validate_rename_plan m.lib p)
        then some bad_rename
        else none
  ]

  -- From a plan that is given on.
  unfoldable pub with_plan : RejoinPlan → Option Attempt → Host → Host × Option Stop
  unfolding plan_refusal from_plan
  with_plan p a w =
      if p.phase =ᵗ text "blocked"
      then (w, none)
      else elim (plan_refusal p w.config.host_id) [ some s ↦ (w, some s) | none ↦ from_plan p a w ]

  abbrev pub is_over : Option Attempt → Bool
  is_over none = true
  is_over (some a) = a.phase =ᵗ text "verified"

  abbrev pub with_marker : Option RejoinPlan → Option Attempt → Host → Host × Option Stop
  with_marker none a w = (w, if is_over a then none else some unconfirmed)
  with_marker (some p) a w = with_plan p a w

  abbrev pub after_history : Option RejoinPlan → Host × Flow → Host × Option Stop
  after_history p (w, on a) = with_marker p (some a) w
  after_history p (w, bare) = with_marker p none w
  after_history p (w, ended r) = (w, r)

  -- processRejoin
  unfoldable pub process_rejoin : Option RejoinPlan → Host → Host × Option Stop
  unfolding load_attempt forget_history with_plan
  process_rejoin p w =
      let (a, e) = load_attempt m.lib (m.refuses w.log) w.disk in
      elim e [ some f ↦ (w, some (marker f)) | none ↦ after_history p (forget_history m a w) ]
