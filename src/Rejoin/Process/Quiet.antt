-- ===== src/Rejoin/Process/Quiet.antt =====
-- The parts of a poll that leave the machine alone, and how often the others change it.
use fog_agent.Prelude.{
  ◌≡◌, refl, ◌⊎◌, inl, inr, Bool, true, false, ℕ, ◌∷◌, Option, none, some, Option-cases, Text, text,
  ◌==◌, if◌then◌else◌, arith,
}
use fog_agent.Reboot.{drop_source, merge, mode_reboot}
use fog_agent.Agent.Coordinate.{source_rejoin}
use fog_agent.Agent.Reconcile.Queues.{reason}
use fog_agent.Agent.Reconcile.Data.{Directory}
use fog_agent.Rejoin.Data.{RejoinPlan, Observation, Attempt}
use fog_agent.Rejoin.Marker.{
  Disk, Failure, save_attempt, archive_verified_attempt, remove_attempt_for_retry,
}
use fog_agent.Rejoin.World.{Host, Stop, Machine, note, called, kept, mark, outcome_review}
use fog_agent.Rejoin.Dispatch.{
  no_observation, in_phase, native_of, clearing, rejoin_report, save_config, forget_history, retire,
  doubt, name_first, finish, dispatch,
}
use fog_agent.Rejoin.Process.{verify_boot, check_boot, confirm, conclude}
use fog_agent.Rejoin.Process.Stuck.{changes, of_name, of_account}

abbrev pub IsQuiet : Host → Host → Type 0
IsQuiet w w' = changes w'.log ≡ changes w.log

module _ (m : Machine) where
  pub rejoin_report-IsQuiet :
      (a : Attempt) (phase : Text) (o : Observation) (boot : Bool) (w : Host)
      → IsQuiet w (rejoin_report m a phase o boot w).0
  unfolding rejoin_report
  rejoin_report-IsQuiet a phase o boot w = ground arith

  pub save_config-IsQuiet : (w : Host) → IsQuiet w (save_config m w).0
  unfolding save_config
  save_config-IsQuiet w = ground arith

  pub doubt-IsQuiet :
      (a : Attempt) (o : Observation) (why : Stop) (w : Host) → IsQuiet w (doubt m a o why w).0
  unfolding doubt
  doubt-IsQuiet a o why w =
      let b = in_phase (text "unknown") a in
      let (d, e) = save_attempt m.lib (m.refuses w.log) w.disk b in
      let w1 : Host = record w { disk = d; log = kept d ∷ w.log } in
      ground (arith, rejoin_report-IsQuiet b (text "unknown") o false w1)

  pub verify_boot-IsQuiet :
      (a : Attempt) (o : Observation) (w : Host) → IsQuiet w (verify_boot m a o w).0
  unfolding verify_boot
  verify_boot-IsQuiet a o w =
      let b = in_phase (text "verified") a in
      let w1 = (rejoin_report m a (text "verified") o true w).0 in
      let w2 = (mark w1 (save_attempt m.lib (m.refuses w1.log) w1.disk b)).0 in
      let w3 : Host = record w2 {
        config = record w2.config {
          facts_checked = 0;
          pending_reboot = drop_source w2.config.pending_reboot source_rejoin;
        };
      } in
      ground (arith, rejoin_report-IsQuiet a (text "verified") o true w, save_config-IsQuiet w3)

  pub check_boot-IsQuiet :
      (a : Attempt) (o : Observation) (w : Host) → IsQuiet w (check_boot m a o w).0
  unfolding check_boot
  check_boot-IsQuiet a o w = ground (arith, verify_boot-IsQuiet a o w)

  pub confirm-IsQuiet : (p : RejoinPlan) (a : Attempt) (w : Host) → IsQuiet w (confirm m p a w).0
  unfolding confirm
  confirm-IsQuiet p a w =
      let o = (m.observe w.log a.plan.dc).0 in
      let w1 = (rejoin_report m a (text "awaiting_reboot") o false w).0 in
      ground (
        arith,
        rejoin_report-IsQuiet a (text "awaiting_reboot") o false w,
        check_boot-IsQuiet a o w,
        check_boot-IsQuiet a o w1,
      )

  pub conclude-IsQuiet :
      (p : RejoinPlan) (fp : Text) (a : Attempt) (w : Host) → IsQuiet w (conclude m p fp a w).0
  unfolding conclude
  conclude-IsQuiet p fp a w = ground (
    arith,
    rejoin_report-IsQuiet a (text "unknown") no_observation false w,
    rejoin_report-IsQuiet a (text "failed") no_observation false w,
    save_config-IsQuiet w,
    confirm-IsQuiet p a w,
  )

  pub clearing-IsQuiet :
      (w : Host) (r : Disk × Option Failure) → IsQuiet w (clearing m (mark w r)).0
  unfolding clearing
  clearing-IsQuiet w (d, none) = refl
  clearing-IsQuiet w (d, some e) = refl

  pub retire-IsQuiet :
      (p : RejoinPlan) (fp : Text) (a : Attempt) (w : Host) → IsQuiet w (retire m p fp a w).0
  unfolding retire
  retire-IsQuiet p fp a w =
      let refuses = m.refuses w.log in
      ground (
        arith,
        clearing-IsQuiet w (archive_verified_attempt m.lib refuses w.disk a),
        clearing-IsQuiet w (remove_attempt_for_retry m.lib refuses w.disk a p w.config.host_id fp),
      )

  pub forget_history-IsQuiet : (a : Option Attempt) (w : Host) → IsQuiet w (forget_history m a w).0
  unfolding forget_history
  forget_history-IsQuiet none w = refl
  forget_history-IsQuiet (some a) w =
      ground (arith, clearing-IsQuiet w (archive_verified_attempt m.lib (m.refuses w.log) w.disk a))

  pub finish-IsQuiet :
      (policy : Directory) (a : Attempt) (o : Observation) (code : ℕ) (w : Host)
      → IsQuiet w (finish m policy a o code w).0
  unfolding finish
  finish-IsQuiet policy a o code w =
      let b : Attempt = record a {
        native_status = some code;
        phase = if code == 0 then text "awaiting_reboot" else text "failed";
      } in
      let w1 = (mark w (save_attempt m.lib (m.refuses w.log) w.disk b)).0 in
      let asked =
        reason source_rejoin (text "directory rejoin needs a Windows restart") policy.reboot
          mode_reboot in
      let w2 : Host = record w1 {
        config = record w1.config {
          pending_reboot = merge w1.config.pending_reboot asked (m.clock w1.log);
          facts_checked = 0;
        };
      } in
      ground (arith, rejoin_report-IsQuiet b (text "failed") o false w1, save_config-IsQuiet w2)

  pub changes-dispatch :
      (p : RejoinPlan) (policy : Directory) (a : Attempt) (o : Observation) (w : Host)
      → changes (dispatch m p policy a o w).0.log ≡ of_account w.disk ∷ changes w.log
  unfolding dispatch
  changes-dispatch p policy a o w =
      let w1 = note w (called w.disk (native_of p) p) in
      elim (Option-cases (m.native w.log (native_of p) policy p)) [
        | inl e ↦ ground (arith, e, doubt-IsQuiet a o outcome_review w1)
        | inr (code, e) ↦ ground (arith, e, finish-IsQuiet policy a o code w1)
      ]

  pub name_first-changes :
      (p : RejoinPlan) (o : Observation) (w : Host)
      → let w' = (name_first m p o w).0 in
        (w'.disk ≡ w.disk)
        × ((changes w'.log ≡ changes w.log) ⊎ (changes w'.log ≡ of_name w.disk ∷ changes w.log))
  unfolding name_first
  name_first-changes p o w = ground arith
