-- ===== src/Agent/Reconcile/Keeps.antt =====
-- What no provider of a reconcile touches: the revision that is recorded as applied, the task that the
-- machine restarted for, the run of refusals, the updates that ran, and whether a reason for a task is outstanding.
use fog_agent.Prelude.{
  ◌≡◌, refl, inl, inr, Bool, true, false, List, [], ◌∷◌, ◌++◌, Text, text, ◌=ᵗ◌, arith, Bool-cases,
  Option-cases,
}
use fog_agent.Prelude.Int.{pos}
use fog_agent.Enroll.Data.{Config}
use fog_agent.Reboot.{Reason, mode_reboot}
use fog_agent.Wake.{Target}
use fog_agent.Agent.World.{
  Item, Request, Log, Agent, saved, told, ran, updated, acted, settled, reported, claimed, armed,
  disarmed, asked, applied, note,
}
use fog_agent.Agent.Coordinate.{source_task, has_task_reason}
use fog_agent.Agent.Reconcile.Data.{
  Machine, Result, Snapin, SnapinResult, Software, SoftwareReport, Printers, PrinterReport,
  WakeReport, Directory, DirectoryReport, OnDemand,
}
use fog_agent.Agent.Format.{decimal}
use fog_agent.Agent.Reconcile.Queues.{
  snapin_item, item_request, no_item, reason, tell, want_reboot, after_outcome, run_snapin,
  run_snapins, report_each, report_software, bootstrap, run_software, report_printer, run_printers,
  report_wake, run_wake, report_directory, run_directory, source_snapin, source_software,
  source_directory, printer_reports, line_request,
}
use fog_agent.Agent.Reconcile.{conclude, take_on_demand, cap_hostname, cap_activation, cap_power}
use fog_agent.Agent.Reconcile.Tasks.{task-merge}

-- The updates that ran.
abbrev pub updates : Log → List Config
updates [] = []
updates (updated c ∷ log) = c ∷ updates log
updates (saved c ∷ log) = updates log
updates (told r o ∷ log) = updates log
updates (ran n ∷ log) = updates log
updates (acted x ∷ log) = updates log
updates (settled ∷ log) = updates log
updates (reported s d ∷ log) = updates log
updates (claimed b ∷ log) = updates log
updates (armed n ∷ log) = updates log
updates (disarmed ∷ log) = updates log
updates (asked t d b ∷ log) = updates log

abbrev pub Keeps : Agent → Agent → Type 0
Keeps a b =
    (b.config.applied_revision ≡ a.config.applied_revision)
    × (b.config.applied_with ≡ a.config.applied_with)
    × (b.config.rebooted_for_task ≡ a.config.rebooted_for_task)
    × (b.config.unauthorized_since ≡ a.config.unauthorized_since)
    × (updates b.log ≡ updates a.log)

-- The same, and the reasons for a task too.
abbrev pub KeepsAll : Agent → Agent → Type 0
KeepsAll a b =
    Keeps a b × (has_task_reason b.config.pending_reboot ≡ has_task_reason a.config.pending_reboot)

-- No source of the providers is the one of the tasks.
snapin_other : (source_snapin =ᵗ source_task) ≡ false
unfolding source_snapin source_task ◌=ᵗ◌
snapin_other = refl

software_other : (source_software =ᵗ source_task) ≡ false
unfolding source_software source_task ◌=ᵗ◌
software_other = refl

directory_other : (source_directory =ᵗ source_task) ≡ false
unfolding source_directory source_task ◌=ᵗ◌
directory_other = refl

pub hostname_other : (cap_hostname =ᵗ source_task) ≡ false
unfolding cap_hostname source_task ◌=ᵗ◌
hostname_other = refl

pub activation_other : (cap_activation =ᵗ source_task) ≡ false
unfolding cap_activation source_task ◌=ᵗ◌
activation_other = refl

power_other : (cap_power =ᵗ source_task) ≡ false
unfolding cap_power source_task ◌=ᵗ◌
power_other = refl

module _ (m : Machine) where
  tell-KeepsAll : (r : Request) (a : Agent) → KeepsAll a (tell m r a).0
  unfolding tell
  tell-KeepsAll r a = ground arith

  want-KeepsAll :
      (r : Reason) (a : Agent) → (r.source =ᵗ source_task) ≡ false → KeepsAll a (want_reboot m r a)
  unfolding want_reboot
  want-KeepsAll r a h =
      ((refl, refl, refl, refl, refl), task-merge a.config.pending_reboot r (m.clock a.log) h)

  -- A reason of the snapins, and of the software.
  snapin-KeepsAll :
      (a b : Agent) (d mode : Text)
      → KeepsAll a b
      → KeepsAll a (want_reboot m (reason source_snapin d true mode) b)
  snapin-KeepsAll a b d mode h =
      let r = reason source_snapin d true mode in ground (arith, want-KeepsAll r b snapin_other)

  after-KeepsAll :
      (t : Snapin) (r : SnapinResult) (o : Text) (a : Agent)
      → KeepsAll a (after_outcome m t r o a).0
  unfolding after_outcome
  after-KeepsAll t r o a =
      let named = text "snapin " ++ m.quote t.name in
      let asked = named ++ text " asked for a reboot (exit " ++ decimal r.exit_code ++ text ")" in
      let a1 = want_reboot m (reason source_snapin asked true mode_reboot) a in
      let first = snapin-KeepsAll a a asked mode_reboot (ground arith) in
      ground (arith, first, snapin-KeepsAll a a named t.action, snapin-KeepsAll a a1 named t.action)

  run_snapin-KeepsAll : (t : Snapin) (a : Agent) → KeepsAll a (run_snapin m t a).0
  unfolding run_snapin
  run_snapin-KeepsAll t a =
      let r = m.run_snapin a.log t in
      let a1 = note a (ran t.id) in
      let q = item_request a1.config.applied_revision source_snapin (snapin_item m t r) in
      let a2 = (tell m q a1).0 in
      elim (Option-cases (tell m q a1).1) [
        | inl e ↦ ground (arith, tell-KeepsAll q a1)
        | inr (o, e) ↦ ground (arith, tell-KeepsAll q a1, after-KeepsAll t r o a2)
      ]

  pub run_snapins-KeepsAll : (ts : List Snapin) (a : Agent) → KeepsAll a (run_snapins m ts a).0
  unfolding run_snapins
  run_snapins-KeepsAll [] a = ground arith
  run_snapins-KeepsAll (t ∷ ts) a =
      let a1 = (run_snapin m t a).0 in
      ground (arith, run_snapin-KeepsAll t a, run_snapins-KeepsAll ts a1)

  report_each-KeepsAll {ℓ} :
      {A : Type ℓ} (send : A → Agent → Agent × Bool)
      → ((x : A) (a : Agent) → KeepsAll a (send x a).0)
      → (xs : List A) (a : Agent) → KeepsAll a (report_each send xs a).0
  report_each-KeepsAll send h [] a = ground arith
  report_each-KeepsAll send h (x ∷ xs) a =
      ground (arith, h x a, report_each-KeepsAll send h xs (send x a).0)

  report_software-KeepsAll :
      (rev : Text) (r : SoftwareReport) (a : Agent) → KeepsAll a (report_software m rev r a).0
  unfolding report_software
  report_software-KeepsAll rev r a =
      let item : Item = record {
        id = r.entry.id;
        status = r.status;
        exit_code = r.exit_code;
        installed_version = r.installed_version;
        packets = pos 0;
        details = r.details;
      } in
      let q = item_request rev source_software item in
      let why =
        r.entry.package_name
        ++ text " asked for a reboot (exit "
        ++ decimal r.exit_code
        ++ text ")" in
      ground (
        arith,
        tell-KeepsAll q a,
        want-KeepsAll (reason source_software why false mode_reboot) (tell m q a).0 software_other,
      )

  bootstrap-KeepsAll : (rev : Text) (p : Software) (a : Agent) → KeepsAll a (bootstrap m rev p a).0
  unfolding bootstrap tell
  bootstrap-KeepsAll rev p a = ground arith

  pub run_software-KeepsAll :
      (rev : Text) (p : Software) (a : Agent) → KeepsAll a (run_software m rev p a).0
  unfolding run_software
  run_software-KeepsAll rev p a =
      let a1 = (bootstrap m rev p a).0 in
      ground (
        arith,
        bootstrap-KeepsAll rev p a,
        report_each-KeepsAll (report_software m rev) (report_software-KeepsAll rev)
            (m.converge_software a1.log p.entries) a1,
      )

  report_printer-KeepsAll :
      (rev : Text) (r : PrinterReport) (a : Agent) → KeepsAll a (report_printer m rev r a).0
  unfolding report_printer tell
  report_printer-KeepsAll rev r a = ground arith

  pub run_printers-KeepsAll :
      (rev : Text) (p : Printers) (a : Agent) → KeepsAll a (run_printers m rev p a).0
  unfolding run_printers
  run_printers-KeepsAll rev p a = ground (
    arith,
    report_each-KeepsAll (report_printer m rev) (report_printer-KeepsAll rev)
        (printer_reports m p a) a,
  )

  report_wake-KeepsAll :
      (rev : Text) (r : WakeReport) (a : Agent) → KeepsAll a (report_wake m rev r a).0
  unfolding report_wake tell
  report_wake-KeepsAll rev r a = ground arith

  pub run_wake-KeepsAll :
      (rev : Text) (ts : List Target) (a : Agent) → KeepsAll a (run_wake m rev ts a).0
  unfolding run_wake
  run_wake-KeepsAll rev ts a = ground (
    arith,
    report_each-KeepsAll (report_wake m rev) (report_wake-KeepsAll rev) (m.relay a.log ts) a,
  )

  report_directory-KeepsAll :
      (rev : Text) (r : DirectoryReport) (a : Agent) → KeepsAll a (report_directory m rev r a).0
  unfolding report_directory
  report_directory-KeepsAll rev r a =
      let q =
        item_request rev source_directory
          (record (no_item a.config.host_id r.status) { details = r.error }) in
      let a1 = (tell m q a).0 in
      let why =
        reason source_directory (text "joined a domain; a restart finishes it") r.force
          mode_reboot in
      ground (
        arith,
        tell-KeepsAll q a,
        want-KeepsAll why a1 directory_other,
        want-KeepsAll why (record a1 { config = record a1.config { facts_checked = 0 } })
            directory_other,
      )

  pub run_directory-KeepsAll :
      (rev : Text) (p : Directory) (a : Agent) → KeepsAll a (run_directory m rev p a).0
  unfolding run_directory
  run_directory-KeepsAll rev p a =
      let unread : DirectoryReport = record {
        status = text "unsupported";
        error = text "the machine's directory membership could not be read; nothing was attempted";
        detail = [];
        reboot = false;
        force = false;
      } in
      let found = m.converge_directory a.log p in
      elim (Bool-cases (m.membership_read a.log)) [
        | inl e ↦ ground (arith, report_directory-KeepsAll rev found a)
        | inr e ↦ ground (arith, report_directory-KeepsAll rev unread a)
      ]

  pub conclude-KeepsAll :
      (rev c : Text) (force : Bool) (r : Result) (a : Agent)
      → (c =ᵗ source_task) ≡ false
      → KeepsAll a (conclude m rev c force r a).0
  unfolding conclude
  conclude-KeepsAll rev c force r a h =
      let q = line_request rev c r.status r.detail in
      ground (arith, tell-KeepsAll q a, want-KeepsAll (reason c r.detail force []) (tell m q a).0 h)

  pub take_on_demand-KeepsAll :
      (rev : Text) (ods : List OnDemand) (a : Agent) → KeepsAll a (take_on_demand m rev ods a).0
  unfolding take_on_demand
  take_on_demand-KeepsAll rev [] a = ground arith
  take_on_demand-KeepsAll rev (od ∷ ods) a =
      let r = reason cap_power (text "on-demand " ++ od.action) true od.action in
      let a1 = want_reboot m r a in
      let detail =
        text "on-demand " ++ od.action ++ text " accepted (id " ++ decimal od.id ++ text ")" in
      let q = line_request rev cap_power applied detail in
      ground (
        arith,
        want-KeepsAll r a power_other,
        tell-KeepsAll q a1,
        take_on_demand-KeepsAll rev ods (tell m q a1).0,
      )
