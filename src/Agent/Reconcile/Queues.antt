-- ===== src/Agent/Reconcile/Queues.antt =====
-- cmd/fog-agent/main.go: what a reconcile does for the capabilities that report one thing after
-- another. The lines that are printed are left out.
use fog_agent.Prelude.{
  Bool, true, false, not, ◌&&◌, ◌||◌, List, [], ◌∷◌, ◌++◌, map, Option, none, some, if◌then◌else◌,
  leb, length, take, all, Text, text, ◌=ᵗ◌,
}
use fog_agent.Prelude.Int.{ℤ, pos}
use fog_agent.Reboot.{Reason, merge, mode_reboot}
use fog_agent.Wake.{Target}
use fog_agent.Agent.World.{Status, applied, failed, Item, Request, told, ran, Agent, note}
use fog_agent.Agent.Format.{decimal}
use fog_agent.Agent.Reconcile.Data.{
  Snapin, SnapinResult, Software, SoftwareReport, Printers, PrinterReport, WakeReport, Directory,
  DirectoryReport, Machine,
}

unfoldable pub is_empty : Text → Bool
is_empty t = t =ᵗ []

abbrev pub reason : Text → Text → Bool → Text → Reason
reason source detail force mode = record {
  source = source;
  detail = detail;
  force = force;
  since = 0;
  task_id = pos 0;
  mode = mode;
}

abbrev pub no_item : ℤ → Text → Item
no_item id status = record {
  id = id;
  status = status;
  exit_code = pos 0;
  installed_version = [];
  packets = pos 0;
  details = [];
}

-- Status and detail without an item, and an item without a detail.
abbrev pub line_request : Text → Text → Status → Text → Request
line_request revision capability status detail = record {
  revision = revision;
  capability = capability;
  status = status;
  detail = detail;
  item = none;
}

abbrev pub item_request : Text → Text → Item → Request
item_request revision capability item = record {
  revision = revision;
  capability = capability;
  status = applied;
  detail = [];
  item = some item;
}

unfoldable pub outcome_retry : Text
outcome_retry = text "retry"

unfoldable pub outcome_reboot : Text
outcome_reboot = text "reboot"

unfoldable pub outcome_failed : Text
outcome_failed = text "failed"

unfoldable pub status_cannot_run : Text
status_cannot_run = text "cannot_run"

unfoldable pub source_snapin : Text
source_snapin = text "snapin"

unfoldable pub source_software : Text
source_software = text "software"

unfoldable pub source_directory : Text
source_directory = text "directory"

-- printerset.Unsupported, with its truncate; 255 is MaxError.
abbrev pub is_off : Text → Bool
is_off manage = manage =ᵗ text "off" || is_empty manage

abbrev pub truncate : (Text → Text) → Text → Text
truncate trim s = if leb (length (trim s)) 255 then trim s else take 255 (trim s)

unfoldable pub unsupported : (Text → Text) → Printers → Text → List PrinterReport
unsupported trim policy why =
    if is_off policy.manage
    then []
    else map
        (λ p. record {
          printer = p;
          status = text "unsupported";
          error = truncate trim why;
          detail = why;
        })
        policy.printers

-- Every report is sent, whatever became of the one before.
abbrev pub report_each {ℓ} :
    {A : Type ℓ} → (A → Agent → Agent × Bool) → List A → Agent → Agent × Bool
report_each send [] a = (a, true)
report_each send (r ∷ rs) a =
    let (a1, ok) = send r a in let (a2, rest) = report_each send rs a1 in (a2, ok && rest)

module _ (m : Machine) where
  unfoldable pub tell : Request → Agent → Agent × Option Text
  tell r a = let o = m.answer a.log r in (note a (told r o), o)

  -- A reason handed to the coordinator.
  unfoldable pub want_reboot : Reason → Agent → Agent
  want_reboot r a = record a {
    config = record a.config { pending_reboot = merge a.config.pending_reboot r (m.clock a.log) };
  }

  -- runSnapins
  unfoldable pub snapin_item : Snapin → SnapinResult → Item
  snapin_item t r = record {
    id = t.id;
    status = r.status;
    exit_code = r.exit_code;
    installed_version = [];
    packets = pos 0;
    details = r.details;
  }

  -- The switch on the outcome, and the task's own action: whether the queue goes on, and the value that
  -- ends it if it does not.
  unfoldable pub after_outcome : Snapin → SnapinResult → Text → Agent → Agent × Option Bool
  unfolding want_reboot
  after_outcome t r outcome a =
      let named = text "snapin " ++ m.quote t.name in
      let asked =
        reason source_snapin
          (named ++ text " asked for a reboot (exit " ++ decimal r.exit_code ++ text ")") true
          mode_reboot in
      let a1 = if outcome =ᵗ outcome_reboot then want_reboot asked a else a in
      let a2 =
        if is_empty t.action
        then a1
        else want_reboot (reason source_snapin named true t.action) a1 in
      if outcome =ᵗ outcome_retry
      then (a, some false)
      else if outcome =ᵗ outcome_failed && t.abort_on_fail
      then (a, some true)
      else (a2, none)

  -- One round: the state, and the result that ends the queue here.
  unfoldable pub run_snapin : Snapin → Agent → Agent × Option Bool
  unfolding tell snapin_item after_outcome
  run_snapin t a =
      let r = m.run_snapin a.log t in
      let a1 = note a (ran t.id) in
      if not r.fetched
      then (a1, some false)
      else let request = item_request a1.config.applied_revision source_snapin (snapin_item t r) in
        let (a2, answer) = tell request a1 in
        elim answer [ none ↦ (a2, some false) | some outcome ↦ after_outcome t r outcome a2 ]

  unfoldable pub run_snapins : List Snapin → Agent → Agent × Bool
  unfolding run_snapin
  run_snapins [] a = (a, true)
  run_snapins (t ∷ ts) a =
      let (a1, stop) = run_snapin t a in
      let rest = run_snapins ts a1 in elim stop [ none ↦ rest | some ok ↦ (a1, ok) ]

  -- The loop over the reports of runSoftware.
  unfoldable pub report_software : Text → SoftwareReport → Agent → Agent × Bool
  unfolding tell want_reboot
  report_software revision r a =
      let item : Item = record {
        id = r.entry.id;
        status = r.status;
        exit_code = r.exit_code;
        installed_version = r.installed_version;
        packets = pos 0;
        details = r.details;
      } in
      let (a1, answer) = tell (item_request revision source_software item) a in
      let why =
        r.entry.package_name
        ++ text " asked for a reboot (exit "
        ++ decimal r.exit_code
        ++ text ")" in
      elim answer [
        | none ↦ (a1, false)
        | some outcome ↦ (
          if outcome =ᵗ outcome_reboot
              then want_reboot (reason source_software why false mode_reboot) a1
              else a1,
          true,
        )
      ]

  -- The bootstrap of runSoftware: whether it failed.
  unfoldable pub bootstrap : Text → Software → Agent → Agent × Bool
  unfolding tell
  bootstrap revision policy a =
      if m.choco_available a.log || is_empty policy.bootstrap_url
      then (a, false)
      else let (tail, error) = m.install_choco a.log policy.bootstrap_url policy.nupkg_url in
        elim error [
          | none ↦
              let detail = text "Chocolatey bootstrap: installed from " ++ policy.bootstrap_url in
              ((tell (line_request revision source_software applied detail) a).0, false)
          | some e ↦
              let detail = text "Chocolatey bootstrap failed: " ++ e ++ 10 ∷ tail in
              ((tell (line_request revision source_software failed detail) a).0, true)
        ]

  abbrev pub is_blocked : List SoftwareReport → Bool
  is_blocked [] = false
  is_blocked (r ∷ rs) = all (λ r. r.status =ᵗ status_cannot_run) (r ∷ rs)

  unfoldable pub run_software : Text → Software → Agent → Agent × Bool
  unfolding bootstrap report_software
  run_software revision policy a =
      let (a1, bootstrap_failed) = bootstrap revision policy a in
      let reports = m.converge_software a1.log policy.entries in
      let (a2, ok) = report_each (report_software revision) reports a1 in
      let blocked = is_blocked reports && not bootstrap_failed in
      (
        record a2 {
          config = record a2.config {
            software_checked = m.clock a2.log;
            software_blocked = blocked;
          };
        },
        ok,
      )

  -- The two ways nothing can be attempted, and the convergence.
  unfoldable pub printer_reports : Printers → Agent → List PrinterReport
  unfolding unsupported
  printer_reports policy a =
      if not (m.printers_read a.log)
      then unsupported m.trim policy
          (text "the installed printers could not be read; nothing was changed")
      else elim (m.printers_missing a.log) [
        | some why ↦ unsupported m.trim policy why
        | none ↦ m.converge_printers a.log policy
      ]

  unfoldable pub report_printer : Text → PrinterReport → Agent → Agent × Bool
  unfolding tell
  report_printer revision r a =
      let item : Item = record (no_item r.printer.id r.status) { details = r.error } in
      let (a1, answer) = tell (item_request revision (text "printers") item) a in
      (a1, elim answer [ none ↦ false | some outcome ↦ true ])

  unfoldable pub run_printers : Text → Printers → Agent → Agent × Bool
  unfolding printer_reports report_printer
  run_printers revision policy a =
      if not a.config.printers_managed
      then (a, true)
      else let (a1, ok) = report_each (report_printer revision) (printer_reports policy a) a in
        (record a1 { config = record a1.config { printers_checked = m.clock a1.log } }, ok)

  unfoldable pub report_wake : Text → WakeReport → Agent → Agent × Bool
  unfolding tell
  report_wake revision r a =
      let item : Item = record (no_item r.id r.status) {
        packets = r.packets;
        details = r.detail;
      } in
      let (a1, answer) = tell (item_request revision (text "wake") item) a in
      (a1, elim answer [ none ↦ false | some outcome ↦ true ])

  unfoldable pub run_wake : Text → List Target → Agent → Agent × Bool
  unfolding report_wake
  run_wake revision targets a =
      if not (m.has_sender a.log)
      then (a, false)
      else report_each (report_wake revision) (m.relay a.log targets) a

  -- The statuses after which the facts that were sent are stale.
  abbrev pub changes_membership : Text → Bool
  changes_membership status =
      status =ᵗ text "joined" || (status =ᵗ text "already_joined" || status =ᵗ text "renamed")

  unfoldable pub report_directory : Text → DirectoryReport → Agent → Agent × Bool
  unfolding tell want_reboot
  report_directory revision r a =
      let item : Item = record (no_item a.config.host_id r.status) { details = r.error } in
      let (a1, answer) = tell (item_request revision source_directory item) a in
      let a2 =
        if changes_membership r.status
        then record a1 { config = record a1.config { facts_checked = 0 } }
        else a1 in
      let why =
        reason source_directory (text "joined a domain; a restart finishes it") r.force
          mode_reboot in
      elim answer [
        | none ↦ (a1, false)
        | some outcome ↦ (if r.reboot then want_reboot why a2 else a2, true)
      ]

  unfoldable pub run_directory : Text → Directory → Agent → Agent × Bool
  unfolding report_directory
  run_directory revision policy a =
      let unread : DirectoryReport = record {
        status = text "unsupported";
        error = text "the machine's directory membership could not be read; nothing was attempted";
        detail = [];
        reboot = false;
        force = false;
      } in
      if not (m.membership_read a.log)
      then report_directory revision unread a
      else report_directory revision (m.converge_directory a.log policy) a
