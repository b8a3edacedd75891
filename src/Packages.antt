-- ===== src/Packages.antt =====
-- internal/provider/software/software.go: the convergence of the package set. The backend, strings.ToLower
-- and strings.EqualFold are parameters; what the backend answers may depend on the actions so far.
pub mod Reports
use fog_agent.Prelude.{
  ◌⊎◌, inl, inr, Bool, true, false, not, ◌&&◌, ◌||◌, List, [], ◌∷◌, ◌++◌, Option, none, some, map,
  if◌then◌else◌, Text, text, ◌=ᵗ◌,
}
use fog_agent.Prelude.Int.{ℤ, pos, ◌=ℤ◌}
use fog_agent.Agent.Reconcile.Data.{Entry}

-- Action
pub data Action : Type 0 where
  no_action do_install do_upgrade do_uninstall : Action

-- Result
pub record Outcome : Type 0 where
  pub status : Text
  pub exit_code : ℤ
  pub details : Text

-- The actions that ran, the latest first.
abbrev pub Acts : Type 0
Acts = List (Action × Entry)

-- map[string]string
abbrev pub Installed : Type 0
Installed = Text → Option Text

-- Backend: the reason why it is missing, the list or its error, and the actions.
pub record Backend : Type 0 where
  pub missing : Option Text
  pub installed : Acts → Installed ⊎ Text
  pub act : Acts → Action → Entry → Outcome

-- Report, with the version from before the run.
pub record Report : Type 0 where
  pub entry : Entry
  pub action : Action
  pub status : Text
  pub installed_version : Text
  pub exit_code : ℤ
  pub details : Text
  pub before : Text

-- A key that is missing reads as the empty string.
abbrev pub read_or_empty : Option Text → Text
read_or_empty none = []
read_or_empty (some t) = t

module _ (lower : Text → Text) (equal_fold : Text → Text → Bool) where
  -- Decide, for a package that is there.
  unfoldable pub decide_present : Entry → Text → Action × Text
  decide_present e have =
      let is = e.package_name ++ text " " ++ have ++ text " is installed" in
      if e.version =ᵗ []
      then (no_action, is)
      else if e.version =ᵗ text "latest"
      then (do_upgrade, is ++ text "; tracking latest")
      else if equal_fold have e.version
      then (no_action, is ++ text " as pinned")
      else (do_install, is ++ text "; pinned to " ++ e.version)

  -- Decide
  unfoldable pub decide_package : Entry → Installed → Action × Text
  unfolding decide_present
  decide_package e installed =
      let have = installed (lower e.package_name) in
      if e.state =ᵗ text "absent"
      then elim have [
        | none ↦ (no_action, e.package_name ++ text " is absent")
        | some v ↦ (
          do_uninstall,
          e.package_name ++ text " " ++ v ++ text " is installed and should not be",
        )
      ]
      else elim have [
        | some v ↦ decide_present e v
        | none ↦
            if not (e.version =ᵗ []) && not (e.version =ᵗ text "latest")
            then (do_install, e.package_name ++ text " is not installed; want " ++ e.version)
            else (do_install, e.package_name ++ text " is not installed")
      ]

  abbrev pub status_of : Action → Text
  status_of no_action = text "converged"
  status_of do_install = text "installed"
  status_of do_upgrade = text "upgraded"
  status_of do_uninstall = text "removed"

  -- fill
  unfoldable pub fill_status : Action → Outcome → Text
  fill_status a r = if r.status =ᵗ [] then status_of a else r.status

  abbrev pub is_acting : Action → Bool
  is_acting no_action = false
  is_acting a = true

  -- One round of the loop.
  unfoldable pub converge_one : Backend → Installed → Entry → Acts → Acts × Report
  unfolding decide_package fill_status
  converge_one b installed e acts =
      let (action, why) = decide_package e installed in
      let before = read_or_empty (installed (lower e.package_name)) in
      let r = b.act acts action e in
      let still : Report = record {
        entry = e;
        action = action;
        status = status_of no_action;
        installed_version = [];
        exit_code = pos 0;
        details = why;
        before = before;
      } in
      if is_acting action
      then (
        (action, e) ∷ acts,
        record still {
          status = fill_status action r;
          exit_code = r.exit_code;
          details = r.details;
        },
      )
      else (acts, still)

  unfoldable pub converge_each : Backend → Installed → List Entry → Acts → Acts × List Report
  unfolding converge_one
  converge_each b installed [] acts = (acts, [])
  converge_each b installed (e ∷ es) acts =
      let (acts1, r) = converge_one b installed e acts in
      let (acts2, rs) = converge_each b installed es acts1 in (acts2, r ∷ rs)

  abbrev pub is_upgrade : Action → Bool
  is_upgrade do_upgrade = true
  is_upgrade a = false

  -- The version that the host ended with, and an upgrade that found nothing newer.
  unfoldable pub finish_report : Installed → Report → Report
  finish_report installed r =
      let version = read_or_empty (installed (lower r.entry.package_name)) in
      let r1 : Report = record r { installed_version = version } in
      let detail =
        r.entry.package_name
        ++ text " "
        ++ r.before
        ++ text " is the latest available"
        ++ 10 ∷ r.details in
      if is_upgrade r.action
        && (r.status =ᵗ status_of do_upgrade && (r.exit_code =ℤ pos 0 && version =ᵗ r.before))
      then record r1 { status = status_of no_action; details = detail }
      else r1

  abbrev pub cannot_run : Text → Entry → Report
  cannot_run why e = record {
    entry = e;
    action = no_action;
    status = text "cannot_run";
    installed_version = [];
    exit_code = pos 0;
    details = why;
    before = [];
  }

  -- The list that is read again when anything ran.
  unfoldable pub last_read : Backend → Installed → Acts → Installed
  last_read b installed [] = installed
  last_read b installed (a ∷ acts) = elim (b.installed (a ∷ acts)) [
    | inl after ↦ after
    | inr e ↦ installed
  ]

  -- Converge: the actions, and the reports.
  unfoldable pub converge_packages : Backend → List Entry → Acts × List Report
  unfolding converge_each finish_report last_read
  converge_packages b es = elim b.missing [
    | some why ↦ ([], map (cannot_run why) es)
    | none ↦ elim (b.installed []) [
      | inr e ↦ ([], map (cannot_run (text "installed list: " ++ e)) es)
      | inl installed ↦
          let (acts, reports) = converge_each b installed es [] in
          let last = last_read b installed acts in (acts, map (finish_report last) reports)
    ]
  ]
