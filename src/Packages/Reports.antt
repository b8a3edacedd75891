-- ===== src/Packages/Reports.antt =====
-- One report for each entry, and the actions that the entries ask for, in their order.
use mathlib.Core.Path.{subst}
use fog_agent.Prelude.{
  ◌≡◌, refl, sym, ◌∙◌, ◌⊎◌, inl, inr, Bool, true, false, Bool-cases, List, [], ◌∷◌, ◌++◌, Option,
  none, some, map, ◌=ᵗ◌, text_eq→eq, if◌then◌else◌, Text, text, arith, Option-cases,
}
use fog_agent.Agent.Reconcile.Data.{Entry}
use fog_agent.Packages.{
  Action, no_action, do_install, do_upgrade, do_uninstall, decide_present, Acts, Installed, Backend,
  Report, decide_package, is_acting, converge_one, converge_each, finish_report, cannot_run,
  converge_packages, last_read,
}

Sum-cases : {A B : Type 0} (s : A ⊎ B) → ((a : A) × (s ≡ inl a)) ⊎ ((b : B) × (s ≡ inr b))
Sum-cases (inl a) = inl (a, refl)
Sum-cases (inr b) = inr (b, refl)

module _ (lower : Text → Text) (equal_fold : Text → Text → Bool) where
  -- When the rule asks for an action on an entry, with what is known of its package: a package that is
  -- not to be there is removed, one that is missing is installed, one that tracks the latest version is
  -- upgraded, and one that is pinned to another version is installed in that version.
  abbrev pub IsNeeded : Entry → Option Text → Action → Type 0
  IsNeeded e there no_action = ⊥
  IsNeeded e there do_uninstall =
      ((e.state =ᵗ text "absent") ≡ true) × ((have : Text) × (there ≡ some have))
  IsNeeded e there do_upgrade =
      ((e.state =ᵗ text "absent") ≡ false)
      × ((e.version =ᵗ text "latest") ≡ true)
      × ((have : Text) × (there ≡ some have))
  IsNeeded e there do_install =
      ((e.state =ᵗ text "absent") ≡ false)
      × ((there ≡ none)
          ⊎ (((e.version =ᵗ []) ≡ false)
              × ((e.version =ᵗ text "latest") ≡ false)
              × ((have : Text) × (there ≡ some have) × (equal_fold have e.version ≡ false))))

  -- From the actions `acts` on the entries lead to `out`: each entry for which an action is needed adds
  -- it, the latest first, and one for which none is adds nothing.
  pub data Runs (installed : Installed) : List Entry → Acts → Acts → Type 0 where
    over : {acts : Acts} → Runs installed [] acts acts
    acts_on :
        {e : Entry} {es : List Entry} {acts out : Acts} (a : Action)
        → IsNeeded e (installed (lower e.package_name)) a
        → Runs installed es ((a, e) ∷ acts) out
        → Runs installed (e ∷ es) acts out
    leaves :
        {e : Entry} {es : List Entry} {acts out : Acts}
        → ((a : Action) → ¬ IsNeeded e (installed (lower e.package_name)) a)
        → Runs installed es acts out
        → Runs installed (e ∷ es) acts out

  -- What the decision says of the need.
  abbrev Decides : Entry → Option Text → Action → Type 0
  Decides e there no_action = (a : Action) → ¬ IsNeeded e there a
  Decides e there do_install = IsNeeded e there do_install
  Decides e there do_upgrade = IsNeeded e there do_upgrade
  Decides e there do_uninstall = IsNeeded e there do_uninstall

  not_both : (t : Text) → (t =ᵗ []) ≡ true → (t =ᵗ text "latest") ≡ true → ⊥
  not_both t a b =
      let e : [] ≡ text "latest" = sym (text_eq→eq t [] a) ∙ text_eq→eq t (text "latest") b in
      absurd (cc)

  none_absent :
      (e : Entry) (there : Option Text) (a : Action)
      → (e.state =ᵗ text "absent") ≡ true
      → there ≡ none
      → ¬ IsNeeded e there a
  none_absent e there no_action s n h = h
  none_absent e there do_install s n (k, h) = absurd (cc)
  none_absent e there do_upgrade s n (k, l, h) = absurd (cc)
  none_absent e there do_uninstall s n (k, (v, h)) = absurd (cc)

  none_present :
      (e : Entry) (there : Option Text) (have : Text) (a : Action)
      → (e.state =ᵗ text "absent") ≡ false
      → there ≡ some have
      → ((e.version =ᵗ []) ≡ true)
        ⊎ (((e.version =ᵗ text "latest") ≡ false) × (equal_fold have e.version ≡ true))
      → ¬ IsNeeded e there a
  none_present e there have no_action s n o h = h
  none_present e there have do_uninstall s n o (k, h) = absurd (cc)
  none_present e there have do_upgrade s n (inl z) (k, l, h) = not_both e.version z l
  none_present e there have do_upgrade s n (inr (z, q)) (k, l, h) = absurd (cc)
  none_present e there have do_install s n o (k, inl g) = absurd (cc)
  none_present e there have do_install s n (inl z) (k, inr (g, l, h)) = absurd (cc)
  none_present e there have do_install s n (inr (z, q)) (k, inr (g, l, (v, w, f))) = absurd (cc)

  decide-Decides :
      (e : Entry) (installed : Installed)
      → let there = installed (lower e.package_name) in
        Decides e there (decide_package lower equal_fold e installed).0
  unfolding decide_package decide_present
  decide-Decides e installed =
      let there = installed (lower e.package_name) in
      let D = Decides e there in
      elim (Bool-cases (e.state =ᵗ text "absent")) [
        | inl s ↦ elim (Option-cases there) [
          | inl n ↦ subst D {x = no_action} (ground (arith, s, n)) (λ a. none_absent e there a s n)
          | inr (v, n) ↦ subst D {x = do_uninstall} (ground (arith, s, n)) (s, (v, n))
        ]
        | inr s ↦ elim (Option-cases there) [
          | inl n ↦ subst D {x = do_install} (ground (arith, s, n)) (s, inl n)
          | inr (v, n) ↦ elim (Bool-cases (e.version =ᵗ [])) [
            | inl z ↦
                subst D {x = no_action} (ground (arith, s, n, z))
                  (λ a. none_present e there v a s n (inl z))
            | inr z ↦ elim (Bool-cases (e.version =ᵗ text "latest")) [
              | inl l ↦ subst D {x = do_upgrade} (ground (arith, s, n, z, l)) (s, l, (v, n))
              | inr l ↦ elim (Bool-cases (equal_fold v e.version)) [
                | inl f ↦
                    subst D {x = no_action} (ground (arith, s, n, z, l, f))
                      (λ a. none_present e there v a s n (inr (l, f)))
                | inr f ↦
                    subst D {x = do_install} (ground (arith, s, n, z, l, f))
                      (s, inr (z, l, (v, n, f)))
              ]
            ]
          ]
        ]
      ]

  one_acts :
      (b : Backend) (installed : Installed) (e : Entry) (acts : Acts)
      → let action = (decide_package lower equal_fold e installed).0 in
        let r = converge_one lower equal_fold b installed e acts in
        (r.0 ≡ (if is_acting lower equal_fold action then (action, e) ∷ acts else acts))
        × (r.1.entry ≡ e)
  unfolding converge_one
  one_acts b installed e acts = ground arith

  -- One round is the next step, by what the decision says.
  step-Runs :
      (installed : Installed) (e : Entry) (es : List Entry) (acts out : Acts) (a : Action)
      → Decides e (installed (lower e.package_name)) a
      → Runs installed es (if is_acting lower equal_fold a then (a, e) ∷ acts else acts) out
      → Runs installed (e ∷ es) acts out
  step-Runs installed e es acts out no_action d r = leaves d r
  step-Runs installed e es acts out do_install d r = acts_on do_install d r
  step-Runs installed e es acts out do_upgrade d r = acts_on do_upgrade d r
  step-Runs installed e es acts out do_uninstall d r = acts_on do_uninstall d r

  each-Runs :
      (b : Backend) (installed : Installed) (es : List Entry) (acts : Acts)
      → Runs installed es acts (converge_each lower equal_fold b installed es acts).0
  unfolding converge_each
  each-Runs b installed [] acts = over
  each-Runs b installed (e ∷ es) acts =
      let acts1 = (converge_one lower equal_fold b installed e acts).0 in
      let out = (converge_each lower equal_fold b installed es acts1).0 in
      step-Runs installed e es acts out (decide_package lower equal_fold e installed).0
        (decide-Decides e installed)
        (subst (λ x. Runs installed es x out) (one_acts b installed e acts).0
          (each-Runs b installed es acts1))

  each_entries :
      (b : Backend) (installed : Installed) (es : List Entry) (acts : Acts)
      → map (λ x. x.entry) (converge_each lower equal_fold b installed es acts).1 ≡ es
  unfolding converge_each
  each_entries b installed [] acts = refl
  each_entries b installed (e ∷ es) acts =
      let acts1 = (converge_one lower equal_fold b installed e acts).0 in
      ground (arith, one_acts b installed e acts, each_entries b installed es acts1)

  entries_finished :
      (installed : Installed) (rs : List Report)
      → map (λ x. x.entry) (map (finish_report lower equal_fold installed) rs)
        ≡ map (λ x. x.entry) rs
  unfolding finish_report
  entries_finished installed [] = refl
  entries_finished installed (r ∷ rs) = ground (arith, entries_finished installed rs)

  entries_refused :
      (why : Text) (es : List Entry)
      → map (λ x. x.entry) (map (cannot_run lower equal_fold why) es) ≡ es
  entries_refused why [] = refl
  entries_refused why (e ∷ es) = ground (arith, entries_refused why es)

  -- Every entry of the set has one report, in the order of the set, also where nothing can be run.
  pub converge_packages_entries :
      (b : Backend) (es : List Entry)
      → map (λ x. x.entry) (converge_packages lower equal_fold b es).1 ≡ es
  unfolding converge_packages
  converge_packages_entries b es = elim (Option-cases b.missing) [
    | inr (why, e) ↦ ground (arith, entries_refused why es)
    | inl e ↦ elim (Sum-cases (b.installed [])) [
      | inr (failed, f) ↦ ground (arith, entries_refused (text "installed list: " ++ failed) es)
      | inl (installed, f) ↦
          let (acts, reports) = converge_each lower equal_fold b installed es [] in
          let last = last_read lower equal_fold b installed acts in
          ground (arith, entries_finished last reports, each_entries b installed es [])
    ]
  ]

  -- Where the backend is there and lists what is installed, the actions that run are exactly those that
  -- the entries need against that list, one for each entry that needs one and in the order of the set:
  -- a package that is not to be there is removed, a missing one installed, one that tracks the latest
  -- version upgraded, and one that is pinned to another version installed.
  pub converge_packages-Runs :
      (b : Backend) (es : List Entry) (installed : Installed)
      → b.missing ≡ none
      → b.installed [] ≡ inl installed
      → Runs installed es [] (converge_packages lower equal_fold b es).0
  unfolding converge_packages
  converge_packages-Runs b es installed p q =
      subst (Runs installed es []) (ground (arith, p, q)) (each-Runs b installed es [])
