-- ===== src/PrinterSet/Settled.antt =====
-- A convergence against a spooler that does what it is asked leaves nothing to add for the next one.
use mathlib.Core.Path.{subst}
use fog_agent.Prelude.{
  ◌≡◌, refl, sym, ap, ◌∙◌, ◌⊎◌, inl, inr, Bool, true, false, not, ◌&&◌, ◌||◌, List, [], ◌∷◌, All,
  some, if◌then◌else◌, Text, ◌=ᵗ◌, text_eq_refl, text_eq→eq, Bool-cases, Option-cases, cut, arith,
}
use fog_agent.Agent.Reconcile.Data.{Printer, Printers}
use fog_agent.Agent.Reconcile.Queues.{is_off}
use fog_agent.PrinterSet.{
  Queue, Installed, Action, leave, add, update, Asked, added, removed, Spooler, is_exclusive,
  installed_at, same_uri, decide, is_assigned, unwanted_of, unwanted, apply, converge_one,
  converge_each, remove_each, set_default, converge,
}
use fog_agent.PrinterSet.Calls.{is_left, additions, reverse_onto, to_add, converge-to_add}
use fog_agent.PrinterSet.Upsert.{
  queue_of, carry_out, at, at_drop_other, at_added_same, at_added_other, text_eq_other, All-if_true,
  All-if_false,
}

module _ (s : Spooler) (law : (t : Text) → s.equal_fold t t ≡ true) where
  same_uri_refl : (u : Text) → same_uri s u u ≡ true
  unfolding same_uri
  same_uri_refl u = ground (
    arith,
    law (cut b':' (s.trim u)).0,
    text_eq_refl (cut b':' (s.trim u)).1,
    text_eq_refl (s.trim u),
  )

  -- A printer that the rule leaves as it is.
  abbrev pub IsLeft : List Queue → Printer → Type 0
  IsLeft qs p = is_left (decide s p qs).0 ≡ true

  decide_same :
      (p : Printer) (qs qs' : List Queue)
      → installed_at qs p.name ≡ installed_at qs' p.name
      → IsLeft qs p
      → IsLeft qs' p
  unfolding decide
  decide_same p qs qs' e h = elim (Option-cases (installed_at qs' p.name)) [
    | inl o ↦ ground (arith, e, o)
    | inr (q, o) ↦ ground (arith, e, o)
  ]

  decide_installed :
      (p : Printer) (qs : List Queue) → installed_at qs p.name ≡ some (queue_of p) → IsLeft qs p
  unfolding decide
  decide_installed p qs e = ground (arith, e, same_uri_refl p.uri)

  -- The names of the printers differ.
  abbrev pub are_distinct : List Printer → Bool
  are_distinct [] = true
  are_distinct (p ∷ ps) = not (is_assigned s ps p.name) && are_distinct ps

  module _ (i : Installed) where
    log_of : Printer → List Asked → List Asked
    log_of p log = (apply s p (decide s p i.queues) log).1

    apply_cases :
        (p : Printer) (d : Action × Text) (log : List Asked)
        → ((is_left d.0 ≡ true) × ((apply s p d log).1 ≡ log))
          ⊎ ((apply s p d log).1 ≡ added p ∷ log)
    apply_cases p (leave, why) log = inl (refl, refl)
    apply_cases p (add, why) log = inr refl
    apply_cases p (update, why) log = inr refl

    one_other :
        (p : Printer) (log : List Asked) (n : Text)
        → (p.name =ᵗ n) ≡ false
        → at (carry_out (log_of p log) i) n ≡ at (carry_out log i) n
    unfolding log_of
    one_other p log n h = elim (apply_cases p (decide s p i.queues) log) [
      | inl (l, e) ↦ ap (λ x. at (carry_out x i) n) e
      | inr e ↦ ap (λ x. at (carry_out x i) n) e ∙ at_added_other p (carry_out log i) n h
    ]

    one-IsLeft :
        (p : Printer) (log : List Asked)
        → at (carry_out log i) p.name ≡ at i p.name
        → IsLeft (carry_out (log_of p log) i).queues p
    unfolding log_of
    one-IsLeft p log h = elim (apply_cases p (decide s p i.queues) log) [
      | inl (l, e) ↦
          decide_same p i.queues (carry_out (log_of p log) i).queues
            (sym (ap (λ x. at (carry_out x i) p.name) e ∙ h)) l
      | inr e ↦
          decide_installed p (carry_out (log_of p log) i).queues
            (ap (λ x. at (carry_out x i) p.name) e ∙ at_added_same p (carry_out log i))
    ]

    abbrev each : List Printer → List Asked → List Asked
    each ps log = (converge_each s i.queues ps log).1

    each_step :
        (p : Printer) (ps : List Printer) (log : List Asked)
        → each (p ∷ ps) log ≡ each ps (log_of p log)
    unfolding converge_each converge_one log_of
    each_step p ps log = refl

    each_other :
        (ps : List Printer) (log : List Asked) (n : Text)
        → is_assigned s ps n ≡ false
        → at (carry_out (each ps log) i) n ≡ at (carry_out log i) n
    unfolding converge_each
    each_other [] log n h = refl
    each_other (p ∷ ps) log n h =
        ap (λ x. at (carry_out x i) n) (each_step p ps log)
        ∙ each_other ps (log_of p log) n (ground arith)
        ∙ one_other p log n (ground arith)

    others :
        (ps : List Printer) (p : Printer) (log : List Asked)
        → is_assigned s ps p.name ≡ false
        → All (λ q. at (carry_out log i) q.name ≡ at i q.name) ps
        → All (λ q. at (carry_out (log_of p log) i) q.name ≡ at i q.name) ps
    others [] p log h all = tt
    others (q ∷ qs) p log h (e, all) = (
      one_other p log q.name (text_eq_other q.name p.name (ground arith)) ∙ e,
      others qs p log (ground arith) all,
    )

    each-IsLeft :
        (ps : List Printer) (log : List Asked)
        → are_distinct ps ≡ true
        → All (λ q. at (carry_out log i) q.name ≡ at i q.name) ps
        → All (IsLeft (carry_out (each ps log) i).queues) ps
    each-IsLeft [] log d all = tt
    each-IsLeft (p ∷ ps) log d (e, all) =
        let new : is_assigned s ps p.name ≡ false = ground arith in
        let log1 = log_of p log in
        let step = sym (each_step p ps log) in
        (
          decide_same p (carry_out log1 i).queues (carry_out (each (p ∷ ps) log) i).queues
              (sym (
                ap (λ x. at (carry_out x i) p.name) (each_step p ps log)
                ∙ each_other ps log1 p.name new))
              (one-IsLeft p log e),
          subst (λ x. All (IsLeft (carry_out x i).queues) ps) step
              (each-IsLeft ps log1 (ground arith) (others ps p log new all)),
        )

    remove_other :
        (ns : List Text) (log : List Asked) (n : Text)
        → All (λ m. (m =ᵗ n) ≡ false) ns
        → at (carry_out (remove_each s ns log) i) n ≡ at (carry_out log i) n
    remove_other [] log n all = refl
    remove_other (m ∷ ns) log n (h, all) =
        remove_other ns (removed m ∷ log) n all ∙ at_drop_other m n (carry_out log i).queues h

  unassigned_other :
      (ps : List Printer) (q : Queue) (n : Text)
      → is_assigned s ps n ≡ true
      → is_assigned s ps q.name ≡ false
      → (q.name =ᵗ n) ≡ false
  unassigned_other ps q n h k = elim (Bool-cases (q.name =ᵗ n)) [
    | inr r ↦ r
    | inl r ↦
        let no : is_assigned s ps n ≡ false =
          subst (λ x. is_assigned s ps x ≡ false) (text_eq→eq q.name n r) k in
        ground (arith, h, no)
  ]

  unwanted_other :
      (ps : List Printer) (qs : List Queue) (n : Text)
      → is_assigned s ps n ≡ true
      → All (λ m. (m =ᵗ n) ≡ false) (unwanted_of s ps qs)
  unfolding unwanted_of
  unwanted_other ps [] n h = tt
  unwanted_other ps (q ∷ qs) n h =
      elim (Bool-cases (s.trim q.name =ᵗ [] || is_assigned s ps q.name)) [
        | inl e ↦
            All-if_true (λ m. (m =ᵗ n) ≡ false) (s.trim q.name =ᵗ [] || is_assigned s ps q.name)
              q.name (unwanted_of s ps qs) e (unwanted_other ps qs n h)
        | inr e ↦
            All-if_false (λ m. (m =ᵗ n) ≡ false) (s.trim q.name =ᵗ [] || is_assigned s ps q.name)
              q.name (unwanted_of s ps qs) e
              (unassigned_other ps q n h (ground arith), unwanted_other ps qs n h)
      ]

  weaker :
      (q : Printer) (ps xs : List Printer)
      → All (λ p. is_assigned s ps p.name ≡ true) xs
      → All (λ p. is_assigned s (q ∷ ps) p.name ≡ true) xs
  weaker q ps [] all = tt
  weaker q ps (x ∷ xs) (h, all) = (ground arith, weaker q ps xs all)

  All-assigned : (ps : List Printer) → All (λ p. is_assigned s ps p.name ≡ true) ps
  All-assigned [] = tt
  All-assigned (p ∷ ps) = (ground (arith, text_eq_refl p.name), weaker p ps ps (All-assigned ps))

  to_add-none : (qs : List Queue) (ps : List Printer) → All (IsLeft qs) ps → to_add s qs ps ≡ []
  to_add-none qs [] all = refl
  to_add-none qs (p ∷ ps) (h, all) = ground (arith, h, to_add-none qs ps all)

  -- The removals take nothing from the printers that are assigned.
  kept-IsLeft :
      (i : Installed) (ps qs' : List Printer) (qs : List Queue) (log : List Asked)
      → All (λ p. is_assigned s ps p.name ≡ true) qs'
      → All (IsLeft (carry_out log i).queues) qs'
      → All (IsLeft (carry_out (remove_each s (unwanted_of s ps qs) log) i).queues) qs'
  kept-IsLeft i ps [] qs log assigned all = tt
  kept-IsLeft i ps (p ∷ rest) qs log (a, assigned) (h, all) =
      let ns = unwanted_of s ps qs in
      (
        decide_same p (carry_out log i).queues (carry_out (remove_each s ns log) i).queues
            (sym (remove_other i ns log p.name (unwanted_other ps qs p.name a))) h,
        kept-IsLeft i ps rest qs log assigned all,
      )

  All-same : (i : Installed) (ps : List Printer) → All (λ q. at i q.name ≡ at i q.name) ps
  All-same i [] = tt
  All-same i (p ∷ ps) = (refl, All-same i ps)

  -- After both loops of a convergence, and after the default was set.
  loops-IsLeft :
      (policy : Printers) (i : Installed)
      → are_distinct policy.printers ≡ true
      → let log = (converge_each s i.queues policy.printers []).1 in
        All
          (IsLeft (carry_out (remove_each s (unwanted s policy i.queues) log) i).queues)
          policy.printers
  unfolding unwanted
  loops-IsLeft policy i d =
      let log = (converge_each s i.queues policy.printers []).1 in
      let left = each-IsLeft i policy.printers [] d (All-same i policy.printers) in
      elim (Bool-cases (is_exclusive policy)) [
        | inl e ↦
            subst
              (λ b.
                All
                  (IsLeft
                    (carry_out
                      (remove_each s (if b then unwanted_of s policy.printers i.queues else []) log)
                      i).queues)
                  policy.printers)
              (sym e)
              (kept-IsLeft i policy.printers policy.printers i.queues log
                (All-assigned policy.printers) left)
        | inr e ↦
            subst
              (λ b.
                All
                  (IsLeft
                    (carry_out
                      (remove_each s (if b then unwanted_of s policy.printers i.queues else []) log)
                      i).queues)
                  policy.printers)
              (sym e) left
      ]

  default_queues :
      (policy : Printers) (observed i : Installed) (log : List Asked)
      → (carry_out (set_default s policy observed log) i).queues ≡ (carry_out log i).queues
  default_queues policy observed i log = ground arith

  -- Where the spooler does what it is asked and the names of the printers differ, the convergence that
  -- follows a convergence asks for no printer to be added, whatever was installed.
  pub converge_settles :
      (policy : Printers) (i : Installed)
      → is_off policy.manage ≡ false
      → are_distinct policy.printers ≡ true
      → additions (converge s policy (carry_out (converge s policy i).1 i)).1 ≡ []
  unfolding converge
  converge_settles policy i on d =
      let log = (converge_each s i.queues policy.printers []).1 in
      let inner = remove_each s (unwanted s policy i.queues) log in
      let done = carry_out (converge s policy i).1 i in
      let shape : (converge s policy i).1 ≡ set_default s policy i inner = ground (arith, on) in
      let same : done.queues ≡ (carry_out inner i).queues =
        ap (λ l. (carry_out l i).queues) shape ∙ default_queues policy i i inner in
      let none_left : to_add s done.queues policy.printers ≡ [] =
        to_add-none done.queues policy.printers
          (subst (λ qs. All (IsLeft qs) policy.printers) (sym same) (loops-IsLeft policy i d)) in
      (converge-to_add s policy done on).1 ∙ ap (λ ps. reverse_onto ps []) none_left
