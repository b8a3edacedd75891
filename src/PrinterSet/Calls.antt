-- ===== src/PrinterSet/Calls.antt =====
-- What a convergence of the printers asks of the spooler.
use fog_agent.Prelude.{
  ◌≡◌, refl, ◌∙◌, Bool, true, false, List, [], ◌∷◌, map, Elem, Text, ◌=ᵗ◌, any, arith, inl, inr,
  ◌⊎◌, Bool-cases, if◌then◌else◌,
}
use mathlib.Core.Path.{subst, ap₂}
use mathlib.Core.Bool.{◌||◌}
use fog_agent.Agent.Reconcile.Data.{Printer, Printers}
use fog_agent.Agent.Reconcile.Queues.{is_off}
use fog_agent.PrinterSet.{
  Queue, Installed, Action, leave, add, update, Asked, added, removed, defaulted, Spooler,
  is_exclusive, decide, is_assigned, unwanted_of, unwanted, apply, converge_one, converge_each,
  remove_each, set_default, converge,
}

abbrev pub removals : List Asked → List Text
removals [] = []
removals (added p ∷ log) = removals log
removals (removed n ∷ log) = n ∷ removals log
removals (defaulted n ∷ log) = removals log

abbrev pub additions : List Asked → List Printer
additions [] = []
additions (added p ∷ log) = p ∷ additions log
additions (removed n ∷ log) = additions log
additions (defaulted n ∷ log) = additions log

abbrev pub is_left : Action → Bool
is_left leave = true
is_left a = false

abbrev pub has_name : Text → List Queue → Bool
has_name n qs = any (λ q. q.name =ᵗ n) qs

Elem-if :
    (b : Bool) (y n : Text) (xs : List Text)
    → Elem n (if b then xs else y ∷ xs)
    → ((b ≡ false) × (y ≡ n)) ⊎ Elem n xs
Elem-if true y n xs h = inr h
Elem-if false y n xs (inl e) = inl (refl, e)
Elem-if false y n xs (inr h) = inr h

Elem-guard :
    (b : Bool) (n : Text) (xs : List Text) → Elem n (if b then xs else []) → (b ≡ true) × Elem n xs
Elem-guard true n xs h = (refl, h)
Elem-guard false n xs h = elim h [ ]

-- `xs` from its last to its first, before `ys`.
abbrev pub reverse_onto {ℓ} : {A : Type ℓ} → List A → List A → List A
reverse_onto [] ys = ys
reverse_onto (x ∷ xs) ys = reverse_onto xs (x ∷ ys)

module _ (s : Spooler) where
  -- A queue that may be removed.
  pub record IsRemovable (policy : Printers) (qs : List Queue) (n : Text) : Type 0 where
    pub exclusive : is_exclusive policy ≡ true
    pub not_assigned : is_assigned s policy.printers n ≡ false
    pub not_blank : (s.trim n =ᵗ []) ≡ false
    pub is_installed : Elem n (map (λ q. q.name) qs)

  unwanted_of-Elem :
      (ps : List Printer) (qs : List Queue) (n : Text)
      → Elem n (unwanted_of s ps qs)
      → (is_assigned s ps n ≡ false) × ((s.trim n =ᵗ []) ≡ false) × Elem n (map (λ q. q.name) qs)
  unfolding unwanted_of
  unwanted_of-Elem ps [] n h = elim h [ ]
  unwanted_of-Elem ps (q ∷ qs) n h =
      elim (Elem-if (s.trim q.name =ᵗ [] || is_assigned s ps q.name) q.name n (unwanted_of s ps qs)
        h) [
          | inl (b, e) ↦ (
            subst (λ x. is_assigned s ps x ≡ false) e (ground arith),
            subst (λ x. (s.trim x =ᵗ []) ≡ false) e (ground arith),
            inl e,
          )
          | inr r ↦ let (a, t, i) = unwanted_of-Elem ps qs n r in (a, t, inr i)
        ]

  removals-apply :
      (p : Printer) (d : Action × Text) (log : List Asked)
      → removals (apply s p d log).1 ≡ removals log
  removals-apply p (leave, why) log = refl
  removals-apply p (add, why) log = refl
  removals-apply p (update, why) log = refl

  each_removals :
      (qs : List Queue) (ps : List Printer) (log : List Asked)
      → removals (converge_each s qs ps log).1 ≡ removals log
  unfolding converge_each converge_one
  each_removals qs [] log = refl
  each_removals qs (p ∷ ps) log =
      each_removals qs ps (apply s p (decide s p qs) log).1 ∙ removals-apply p (decide s p qs) log

  remove_each-Elem :
      (ns : List Text) (log : List Asked) (n : Text)
      → Elem n (removals (remove_each s ns log))
      → Elem n ns ⊎ Elem n (removals log)
  remove_each-Elem [] log n h = inr h
  remove_each-Elem (m ∷ ns) log n h = elim (remove_each-Elem ns (removed m ∷ log) n h) [
    | inl e ↦ inl (inr e)
    | inr (inl e) ↦ inl (inl e)
    | inr (inr e) ↦ inr e
  ]

  default_removals :
      (policy : Printers) (observed : Installed) (log : List Asked)
      → removals (set_default s policy observed log) ≡ removals log
  default_removals policy observed log = ground arith

  converge-removals :
      (policy : Printers) (observed : Installed) (n : Text)
      → Elem n (removals (converge s policy observed).1)
      → Elem n (unwanted s policy observed.queues)
  unfolding converge
  converge-removals policy observed n h =
      let log = (converge_each s observed.queues policy.printers []).1 in
      let ns = unwanted s policy observed.queues in
      elim (Bool-cases (is_off policy.manage)) [
        | inl e ↦
            let none_left : removals (converge s policy observed).1 ≡ [] = ground (arith, e) in
            elim (subst (Elem n) none_left h) [ ]
        | inr e ↦
            let same : removals (converge s policy observed).1 ≡ removals (remove_each s ns log) =
              ground (arith, e, default_removals policy observed (remove_each s ns log)) in
            elim (remove_each-Elem ns log n (subst (Elem n) same h)) [
              | inl r ↦ r
              | inr r ↦
                  elim (subst (Elem n) (each_removals observed.queues policy.printers []) r) [ ]
            ]
      ]

  -- A queue that a convergence removes is one that is installed, that no printer of the policy is
  -- named as, and whose name is not blank; and the policy is exclusive.
  pub converge-IsRemovable :
      (policy : Printers) (observed : Installed) (n : Text)
      → Elem n (removals (converge s policy observed).1)
      → IsRemovable policy observed.queues n
  unfolding unwanted
  converge-IsRemovable policy observed n h =
      let (e, k) =
        Elem-guard (is_exclusive policy) n (unwanted_of s policy.printers observed.queues)
          (converge-removals policy observed n h) in
      let (a, t, i) = unwanted_of-Elem policy.printers observed.queues n k in
      record { exclusive = e; not_assigned = a; not_blank = t; is_installed = i }

  -- The printers that the rule does not leave as they are.
  abbrev pub to_add : List Queue → List Printer → List Printer
  to_add qs [] = []
  to_add qs (p ∷ ps) = if is_left (decide s p qs).0 then to_add qs ps else p ∷ to_add qs ps

  apply_printer :
      (p : Printer) (d : Action × Text) (log : List Asked)
      → ((apply s p d log).0.printer ≡ p)
        × (additions (apply s p d log).1
            ≡ (if is_left d.0 then additions log else p ∷ additions log))
  apply_printer p (leave, why) log = (refl, refl)
  apply_printer p (add, why) log = (refl, refl)
  apply_printer p (update, why) log = (refl, refl)

  -- What the first loop gives from a log on: a report for each printer, and the printers added, the
  -- latest first, before those of the log.
  each_additions :
      (qs : List Queue) (ps : List Printer) (log : List Asked)
      → (map (λ r. r.printer) (converge_each s qs ps log).0 ≡ ps)
        × (additions (converge_each s qs ps log).1 ≡ reverse_onto (to_add qs ps) (additions log))
  unfolding converge_each converge_one
  each_additions qs [] log = (refl, refl)
  each_additions qs (p ∷ ps) log =
      let d = decide s p qs in
      let (one, more) = apply_printer p d log in
      let (rest, all) = each_additions qs ps (apply s p d log).1 in
      (
        ap₂ (λ x xs. x ∷ xs) one rest,
        elim (Bool-cases (is_left d.0)) [
          | inl e ↦ ground (arith, e, more, all)
          | inr e ↦ ground (arith, e, more, all)
        ],
      )

  remove_additions :
      (ns : List Text) (log : List Asked) → additions (remove_each s ns log) ≡ additions log
  remove_additions [] log = refl
  remove_additions (n ∷ ns) log = remove_additions ns (removed n ∷ log)

  -- A convergence that is not switched off reports once for each printer of the policy, in their order,
  -- and asks the spooler for exactly those that the rule does not leave as they are, in their order.
  pub converge-to_add :
      (policy : Printers) (observed : Installed)
      → is_off policy.manage ≡ false
      → (map (λ r. r.printer) (converge s policy observed).0 ≡ policy.printers)
        × (additions (converge s policy observed).1
            ≡ reverse_onto (to_add observed.queues policy.printers) [])
  unfolding converge
  converge-to_add policy observed e =
      let log = (converge_each s observed.queues policy.printers []).1 in
      let ns = unwanted s policy observed.queues in
      ground (arith, e, each_additions observed.queues policy.printers [], remove_additions ns log)
