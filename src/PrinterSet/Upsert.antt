-- ===== src/PrinterSet/Upsert.antt =====
-- A spooler that does what it is asked, as both backends have it: adding a queue is an upsert by name.
use mathlib.Core.Path.{subst}
use fog_agent.Prelude.{
  ◌≡◌, refl, sym, inl, inr, Bool, true, false, List, [], ◌∷◌, All, Option, none, some,
  if◌then◌else◌, Text, ◌=ᵗ◌, text_eq_refl, text_eq→eq, Bool-cases, Option-cases, arith,
}
use fog_agent.Agent.Reconcile.Data.{Printer}
use fog_agent.PrinterSet.{Queue, Installed, Asked, added, removed, defaulted, installed_at}

abbrev pub drop_name : Text → List Queue → List Queue
drop_name n [] = []
drop_name n (q ∷ qs) = if q.name =ᵗ n then drop_name n qs else q ∷ drop_name n qs

abbrev pub queue_of : Printer → Queue
queue_of p = record { name = p.name; uri = p.uri }

-- What one request makes of the machine.
abbrev pub done_one : Asked → Installed → Installed
done_one (added p) i = record i { queues = queue_of p ∷ drop_name p.name i.queues }
done_one (removed n) i = record i { queues = drop_name n i.queues }
done_one (defaulted n) i = record i { default = n }

-- The requests of a log, the latest first.
abbrev pub carry_out : List Asked → Installed → Installed
carry_out [] i = i
carry_out (x ∷ log) i = done_one x (carry_out log i)

abbrev pub at : Installed → Text → Option Queue
at i n = installed_at i.queues n

pub at_drop_same : (n : Text) (qs : List Queue) → installed_at (drop_name n qs) n ≡ none
unfolding installed_at
at_drop_same n [] = refl
at_drop_same n (q ∷ qs) = ground (arith, at_drop_same n qs)

pub at_drop_other :
    (n m : Text) (qs : List Queue)
    → (n =ᵗ m) ≡ false
    → installed_at (drop_name n qs) m ≡ installed_at qs m
unfolding installed_at
at_drop_other n m [] h = refl
at_drop_other n m (q ∷ qs) h = elim (Bool-cases (q.name =ᵗ n)) [
  | inl e ↦
      let other : (q.name =ᵗ m) ≡ false =
        subst (λ x. (x =ᵗ m) ≡ false) (sym (text_eq→eq q.name n e)) h in
      elim (Option-cases (installed_at qs m)) [
        | inl o ↦ ground (arith, e, other, o, at_drop_other n m qs h)
        | inr (x, o) ↦ ground (arith, e, other, o, at_drop_other n m qs h)
      ]
  | inr e ↦ ground (arith, e, at_drop_other n m qs h)
]

pub at_added_same :
    (p : Printer) (i : Installed) → at (done_one (added p) i) p.name ≡ some (queue_of p)
unfolding installed_at
at_added_same p i = ground (arith, at_drop_same p.name i.queues, text_eq_refl p.name)

pub at_added_other :
    (p : Printer) (i : Installed) (n : Text)
    → (p.name =ᵗ n) ≡ false
    → at (done_one (added p) i) n ≡ at i n
unfolding installed_at
at_added_other p i n h = elim (Option-cases (at i n)) [
  | inl o ↦ ground (arith, h, o, at_drop_other p.name n i.queues)
  | inr (x, o) ↦ ground (arith, h, o, at_drop_other p.name n i.queues)
]

pub text_eq_other : (a b : Text) → (a =ᵗ b) ≡ false → (b =ᵗ a) ≡ false
text_eq_other a b h = elim (Bool-cases (b =ᵗ a)) [
  | inr e ↦ e
  | inl e ↦
      let same : (a =ᵗ a) ≡ false = subst (λ x. (a =ᵗ x) ≡ false) (text_eq→eq b a e) h in
      ground (arith, same, text_eq_refl a)
]

pub All-if_true :
    (P : Text → Type 0) (b : Bool) (y : Text) (xs : List Text)
    → b ≡ true
    → All P xs
    → All P (if b then xs else y ∷ xs)
All-if_true P true y xs e h = h
All-if_true P false y xs e h = ground arith

pub All-if_false :
    (P : Text → Type 0) (b : Bool) (y : Text) (xs : List Text)
    → b ≡ false
    → P y × All P xs
    → All P (if b then xs else y ∷ xs)
All-if_false P true y xs e h = ground arith
All-if_false P false y xs e h = h
