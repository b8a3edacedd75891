-- ===== src/Tests/Printing.antt =====
-- A machine with an old printer, under a policy that takes away what is not assigned.
use fog_agent.Agent.Reconcile.Queues.{is_empty}
use fog_agent.Prelude.{true, ◌≡◌, refl, inl, Elem, [], ◌∷◌, Text, text, ◌=ᵗ◌, text_eq_refl}
use fog_agent.Prelude.Int.{pos}
use fog_agent.Agent.Reconcile.Data.{Printer, Printers}
use fog_agent.PrinterSet.{Installed, Spooler, added, removed, converge}
use fog_agent.PrinterSet.Upsert.{carry_out}
use fog_agent.PrinterSet.Settled.{converge_settles}
use fog_agent.PrinterSet.Calls.{additions, removals, IsRemovable, converge-IsRemovable}

abbrev front_desk : Printer
front_desk = record {
  id = pos 1;
  name = text "front";
  uri = text "ipp://10.0.0.9/print";
  driver = [];
}

abbrev exclusive_policy : Printers
exclusive_policy = record { manage = text "exclusive"; default = []; printers = front_desk ∷ [] }

abbrev old_one : Installed
old_one = record {
  default = [];
  queues = record { name = text "old"; uri = text "lpd://10.0.0.1" } ∷ [];
}

abbrev a_spooler : Spooler
a_spooler = record {
  trim = λ t. t;
  equal_fold = λ s t. s =ᵗ t;
  run_add = λ log p. (text "installed", []);
}

replaced :
    (converge a_spooler exclusive_policy old_one).1 ≡ removed (text "old") ∷ added front_desk ∷ []
unfolding converge ◌=ᵗ◌ is_empty
replaced = refl

old_removed : Elem (text "old") (removals (converge a_spooler exclusive_policy old_one).1)
unfolding converge ◌=ᵗ◌ is_empty
old_removed = inl refl

converge-IsRemovable_example : IsRemovable a_spooler exclusive_policy old_one.queues (text "old")
converge-IsRemovable_example =
    converge-IsRemovable a_spooler exclusive_policy old_one (text "old") old_removed

folds_itself : (t : Text) → a_spooler.equal_fold t t ≡ true
folds_itself t = text_eq_refl t

converge_settles_example :
    additions
      (converge a_spooler exclusive_policy
        (carry_out (converge a_spooler exclusive_policy old_one).1 old_one)).1
    ≡ []
unfolding ◌=ᵗ◌ is_empty
converge_settles_example =
    converge_settles a_spooler folds_itself exclusive_policy old_one refl refl
