-- ===== src/PrinterSet.antt =====
-- internal/provider/printerset/printerset.go: the printers that a machine should have, against those it
-- has. Unsupported and truncate stand in Agent.Reconcile.Queues.
pub mod Calls
pub mod Upsert
pub mod Settled
use fog_agent.Prelude.{
  Bool, true, false, not, ◌&&◌, ◌||◌, List, [], ◌∷◌, ◌++◌, Option, none, some, if◌then◌else◌, Text,
  text, ◌=ᵗ◌, cut, any,
}
use fog_agent.Agent.Reconcile.Data.{Printer, Printers, PrinterReport}
use fog_agent.Agent.Reconcile.Queues.{is_off, truncate}

-- printers.Printer and printers.Printers, as far as they are read
pub record Queue : Type 0 where
  pub name : Text
  pub uri : Text

pub record Installed : Type 0 where
  pub default : Text
  pub queues : List Queue

-- Action
pub data Action : Type 0 where
  leave add update : Action

-- What is asked of the spooler.
pub data Asked : Type 0 where
  added : Printer → Asked
  removed defaulted : Text → Asked

-- What the package strings answers, and the backend, which answers Add with a status and an error.
pub record Spooler : Type 0 where
  pub trim : Text → Text
  pub equal_fold : Text → Text → Bool
  pub run_add : List Asked → Printer → Text × Text

-- installed[name] of the map that Converge fills: the last queue of a name counts.
unfoldable pub installed_at : List Queue → Text → Option Queue
installed_at [] name = none
installed_at (q ∷ qs) name =
    let rest = installed_at qs name in
    elim rest [ some r ↦ some r | none ↦ if q.name =ᵗ name then some q else none ]

-- ManageExclusive
unfoldable pub is_exclusive : Printers → Bool
is_exclusive policy = policy.manage =ᵗ text "exclusive"

module _ (s : Spooler) where
  -- sameURI
  unfoldable pub same_uri : Text → Text → Bool
  unfolding cut
  same_uri a b =
      let (scheme_a, rest_a, found_a) = cut b':' (s.trim a) in
      let (scheme_b, rest_b, found_b) = cut b':' (s.trim b) in
      if not (found_a && not (scheme_a =ᵗ [])) || not (found_b && not (scheme_b =ᵗ []))
      then s.trim a =ᵗ s.trim b
      else s.equal_fold scheme_a scheme_b && rest_a =ᵗ rest_b

  abbrev pub has_no_uri : Printer → Bool
  has_no_uri p = s.trim p.uri =ᵗ []

  -- Decide
  unfoldable pub decide : Printer → List Queue → Action × Text
  unfolding installed_at same_uri
  decide want qs =
      if has_no_uri want
      then (
        leave,
        text "no device URI: set one on the printer, or give it a type and address to derive from",
      )
      else elim (installed_at qs want.name) [
        | none ↦ (add, want.name ++ text " is not installed")
        | some have ↦
            if same_uri have.uri want.uri
            then (leave, want.name ++ text " is installed at " ++ have.uri)
            else (update, want.name ++ text " points at " ++ have.uri ++ text ", want " ++ want.uri)
      ]

  -- Unwanted
  abbrev pub is_assigned : List Printer → Text → Bool
  is_assigned ps name = any (λ p. p.name =ᵗ name) ps

  unfoldable pub unwanted_of : List Printer → List Queue → List Text
  unwanted_of ps [] = []
  unwanted_of ps (q ∷ qs) =
      let rest = unwanted_of ps qs in
      if s.trim q.name =ᵗ [] || is_assigned ps q.name then rest else q.name ∷ rest

  unfoldable pub unwanted : Printers → List Queue → List Text
  unfolding is_exclusive unwanted_of
  unwanted policy qs = if is_exclusive policy then unwanted_of policy.printers qs else []

  -- One turn of Converge's first loop: the report, and what was asked, the latest first.
  abbrev pub apply : Printer → Action × Text → List Asked → PrinterReport × List Asked
  apply want (leave, why) log =
      let lost = has_no_uri want in
      (
        record {
          printer = want;
          status = if lost then text "failed" else text "converged";
          error = if lost then truncate s.trim why else [];
          detail = why;
        },
        log,
      )
  apply want (add, why) log =
      let (status, error) = s.run_add log want in
      (
        record { printer = want; status = status; error = truncate s.trim error; detail = why },
        added want ∷ log,
      )
  apply want (update, why) log =
      let (status, error) = s.run_add log want in
      (
        record {
          printer = want;
          status = if status =ᵗ text "installed" then text "updated" else status;
          error = truncate s.trim error;
          detail = why;
        },
        added want ∷ log,
      )

  unfoldable pub converge_one : List Queue → Printer → List Asked → PrinterReport × List Asked
  unfolding decide
  converge_one qs want log = apply want (decide want qs) log

  unfoldable pub converge_each :
      List Queue → List Printer → List Asked → List PrinterReport × List Asked
  unfolding converge_one
  converge_each qs [] log = ([], log)
  converge_each qs (p ∷ ps) log =
      let (r, log1) = converge_one qs p log in
      let (rs, log2) = converge_each qs ps log1 in (r ∷ rs, log2)

  abbrev pub remove_each : List Text → List Asked → List Asked
  remove_each [] log = log
  remove_each (n ∷ ns) log = remove_each ns (removed n ∷ log)

  abbrev pub set_default : Printers → Installed → List Asked → List Asked
  set_default policy observed log =
      if policy.default =ᵗ [] || observed.default =ᵗ policy.default
      then log
      else defaulted policy.default ∷ log

  -- Converge
  unfoldable pub converge : Printers → Installed → List PrinterReport × List Asked
  unfolding converge_each unwanted
  converge policy observed =
      let (reports, log) = converge_each observed.queues policy.printers [] in
      if is_off policy.manage then ([], []) else (
        reports,
        set_default policy observed (remove_each (unwanted policy observed.queues) log),
      )
