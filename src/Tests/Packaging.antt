-- ===== src/Tests/Packaging.antt =====
-- A package that is not there on a machine with another one.
use fog_agent.Prelude.{refl, [], ◌∷◌, none, some, inl, text, ◌=ᵗ◌, if◌then◌else◌}
use fog_agent.Prelude.Int.{pos}
use fog_agent.Agent.Reconcile.Data.{Entry}
use fog_agent.Packages.{Backend, Installed, converge_packages}
use fog_agent.Packages.Reports.{Runs, converge_packages-Runs}

abbrev a_package : Entry
a_package = record {
  id = pos 1;
  backend = text "choco";
  package_name = text "7zip";
  version = [];
  state = text "present";
  source = [];
  args = [];
  timeout = pos 0;
}

abbrev another_there : Installed
another_there t = if t =ᵗ text "vlc" then some (text "3.0") else none

abbrev a_backend : Backend
a_backend = record {
  missing = none;
  installed = λ acts. inl another_there;
  act = λ acts a e. record { status = []; exit_code = pos 0; details = [] };
}

abbrev an_unwanted : Entry
an_unwanted = record a_package { package_name = text "vlc"; state = text "absent" }

converge_packages-Runs_example :
    Runs
      (λ t. t)
      (λ s t. s =ᵗ t)
      another_there
      (a_package ∷ an_unwanted ∷ [])
      []
      (converge_packages (λ t. t) (λ s t. s =ᵗ t) a_backend (a_package ∷ an_unwanted ∷ [])).0
converge_packages-Runs_example =
    converge_packages-Runs (λ t. t) (λ s t. s =ᵗ t) a_backend (a_package ∷ an_unwanted ∷ [])
      another_there refl refl
