-- ===== src/Tests/Joining.antt =====
-- A workstation of no domain.
use fog_agent.Prelude.{◌≡◌, ◌⊎◌, refl, true, false, [], ◌∷◌, text, ◌=ᵗ◌}
use fog_agent.Agent.Reconcile.Data.{Directory}
use fog_agent.Join.{Membership, Names, Backend, tried_join, tried_rename, converge}
use fog_agent.Join.Calls.{MayJoin, MayRename, converge_calls}

abbrev corp : Directory
corp = record {
  domain = text "corp.example.com";
  netbios = text "CORP";
  ou = [];
  username = text "joiner";
  password = text "secret";
  reboot = false;
  rename_to = [];
}

abbrev alone : Membership
alone = record { joined = false; domain = []; netbios = [] }

abbrev two_names : Names
two_names = record { current = text "PC1"; pending = [] }

abbrev a_backend : Backend
a_backend = record {
  trim = λ t. t;
  to_lower = λ t. t;
  equal_fold = λ s t. s =ᵗ t;
  available = (true, []);
  run_join = λ p. record { status = text "joined"; error = []; native_status = 0; reboot = true };
  run_rename =
      λ p. record { status = text "renamed"; error = []; native_status = 0; reboot = false };
}

joined_here : (converge a_backend corp alone two_names).1 ≡ tried_join corp ∷ []
unfolding converge ◌=ᵗ◌
joined_here = refl

converge_calls_example :
    ((converge a_backend corp alone two_names).1 ≡ [])
    ⊎ (((converge a_backend corp alone two_names).1 ≡ tried_join corp ∷ [])
        × MayJoin a_backend corp alone)
    ⊎ (((converge a_backend corp alone two_names).1 ≡ tried_rename corp ∷ [])
        × MayRename a_backend corp alone two_names)
converge_calls_example = converge_calls a_backend corp alone two_names
