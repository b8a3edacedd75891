-- ===== src/Tests/Reconciling.antt =====
-- A reconcile of a state with a task and a snapin, on machines of which one cannot write its disk, and
-- of a state with an update.
use fog_agent.Prelude.{◌=ᵗ◌, ◌≡◌, refl, true, false, [], ◌∷◌, none, some, text}
use fog_agent.Prelude.Int.{pos}
use fog_agent.Agent.World.{Agent, on_disk}
use fog_agent.Agent.Reconcile.Data.{Desired, Machine}
use fog_agent.Agent.Reconcile.{
  cap_taskreboot, cap_power, cap_activation, cap_hostname, reconcile, reconcile_held,
  needs_reconcile, take_state, cap_directory,
}
use fog_agent.Agent.Reconcile.Queues.{outcome_retry, outcome_failed, run_snapins}
use fog_agent.Agent.Reconcile.Keeps.{updates}
use fog_agent.Agent.Reconcile.Ends.{reconcile_done, reconcile_ran, reconcile_held_lost, RanUnder}
use fog_agent.Agent.Reconcile.Order.{runs, push_ids, run_snapins_whole}
use fog_agent.Tests.Worlds.{a_config, a_machine, a_snapin, a_state, a_task, an_agent}

-- The machine had restarted for the task.
abbrev back : Agent
back = record {
  config = record a_config { rebooted_for_task = pos 4; pending_reboot = a_task ∷ [] };
  log = [];
}

abbrev full_disk : Machine
full_disk = record a_machine { can_save = λ log. false }

-- No snapin can be fetched.
abbrev no_payload : Machine
no_payload = record a_machine {
  run_snapin = λ log t. record { fetched = false; status = []; exit_code = pos 0; details = [] };
}

reconcile_done_example :
    (needs_reconcile (reconcile a_machine a_state an_agent).0.config a_state.revision ≡ false)
    × (on_disk a_config (reconcile a_machine a_state an_agent).0.log
        ≡ (reconcile a_machine a_state an_agent).0.config)
unfolding reconcile ◌=ᵗ◌ cap_hostname cap_activation cap_taskreboot cap_power cap_directory
    outcome_retry outcome_failed
reconcile_done_example = reconcile_done a_machine a_state an_agent a_config refl

-- The server asks for an update and for nothing else.
abbrev an_updating : Desired
an_updating = record a_state {
  capabilities = text "update" ∷ [];
  task = none;
  snapins = [];
  update = some (record {
    version = text "1.2.0";
    manifest_url = [];
    manifest = text "m";
    signature = text "m";
    artifact = pos 0;
  });
}

reconcile_ran_example :
    RanUnder a_machine an_updating
      (take_state a_machine an_updating an_agent).0.config
      (updates an_agent.log)
      (updates (reconcile a_machine an_updating an_agent).0.log)
reconcile_ran_example = reconcile_ran a_machine an_updating an_agent

reconcile_held_lost_example :
    needs_reconcile (reconcile_held full_disk a_state true an_agent).0.config a_state.revision
    ≡ false
unfolding reconcile ◌=ᵗ◌ cap_hostname cap_activation cap_taskreboot cap_power cap_directory
    outcome_retry outcome_failed
reconcile_held_lost_example = reconcile_held_lost full_disk a_state an_agent refl

run_snapins_whole_example :
    runs (run_snapins a_machine (a_snapin ∷ a_snapin ∷ []) an_agent).0.log
    ≡ push_ids (a_snapin ∷ a_snapin ∷ []) (runs an_agent.log)
unfolding run_snapins ◌=ᵗ◌ outcome_retry outcome_failed
run_snapins_whole_example =
    run_snapins_whole a_machine (a_snapin ∷ a_snapin ∷ []) an_agent refl refl
