-- ===== src/Tests/Coordinating.antt =====
-- A turn of the coordinator on machines whose firmware cannot boot from the network, or that refuse to
-- restart.
use mathlib.Core.List.{Perm}
use fog_agent.Prelude.{◌=ᵗ◌, ◌≡◌, ◌⊎◌, refl, true, false, [], ◌∷◌, some, text}
use fog_agent.Prelude.Int.{pos}
use fog_agent.Reboot.{decide, execute, refused}
use fog_agent.Netboot.{ok}
use fog_agent.Agent.World.{Agent, on_disk}
use fog_agent.Agent.Coordinate.{source_task, Platform, coordinate, unclaimed, last_task, plan_for}
use fog_agent.Agent.Coordinate.Refused.{
  held_back, coordinate_persists, coordinate_refused, coordinate_resets,
}
use fog_agent.Agent.Coordinate.Armed.{is_armed, coordinate_disarms}
use fog_agent.Agent.Restarted.{restarted, coordinate_withdraws}
use fog_agent.Agent.Reconcile.{cap_taskreboot, reconcile}
use fog_agent.Agent.Coordinate.{has_task_reason}
use fog_agent.Tests.Worlds.{
  a_task, a_power, a_config, a_machine, a_state, machine_platform, with_reasons,
}

abbrev an_entry : Platform
an_entry = record machine_platform {
  boot_entry = ok (record { number = 3; description = text "PXE"; ipv4 = true });
}

abbrev refusing_platform : Platform
refusing_platform = record an_entry { restart = λ log m d t. some (refused (text "denied")) }

abbrev tasked : Agent
tasked = with_reasons (a_task ∷ [])

coordinate_disarms_example :
    (is_armed (coordinate refusing_platform tasked).0.log ≡ false)
    ⊎ ((refusing_platform.windows ≡ true)
        × ((coordinate refusing_platform tasked).1 ≡ some unclaimed))
unfolding coordinate ◌=ᵗ◌ source_task decide execute
coordinate_disarms_example = coordinate_disarms refusing_platform tasked (λ log. refl) refl refl

coordinate_persists_example :
    let now = (coordinate an_entry tasked).0 in
    (on_disk a_config now.log ≡ now.config)
    × (now.config ≡ record tasked.config {
      rebooted_for_task =
          last_task tasked.config.rebooted_for_task (plan_for an_entry tasked.config).act;
      pending_reboot = held_back an_entry tasked.config;
      facts_checked = 0;
    })
unfolding coordinate ◌=ᵗ◌ source_task decide execute
coordinate_persists_example = coordinate_persists an_entry tasked a_config refl refl

coordinate_refused_example :
    Perm (coordinate refusing_platform tasked).0.config.pending_reboot tasked.config.pending_reboot
unfolding coordinate ◌=ᵗ◌ source_task decide execute
coordinate_refused_example = coordinate_refused refusing_platform tasked refl refl

coordinate_resets_example :
    (coordinate refusing_platform (with_reasons (a_power ∷ []))).0.config.rebooted_for_task ≡ pos 0
unfolding coordinate ◌=ᵗ◌ source_task decide execute
coordinate_resets_example = coordinate_resets refusing_platform (with_reasons (a_power ∷ [])) refl

coordinate_withdraws_example :
    has_task_reason
      (reconcile a_machine a_state
        (restarted a_config (coordinate an_entry tasked).0.log)).0.config.pending_reboot
    ≡ false
unfolding coordinate ◌=ᵗ◌ source_task decide execute cap_taskreboot
coordinate_withdraws_example =
    coordinate_withdraws an_entry a_machine a_state
      (record { id = pos 4; type = text "deploy"; force = true }) tasked a_config refl refl refl
      refl refl
