-- ===== src/Tests/Worlds.antt =====
-- A machine, a server and a platform on which nothing fails, for the tests of the agent.
use fog_agent.Prelude.{true, false, List, [], ◌∷◌, none, some, text}
use fog_agent.Prelude.Int.{pos}
use fog_agent.Enroll.Data.{Config, empty_config}
use fog_agent.Reboot.{Reason}
use fog_agent.Netboot.{err, no_option}
use fog_agent.Agent.World.{applied, unchanged, Agent}
use fog_agent.Agent.Coordinate.{Platform}
use fog_agent.Agent.Reconcile.Data.{Snapin, Desired, Machine}

abbrev pub a_task : Reason
a_task = record {
  source = text "task";
  detail = text "deploy";
  force = true;
  since = 7;
  task_id = pos 4;
  mode = [];
}

abbrev pub a_power : Reason
a_power = record {
  source = text "power";
  detail = text "on-demand";
  force = true;
  since = 7;
  task_id = pos 0;
  mode = text "shutdown";
}

-- Nobody is logged in, and the restart is accepted.
abbrev pub machine_platform : Platform
machine_platform = record {
  windows = false;
  users = some 0;
  boot_entry = err no_option;
  marker = none;
  can_save = λ log. true;
  can_claim = λ log b. true;
  can_arm = λ log. true;
  can_disarm = λ log. true;
  restart = λ log m d t. none;
  message = λ d. [];
}

abbrev pub a_machine : Machine
a_machine = record {
  clock = λ log. 9;
  can_save = λ log. true;
  answer = λ log r. some (text "success");
  quote = λ t. t;
  trim = λ t. t;
  ensure_hostname = λ log h. record { status = unchanged; detail = [] };
  ensure_activation = λ log k. record { status = applied; detail = [] };
  run_snapin =
      λ log t. record { fetched = true; status = text "ran"; exit_code = pos 0; details = [] };
  choco_available = λ log. true;
  install_choco = λ log u n. ([], none);
  converge_software = λ log es. [];
  printers_read = λ log. true;
  printers_missing = λ log. none;
  converge_printers = λ log p. [];
  has_sender = λ log. true;
  relay = λ log ts. [];
  membership_read = λ log. true;
  converge_directory = λ log p. record {
    status = text "refused";
    error = [];
    detail = [];
    reboot = false;
    force = false;
  };
  run_update = λ log u. (record { status = unchanged; detail = [] }, false);
}

abbrev pub a_snapin : Snapin
a_snapin = record {
  id = pos 3;
  name = text "tool";
  file = text "tool.sh";
  sha512 = [];
  action = [];
  abort_on_fail = false;
}

abbrev pub a_state : Desired
a_state = record {
  revision = text "r2";
  capabilities = text "taskreboot" ∷ text "snapin" ∷ [];
  hostname = none;
  task = some (record { id = pos 4; type = text "deploy"; force = true });
  reboot = none;
  snapins = a_snapin ∷ [];
  software = none;
  power = none;
  printers = none;
  update = none;
  directory = none;
  wake = none;
  autologout = none;
  activation = none;
}

abbrev pub a_config : Config
a_config = record empty_config { applied_revision = text "r1" }

abbrev pub an_agent : Agent
an_agent = record { config = a_config; log = [] }

abbrev pub with_reasons : List Reason → Agent
with_reasons rs = record { config = record a_config { pending_reboot = rs }; log = [] }
