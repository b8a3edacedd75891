-- ===== src/Enroll/Data.antt =====
-- The files of the state directory and the records of internal/enroll/state.go.
use fog_agent.Prelude.{Bool, true, false, List, [], Option, if◌then◌else◌, Text, Time}
use fog_agent.Prelude.Int.{ℤ, pos}
use fog_agent.AutoLogout
use fog_agent.Reboot

-- keyFile, identityFile, certFile, caFile, configFile
pub data Name : Type 0 where
  key identity cert ca config : Name

-- A name, or the name with ".tmp" behind it.
pub data File : Type 0 where
  main temp : Name → File

abbrev pub same_name : Name → Name → Bool
same_name key key = true
same_name identity identity = true
same_name cert cert = true
same_name ca ca = true
same_name config config = true
same_name m n = false

abbrev pub same_file : File → File → Bool
same_file (main m) (main n) = same_name m n
same_file (temp m) (temp n) = same_name m n
same_file f g = false

abbrev pub Disk : Type 0
Disk = File → Option Text

abbrev pub store : Disk → File → Option Text → Disk
store d f o g = if same_file f g then o else d g

-- What the agent asks of the operating system; `writing` and `renaming` are about the temporary file.
pub data Call : Type 0 where
  making_directory : Call
  reading writing removing renaming : Name → Call

pub data Failure : Type 0 where
  not_exist : Failure
  refused : Call → Failure
  bad_config no_key bad_key key_not_made : Failure

-- identity.Host, with the four fields that the code reads of the SMBIOS package's Identity.
pub record Host : Type 0 where
  pub system_uuid : Text
  pub system_serial : Text
  pub board_serial : Text
  pub chassis_asset : Text
  pub smbios_version : Text
  pub macs : List Text
  pub warnings : List Text

-- power.Schedule
pub record Schedule : Type 0 where
  pub cron : Text
  pub action : Text

-- usersession.Session
pub record Session : Type 0 where
  pub key : Text
  pub user : Text
  pub domain : Text
  pub sid : Text
  pub type : Text
  pub state : Text
  pub remote_host : Text
  pub started_at : Time
  pub ended_at : Time
  pub end_reason : Text

-- Config
pub record Config : Type 0 where
  pub server_url : Text
  pub system_trust : Bool
  pub host_id : ℤ
  pub pending_token : Text
  pub applied_revision : Text
  pub applied_with : Text
  pub pending_reboot : List Reboot.Reason
  pub reboot_grace : ℤ
  pub rebooted_for_task : ℤ
  pub software_checked : Time
  pub software_drift : ℤ
  pub software_blocked : Bool
  pub printers_managed : Bool
  pub printers_checked : Time
  pub power_schedules : List Schedule
  pub power_fired : Time
  pub inventory_hash : Text
  pub software_hash : Text
  pub directory_hash : Text
  pub printers_hash : Text
  pub network_hash : Text
  pub secure_boot_hash : Text
  pub facts_checked : Time
  pub want_inventory : Bool
  pub want_software : Bool
  pub want_directory : Bool
  pub want_printers : Bool
  pub want_network : Bool
  pub want_secure_boot : Bool
  pub unauthorized_since : Time
  pub sessions_acked : Text
  pub sessions_pending : List Session
  pub sessions_checked : Time
  pub sessions_disabled : Bool
  pub facts_disabled : Bool
  pub auto_logout : AutoLogout.Policy

-- Config{}
abbrev pub empty_config : Config
empty_config = record {
  server_url = [];
  system_trust = false;
  host_id = pos 0;
  pending_token = [];
  applied_revision = [];
  applied_with = [];
  pending_reboot = [];
  reboot_grace = pos 0;
  rebooted_for_task = pos 0;
  software_checked = 0;
  software_drift = pos 0;
  software_blocked = false;
  printers_managed = false;
  printers_checked = 0;
  power_schedules = [];
  power_fired = 0;
  inventory_hash = [];
  software_hash = [];
  directory_hash = [];
  printers_hash = [];
  network_hash = [];
  secure_boot_hash = [];
  facts_checked = 0;
  want_inventory = false;
  want_software = false;
  want_directory = false;
  want_printers = false;
  want_network = false;
  want_secure_boot = false;
  unauthorized_since = 0;
  sessions_acked = [];
  sessions_pending = [];
  sessions_checked = 0;
  sessions_disabled = false;
  facts_disabled = false;
  auto_logout = record { minutes = pos 0; warn_seconds = pos 0; message = [] };
}
