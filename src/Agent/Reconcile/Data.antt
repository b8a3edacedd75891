-- ===== src/Agent/Reconcile/Data.antt =====
-- The desired state that the server sends, what the providers report, and what the outside answers.
use fog_agent.Prelude.{Bool, List, Option, Text, Time}
use fog_agent.Prelude.Int.{ℤ}
use fog_agent.Enroll.Data.{Schedule}
use fog_agent.AutoLogout
use fog_agent.Reboot
use fog_agent.Update.Run.Data
use fog_agent.Wake
use fog_agent.Agent.World.{Status, Request, Log}

-- hostname.Desired
pub record HostName : Type 0 where
  pub name : Text
  pub enforce : Bool
  pub wait_until : Text

-- reboot.Task
pub record Task : Type 0 where
  pub id : ℤ
  pub type : Text
  pub force : Bool

-- power.OnDemand
pub record OnDemand : Type 0 where
  pub id : ℤ
  pub action : Text

-- power.Policy
pub record Power : Type 0 where
  pub schedules : List Schedule
  pub on_demand : List OnDemand

-- snapin.Task, as far as the queue reads it, and the file's name and digest.
pub record Snapin : Type 0 where
  pub id : ℤ
  pub name : Text
  pub file : Text
  pub sha512 : Text
  pub action : Text
  pub abort_on_fail : Bool

-- software.Entry
pub record Entry : Type 0 where
  pub id : ℤ
  pub backend : Text
  pub package_name : Text
  pub version : Text
  pub state : Text
  pub source : Text
  pub args : Text
  pub timeout : ℤ

-- software.Policy, with software.Bootstrap's fields
pub record Software : Type 0 where
  pub drift_interval : ℤ
  pub bootstrap_url : Text
  pub nupkg_url : Text
  pub entries : List Entry

-- printerset.Printer
pub record Printer : Type 0 where
  pub id : ℤ
  pub name : Text
  pub uri : Text
  pub driver : Text

-- printerset.Policy
pub record Printers : Type 0 where
  pub manage : Text
  pub default : Text
  pub printers : List Printer

-- directoryjoin.Policy, less the rejoin plan
pub record Directory : Type 0 where
  pub domain : Text
  pub netbios : Text
  pub ou : Text
  pub username : Text
  pub password : Text
  pub reboot : Bool
  pub rename_to : Text

-- DesiredState
pub record Desired : Type 0 where
  pub revision : Text
  pub capabilities : List Text
  pub hostname : Option HostName
  pub task : Option Task
  pub reboot : Option Reboot.Policy
  pub snapins : List Snapin
  pub software : Option Software
  pub power : Option Power
  pub printers : Option Printers
  pub update : Option Data.Desired
  pub directory : Option Directory
  pub wake : Option (List Wake.Target)
  pub autologout : Option AutoLogout.Policy
  -- activation.Desired, its key
  pub activation : Option Text

-- provider.Result
pub record Result : Type 0 where
  pub status : Status
  pub detail : Text

-- snapin.Result
pub record SnapinResult : Type 0 where
  pub fetched : Bool
  pub status : Text
  pub exit_code : ℤ
  pub details : Text

-- software.Report, as far as it is read
pub record SoftwareReport : Type 0 where
  pub entry : Entry
  pub status : Text
  pub installed_version : Text
  pub exit_code : ℤ
  pub details : Text

-- printerset.Report
pub record PrinterReport : Type 0 where
  pub printer : Printer
  pub status : Text
  pub error : Text
  pub detail : Text

-- wake.Report, with its words written out
pub record WakeReport : Type 0 where
  pub id : ℤ
  pub status : Text
  pub packets : ℤ
  pub detail : Text

-- directoryjoin.Report
pub record DirectoryReport : Type 0 where
  pub status : Text
  pub error : Text
  pub detail : Text
  pub reboot : Bool
  pub force : Bool

-- The machine and the server under a reconcile. An answer may depend on all that was done before.
pub record Machine : Type 0 where
  pub clock : Log → Time
  pub can_save : Log → Bool
  -- client.Result: the outcome, none on an error
  pub answer : Log → Request → Option Text
  -- fmt's %q, and strings.TrimSpace
  pub quote : Text → Text
  pub trim : Text → Text
  -- the providers
  pub ensure_hostname : Log → HostName → Result
  pub ensure_activation : Log → Text → Result
  pub run_snapin : Log → Snapin → SnapinResult
  -- software.Choco: Available, InstallChoco with its output and its error, and Converge
  pub choco_available : Log → Bool
  pub install_choco : Log → Text → Text → Text × Option Text
  pub converge_software : Log → List Entry → List SoftwareReport
  -- printers.Gather's second result, the backend's reason if it is missing, and Converge
  pub printers_read : Log → Bool
  pub printers_missing : Log → Option Text
  pub converge_printers : Log → Printers → List PrinterReport
  -- whether wake.NewUDPSender gives a sender, and wake.Run on it
  pub has_sender : Log → Bool
  pub relay : Log → List Wake.Target → List WakeReport
  -- directory.Gather's second result, and directoryjoin.Converge
  pub membership_read : Log → Bool
  pub converge_directory : Log → Directory → DirectoryReport
  -- update.Run, and whether the agent is to start again
  pub run_update : Log → Data.Desired → Result × Bool
