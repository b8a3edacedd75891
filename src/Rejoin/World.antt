-- ===== src/Rejoin/World.antt =====
-- What a rejoin works on: the configuration, the marker's disk, and a log of what was done, which the
-- answers of the outside may depend on.
use fog_agent.Prelude.{ℕ, Bool, List, ◌∷◌, Option, Text, Time}
use fog_agent.Prelude.Int.{ℤ}
use fog_agent.Enroll.Data.{Config}
use fog_agent.Agent.Reconcile.Data.{Directory}
use fog_agent.Rejoin.Data.{RejoinPlan, Observation, Library}
use fog_agent.Rejoin.Valid.{Invalid}
use fog_agent.Rejoin.Marker.{Disk, Call, Failure}

-- renameDirectory, joinDirectory and rebindDirectory
pub data Native : Type 0 where
  rename join rebind : Native

-- ResultRequest with its item, as rejoinReport fills them
pub record Report : Type 0 where
  pub revision : Text
  pub host_id : ℤ
  pub attempt_id : Text
  pub config_revision : Text
  pub task_id : ℤ
  pub status : Text
  pub native_status : Option ℕ
  pub secure_channel : Text
  pub boot_changed : Bool
  pub current_name : Text
  pub domain : Text
  pub netbios : Text

pub data Effect : Type 0 where
  -- a call on the marker, with the disk that it left
  kept : Disk → Effect
  -- a report, and whether the server took it
  told : Report → Bool → Effect
  -- StartRejoin, and whether it gave the credential
  claimed : RejoinPlan → Bool → Effect
  -- SetRejoinName, with the disk at the time
  named : Disk → Text → Bool → Effect
  -- a native call, with the disk at the time
  called : Disk → Native → RejoinPlan → Effect
  -- SaveConfig that succeeded
  saved : Config → Effect

-- The latest first.
abbrev pub Log : Type 0
Log = List Effect

pub record Host : Type 0 where
  pub config : Config
  pub disk : Disk
  pub log : Log

-- The errors of processRejoin.
pub data Stop : Type 0 where
  marker : Failure → Stop
  invalid : Invalid → Stop
  no_fingerprint unconfirmed bad_rename unresolved absent unobserved bad_role domain_mismatch
        names_changed pending_conflict not_started name_review outcome_review unsaved unreported
        another_identity replay_stopped unhealthy restart_not_recorded :
      Stop

-- What the outside answers.
pub record Machine : Type 0 where
  pub lib : Library
  pub refuses : Log → Call → Bool
  -- KeyFingerprint: none is an error
  pub fingerprint : Option Text
  -- ObserveRejoin, and whether it gave no error
  pub observe : Log → Text → Observation × Bool
  -- StartRejoin: the credential and the flags that come with it
  pub start : Log → RejoinPlan → Option Directory
  pub set_name : Log → Text → Bool
  -- the native status of a call, none on an error
  pub native : Log → Native → Directory → RejoinPlan → Option ℕ
  pub accepts : Log → Report → Bool
  pub can_save : Log → Bool
  pub clock : Log → Time

abbrev pub note : Host → Effect → Host
note w e = record w { log = e ∷ w.log }

-- A call on the marker, as it is logged.
abbrev pub mark : Host → Disk × Option Failure → Host × Option Failure
mark w (d, e) = (record w { disk = d; log = kept d ∷ w.log }, e)
