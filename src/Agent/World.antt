-- ===== src/Agent/World.antt =====
-- The agent between two effects: the configuration in memory, and what was done to the outside so far.
-- What the outside answers may depend on all of that.
use fog_agent.Prelude.{ℕ, Bool, true, false, List, [], ◌∷◌, Option, if◌then◌else◌, Text}
use fog_agent.Prelude.Int.{ℤ}
use fog_agent.Enroll.Data.{Config}
use fog_agent.AutoLogout
use fog_agent.Reboot
use fog_agent.Netboot.{FirmwareError}

-- provider.Result's statuses
pub data Status : Type 0 where
  applied unchanged pending_reboot pending failed : Status

-- What is reported of a turn of the coordinator.
pub data Detail : Type 0 where
  decided : Reboot.Why → Detail
  withholding : Reboot.Why → FirmwareError → Detail
  refusing : FirmwareError → Detail
  nothing_left : Detail

-- ResultItem, less the fields that only a directory operation fills.
pub record Item : Type 0 where
  pub id : ℤ
  pub status : Text
  pub exit_code : ℤ
  pub installed_version : Text
  pub packets : ℤ
  pub details : Text

-- ResultRequest
pub record Request : Type 0 where
  pub revision : Text
  pub capability : Text
  pub status : Status
  pub detail : Text
  pub item : Option Item

pub data Effect : Type 0 where
  -- SaveConfig that succeeded
  saved : Config → Effect
  -- client.Result with what the server answered: none is an error
  told : Request → Option Text → Effect
  -- snapin.Run for a task
  ran : ℤ → Effect
  -- update.Run, with the configuration that it ran under
  updated : Config → Effect
  -- an action of the idle logoff
  acted : AutoLogout.Action → Effect
  -- passedProbation and reportRevert, on the records of the update
  settled : Effect
  -- client.Result of the coordinator
  reported : Status → Detail → Effect
  -- SetAttemptRebootRequested that succeeded
  claimed : Bool → Effect
  -- netboot.Arm and netboot.Disarm that succeeded
  armed : ℕ → Effect
  disarmed : Effect
  -- the request of reboot.Execute, and whether it was accepted
  asked : Text → ℤ → Bool → Effect

-- The latest first.
abbrev pub Log : Type 0
Log = List Effect

pub record Agent : Type 0 where
  pub config : Config
  pub log : Log

abbrev pub note : Agent → Effect → Agent
note a e = record a { log = e ∷ a.log }

-- State.SaveConfig, with its error as whether it was written.
unfoldable pub save : (Log → Bool) → Agent → Agent × Bool
save can_save a = if can_save a.log then (note a (saved a.config), true) else (a, false)

-- What config.json holds, if it held the first argument before.
abbrev pub on_disk : Config → Log → Config
on_disk before [] = before
on_disk before (saved c ∷ log) = c
on_disk before (told r o ∷ log) = on_disk before log
on_disk before (ran n ∷ log) = on_disk before log
on_disk before (updated c ∷ log) = on_disk before log
on_disk before (acted x ∷ log) = on_disk before log
on_disk before (settled ∷ log) = on_disk before log
on_disk before (reported s d ∷ log) = on_disk before log
on_disk before (claimed b ∷ log) = on_disk before log
on_disk before (armed n ∷ log) = on_disk before log
on_disk before (disarmed ∷ log) = on_disk before log
on_disk before (asked m d b ∷ log) = on_disk before log
