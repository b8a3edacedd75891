-- ===== src/Rejoin/Data.antt =====
-- The records of rejoin.go and rejoin_observe.go, and what the standard library makes of them.
use native.Mathlib.Decide.{ℕ_discrete}
use fog_agent.Prelude.{Bool, ℕ, is_yes, List, Option, Text}
use fog_agent.Prelude.Int.{ℤ}

-- RejoinObject; `spns` is none for a nil slice.
pub record RejoinObject : Type 0 where
  pub guid : Text
  pub sid : Text
  pub dn : Text
  pub account : Text
  pub dns : Text
  pub uac : ℕ
  pub pwd_last_set : Text
  pub spns : Option (List Text)

-- RejoinPlan
pub record RejoinPlan : Type 0 where
  pub task_id : ℤ
  pub version : ℤ
  pub operation : Text
  pub expected_current : Text
  pub expected_pending : Text
  pub retry_authorized : Bool
  pub attempt_id : Text
  pub host_id : ℤ
  pub config_revision : Text
  pub phase : Text
  pub name : Text
  pub domain : Text
  pub mode : Text
  pub dc : Text
  pub target : Option RejoinObject
  pub reason : Text

-- BootObservation
pub record Boot : Type 0 where
  pub marker : Text
  pub started : Text

-- RejoinObservation
pub record Observation : Type 0 where
  pub current_name : Text
  pub pending_name : Text
  pub domain : Text
  pub netbios : Text
  pub role : Text
  pub secure_channel : Text
  pub boot : Boot

-- Attempt
pub record Attempt : Type 0 where
  pub version : ℤ
  pub fingerprint : Text
  pub plan : RejoinPlan
  pub phase : Text
  pub before_boot : Boot
  pub native_status : Option ℕ
  pub reboot_requested : Bool

-- What the standard library answers. `decode` reads the first JSON value of a text without unknown
-- fields, and says whether nothing stands behind it.
pub record Library : Type 0 where
  pub equal_fold : Text → Text → Bool
  pub trim : Text → Text
  -- net.ParseIP(s) != nil
  pub is_ip : Text → Bool
  -- rejoinGUID and rejoinName, which fold case
  pub matches_guid : Text → Bool
  pub matches_name : Text → Bool
  pub encode : Attempt → Option Text
  pub decode : Text → Option (Attempt × Bool)
  -- hex.EncodeToString of sha256.Sum256
  pub digest : Text → Text

-- reflect.DeepEqual
unfoldable pub RejoinPlan-discrete : Discrete RejoinPlan
RejoinPlan-discrete = hlevel ℕ_discrete

unfoldable pub Attempt-discrete : Discrete Attempt
Attempt-discrete = hlevel ℕ_discrete

unfoldable pub same_plan : RejoinPlan → RejoinPlan → Bool
same_plan p q = is_yes (RejoinPlan-discrete p q)

unfoldable pub same_attempt : Attempt → Attempt → Bool
same_attempt a b = is_yes (Attempt-discrete a b)
