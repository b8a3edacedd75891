-- ===== src/Update/Run/Data.antt =====
-- internal/provider/update/update.go: what the server asks for, what the caller injects, and what a run
-- reports, with the words that it reports a failure by.
use fog_agent.Prelude.{ℕ, Bool, true, false, ◌&&◌, Option, if◌then◌else◌, Text, Time}
use fog_agent.Prelude.Int.{ℤ}
use fog_agent.Release
use fog_agent.Release.{
  Crypto, Manifest, Artifact, Stream, Error, hash, stale, signature, io, read_limited, verify,
  fresh, find, copy_verified,
}
use fog_agent.Update.Files.{Failure}

pub record Desired : Type 0 where
  pub version : Text
  pub manifest_url : Text
  pub manifest : Text
  pub signature : Text
  pub artifact : ℤ

-- The words that the server classifies a failure by.
pub data Code : Type 0 where
  bad_version no_signing_root below_floor bad_signature stale_manifest no_artifact hash_mismatch :
      Code
  cannot_arm fetch_failed swap_failed : Code

-- What follows the word in the detail, one constructor for each message.
pub data Cause : Type 0 where
  quoted : Text → Cause
  below : Text → Text → Cause
  no_root no_url envelope_unreadable expired untrusted both_hash served_hash : Cause
  unverified : Error → Cause
  replayed : ℤ → ℤ → Cause
  recording arming swapping : Failure → Cause
  missing : Text → Text → Text → Cause
  of_manifest of_signature of_artifact : Error → Cause
  of_both : Error → Error → Cause
  of_copies : Code → Cause → Code → Cause → Cause

pub record Detail : Type 0 where
  pub code : Code
  pub cause : Cause

-- provider.Result, with its status and what its detail says.
pub data Report : Type 0 where
  already : Text → Report
  deferred : Text → Report
  failed : Detail → Report
  applied : Text → Text → Report

-- 1 << 20
abbrev pub max_manifest : ℕ
max_manifest = 1048576

-- accept: the entry of the manifest, or the detail and whether it was the bytes that failed.
pub data Accepted : Type 0 where
  entry : Manifest → Artifact → Accepted
  rejected : Detail → Bool → Accepted

-- fetchArtifact's error
pub data StageError : Type 0 where
  one : Error → StageError
  both : Error → Error → StageError

pub data Staged : Type 0 where
  staged_as : ℕ → Staged
  not_staged : StageError → Staged

abbrev pub is_hash : Error → Bool
is_hash hash = true
is_hash e = false

-- reasonFor
unfoldable pub reason_for : Error → Detail
reason_for stale = record { code = stale_manifest; cause = expired }
reason_for signature = record { code = bad_signature; cause = untrusted }
reason_for e = record { code = bad_signature; cause = unverified e }

-- artifactFailure
unfoldable pub artifact_failure : StageError → Detail
artifact_failure (both server origin) =
    if is_hash server && is_hash origin
    then record { code = hash_mismatch; cause = both_hash }
    else record { code = fetch_failed; cause = of_both server origin }
artifact_failure (one e) =
    if is_hash e
    then record { code = hash_mismatch; cause = served_hash }
    else record { code = fetch_failed; cause = of_artifact e }

-- What the caller injects, with the values of the build; `room` is the space that the directory of the
-- binary has for a download.
pub record Config (c : Crypto) : Type 0 where
  pub current : Text
  pub goos : Text
  pub goarch : Text
  pub roots : c.CertPool
  pub root_count : ℕ
  pub default_manifest_url : Text
  pub min_downgrade : Text
  pub busy : Option Text
  pub fetch : Text → Release.Result Stream
  pub payload : Option (ℤ → Stream)
  pub now : Time
  pub probation : ℕ
  pub room : ℕ
