-- ===== src/Join.antt =====
-- internal/provider/directoryjoin/directoryjoin.go: whether the machine joins a domain or is renamed in
-- it, and the call that does it.
pub mod Calls
use fog_agent.Prelude.{
  Bool, true, false, not, ◌&&◌, ◌||◌, List, [], ◌∷◌, ◌++◌, if◌then◌else◌, Text, text, ◌=ᵗ◌, cut, ℕ,
}
use fog_agent.Agent.Reconcile.Data.{Directory, DirectoryReport}
use fog_agent.Agent.Reconcile.Queues.{truncate}

-- directory.Directory, as far as it is read
pub record Membership : Type 0 where
  pub joined : Bool
  pub domain : Text
  pub netbios : Text

-- Names
pub record Names : Type 0 where
  pub current : Text
  pub pending : Text

-- Action
pub data Action : Type 0 where
  stay join refuse rename renamed : Action

-- Result, with NativeStatus, which is 0 where there is none
pub record JoinResult : Type 0 where
  pub status : Text
  pub error : Text
  pub native_status : ℕ
  pub reboot : Bool

-- What the package strings answers, and the backend.
pub record Backend : Type 0 where
  pub trim : Text → Text
  pub to_lower : Text → Text
  pub equal_fold : Text → Text → Bool
  pub available : Bool × Text
  pub run_join : Directory → JoinResult
  pub run_rename : Directory → JoinResult

-- A call of the backend.
pub data Attempted : Type 0 where
  tried_join tried_rename : Directory → Attempted

module _ (b : Backend) where
  -- sameDomain
  unfoldable pub same_domain : Membership → Text → Text → Bool
  unfolding cut
  same_domain observed want netbios =
      let short = b.trim netbios in
      let (label, rest, found) = cut b'.' want in
      b.equal_fold observed.domain want
      || (not (short =ᵗ []) && b.equal_fold observed.netbios short)
      || (not (observed.netbios =ᵗ [])
          && b.equal_fold observed.netbios (if found && not (label =ᵗ []) then label else want))

  -- strings.TrimSpace(p.Username) == "" || p.Password.Empty()
  unfoldable pub lacks_credential : Directory → Bool
  lacks_credential p = b.trim p.username =ᵗ [] || b.trim p.password =ᵗ []

  -- Decide in the domain that is wanted.
  unfoldable pub decide_member : Directory → Text → Names → Action × Text
  unfolding lacks_credential
  decide_member p want names =
      let to = b.trim p.rename_to in
      if to =ᵗ [] || b.equal_fold names.current to
      then (stay, text "already in " ++ want)
      else if not (names.pending =ᵗ []) && b.equal_fold names.pending to
      then (
        renamed,
        text "renamed to " ++ to ++ text " in " ++ want ++ text "; a restart finishes it",
      )
      else if lacks_credential p
      then (
        refuse,
        text "no credential to rename this machine in "
            ++ want
            ++ text ": set the AD username and password on the host",
      )
      else (rename, text "renaming " ++ names.current ++ text " to " ++ to ++ text " in " ++ want)

  -- Decide
  unfoldable pub decide : Directory → Membership → Names → Action × Text
  unfolding same_domain decide_member
  decide p observed names =
      let want = b.to_lower (b.trim p.domain) in
      if want =ᵗ []
      then (refuse, text "no domain to join: set one on the host")
      else if observed.joined && same_domain observed want p.netbios
      then decide_member p want names
      else if observed.joined
      then (
        refuse,
        text "already joined to "
            ++ observed.domain
            ++ text ", not "
            ++ want
            ++ text "; leaving a domain is not something FOG does for you",
      )
      else if lacks_credential p
      then (refuse, text "no join credential: set the AD username and password on the host")
      else (join, text "not joined; joining " ++ want)

  abbrev pub report : Text → Text → Text → Bool → Bool → DirectoryReport
  report status error detail reboot force = record {
    status = status;
    error = error;
    detail = detail;
    reboot = reboot;
    force = force;
  }

  -- The calls of Converge, where the backend is available.
  unfoldable pub attempt : Directory → Action → Text → DirectoryReport × List Attempted
  attempt p rename why =
      let r = b.run_rename p in
      (report r.status (truncate b.trim r.error) why false false, tried_rename p ∷ [])
  attempt p action why =
      let r = b.run_join p in
      (report r.status (truncate b.trim r.error) why r.reboot p.reboot, tried_join p ∷ [])

  abbrev pub when_available : Directory → Action → Text → DirectoryReport × List Attempted
  when_available p action why =
      let (ok, missing) = b.available in
      if ok
      then attempt p action why
      else (report (text "unsupported") (truncate b.trim missing) missing false false, [])

  -- Converge, from the decision on.
  unfoldable pub act : Directory → Action × Text → DirectoryReport × List Attempted
  unfolding attempt
  act p (refuse, why) = (report (text "refused") (truncate b.trim why) why false false, [])
  act p (stay, why) = (report (text "already_joined") [] why false false, [])
  act p (renamed, why) = (report (text "renamed") [] why false false, [])
  act p (rename, why) = when_available p rename why
  act p (join, why) = when_available p join why

  -- Converge: the report, the calls, and the policy that the caller still holds, without its password.
  unfoldable pub converge :
      Directory → Membership → Names → DirectoryReport × List Attempted × Directory
  unfolding decide act
  converge p observed names =
      let (r, calls) = act p (decide p observed names) in (r, calls, record p { password = [] })
