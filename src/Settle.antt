-- ===== src/Settle.antt =====
-- What the agent trusts for its server: openState, forgetStaleTrust and settleTrust of
-- cmd/fog-agent/main.go, acquireCA of cmd/fog-agent/caprobe.go, ForgetTrust of
-- internal/enroll/checktrust.go. The lines that are printed are left out.
pub mod Confirmed
pub mod Settled
use fog_agent.Prelude.{
  Bool, true, false, not, ◌&&◌, ◌||◌, List, [], ◌∷◌, Option, none, some, if◌then◌else◌, ltb, length,
  Text, text, ◌=ᵗ◌, ◌==◌, same_bool,
}
use fog_agent.Enroll.Data.{ca, Disk, Call, Failure, Config}
use fog_agent.Enroll.{
  Codec, State, load, remove_file, save_config, save_ca, use_system_trust, drop_issued, ca_of,
  has_trust,
}

-- commonFlags, as far as it is read
pub record Flags : Type 0 where
  pub server : Text
  pub ca_path : Text
  pub ca_fingerprint : Text

-- CAProbe, as far as it is read
pub record Probe : Type 0 where
  pub system_trust : Bool
  pub fingerprint : Text
  pub pem : Text

pub data Trouble : Type 0 where
  disk : Failure → Trouble
  no_server no_bundle no_probe pinned_expected other_ca declined no_trust : Trouble

-- What the outside answers. `is_stale` is whether checkTrust finds that the server's certificate does
-- not verify, or that there is no bundle to verify it with.
pub record Outside : Type 0 where
  pub trim : Text → Text
  pub to_lower : Text → Text
  pub to_upper : Text → Text
  pub read_bundle : Text → Option Text
  pub probe : Text → Option Probe
  pub is_console : Bool
  pub answer : Text
  pub is_stale : Disk → State → Bool

-- trustSnapshot
pub record Snapshot : Type 0 where
  pub system : Bool
  pub bundle : Text
  pub server : Text

abbrev pub with_server : Text → State → State
with_server server st =
    if server =ᵗ []
    then st
    else record st { config_of = record st.config_of { server_url = server } }

module _ (codec : Codec) (refuses : Call → Bool) (o : Outside) where
  -- SameFingerprint: without the separators, and in upper case
  unfoldable pub strip : Text → Text
  strip [] = []
  strip (c ∷ cs) =
      let rest = strip cs in if c == b':' || c == b' ' || c == b'-' then rest else c ∷ rest

  unfoldable pub same_fingerprint : Text → Text → Bool
  unfolding strip
  same_fingerprint a b =
      let cleaned = o.to_upper (strip a) in not (cleaned =ᵗ []) && cleaned =ᵗ o.to_upper (strip b)

  -- What acquireCA makes of a probe: the bundle, and whether the machine's trust is used.
  unfoldable pub judge_probe : Text → Probe → (Text × Bool) × Option Trouble
  unfolding same_fingerprint
  judge_probe want p =
      if p.system_trust
      then (if want =ᵗ [] then (([], true), none) else (([], false), some pinned_expected))
      else if not (want =ᵗ [])
      then (if same_fingerprint want p.fingerprint
          then ((p.pem, false), none)
          else (([], false), some other_ca))
      else if not o.is_console
      then (([], false), none)
      else if o.to_lower o.answer =ᵗ text "y" || o.to_lower o.answer =ᵗ text "yes"
      then ((p.pem, false), none)
      else (([], false), some declined)

  -- acquireCA
  unfoldable pub acquire_ca : Flags → Text → (Text × Bool) × Option Trouble
  unfolding judge_probe
  acquire_ca f server = elim (o.probe server) [
    | none ↦ (([], false), some no_probe)
    | some p ↦ judge_probe (o.trim f.ca_fingerprint) p
  ]

  -- A result of the state directory, as one of this module.
  abbrev pub lift : Disk × State × Option Failure → Disk × State × Option Trouble
  lift (d, st, none) = (d, st, none)
  lift (d, st, some e) = (d, st, some (disk e))

  -- The first block of openState that pins something: --ca
  unfoldable pub pin_file : Flags → Disk → State → Disk × State × Option Trouble
  unfolding save_ca
  pin_file f d st = if f.ca_path =ᵗ [] then (d, st, none) else elim (o.read_bundle f.ca_path) [
    | none ↦ (d, st, some no_bundle)
    | some pem ↦ lift (save_ca codec refuses d st pem)
  ]

  -- The switch on what acquireCA gave.
  unfoldable pub pin_acquired :
      (Text × Bool) × Option Trouble → Disk → State → Disk × State × Option Trouble
  unfolding save_ca use_system_trust
  pin_acquired (got, some e) d st = (d, st, some e)
  pin_acquired ((pem, system), none) d st =
      if system
      then lift (use_system_trust codec refuses d st)
      else if ltb 0 (length pem)
      then lift (save_ca codec refuses d st pem)
      else (d, st, none)

  -- The second: nothing is trusted yet, so the server is asked.
  unfoldable pub pin_probe : Flags → Disk → State → Disk × State × Option Trouble
  unfolding has_trust acquire_ca pin_acquired
  pin_probe f d st =
      if has_trust codec refuses d st
      then (d, st, none)
      else pin_acquired (acquire_ca f st.config_of.server_url) d st

  -- The end of openState.
  unfoldable pub keep_state : Disk → State → Disk × State × Option Trouble
  unfolding has_trust save_config
  keep_state d st =
      if not (has_trust codec refuses d st)
      then (d, st, some no_trust)
      else let (d1, e) = save_config codec refuses d st in lift (d1, st, e)

  -- A step that is taken where the one before gave no error.
  abbrev pub next :
      (Disk → State → Disk × State × Option Trouble)
      → Disk × State × Option Trouble
      → Disk × State × Option Trouble
  next step (d, st, none) = step d st
  next step (d, st, some e) = (d, st, some e)

  -- openState, once the state is loaded
  unfoldable pub open_loaded : Flags → Disk → State → Disk × State × Option Trouble
  unfolding pin_file pin_probe keep_state
  open_loaded f d st =
      if st.config_of.server_url =ᵗ []
      then (d, st, some no_server)
      else next keep_state (next (pin_probe f) (pin_file f d st))

  -- openState
  unfoldable pub open_state : Flags → Disk → Disk × State × Option Trouble
  unfolding load open_loaded
  open_state f d =
      let (st, e) = load codec refuses d in
      elim e [ some x ↦ (d, st, some (disk x)) | none ↦ open_loaded f d (with_server f.server st) ]

  -- ForgetTrust
  unfoldable pub forget_trust : Disk → State → Disk × State × Option Failure
  unfolding remove_file save_config
  forget_trust d st =
      let (d1, e1) = remove_file codec refuses d ca in
      let st' = record st { config_of = record st.config_of { system_trust = false } } in
      let (d2, e2) = save_config codec refuses d1 st' in
      elim e1 [ some e ↦ (d1, st, some e) | none ↦ (d2, st', e2) ]

  abbrev pub snapshot_of : Disk → State → Snapshot
  snapshot_of d st = record {
    system = st.config_of.system_trust;
    bundle = ca_of codec refuses d;
    server = st.config_of.server_url;
  }

  -- forgetStaleTrust: what the trust was, whether it was forgotten, and the error.
  unfoldable pub forget_stale_trust : Flags → Disk → Disk × Snapshot × Bool × Option Trouble
  unfolding load ca_of has_trust forget_trust
  forget_stale_trust f d =
      let (st, e) = load codec refuses d in
      let snap = snapshot_of d st in
      let st1 = with_server f.server st in
      let (d1, st2, e1) = lift (forget_trust d st1) in
      elim e [
        | some x ↦ (d, record { system = false; bundle = []; server = [] }, false, some (disk x))
        | none ↦
            if not (has_trust codec refuses d st1) || st1.config_of.server_url =ᵗ []
            then (d, snap, false, none)
            else if not (o.is_stale d st1)
            then (d, snap, false, none)
            else (d1, snap, true, e1)
      ]

  -- The trust of before goes back, on the state that is loaded anew.
  unfoldable pub put_back : Snapshot → Disk → State → Disk × Option Failure
  unfolding use_system_trust save_ca save_config
  put_back snap d old =
      let st = record old { config_of = record old.config_of { server_url = snap.server } } in
      let (d1, st1, e1) = use_system_trust codec refuses d st in
      let (d2, st2, e2) = save_ca codec refuses d st snap.bundle in
      let (d3, e3) = save_config codec refuses d2 st2 in
      if snap.system then (d1, e1) else elim e2 [ some e ↦ (d2, some e) | none ↦ (d3, e3) ]

  unfoldable pub restore_trust : Snapshot → Disk → Disk × Option Failure
  unfolding load put_back
  restore_trust snap d =
      let (old, e) = load codec refuses d in
      elim e [ some x ↦ (d, some x) | none ↦ put_back snap d old ]

  -- What follows an openState that failed after the trust was forgotten.
  unfoldable pub after_failure :
      Flags → Snapshot → Disk × State × Option Trouble → Disk × State × Option Trouble
  unfolding restore_trust open_state
  after_failure f snap (d, st, why) =
      let (d1, e) = restore_trust snap d in
      let again = open_state f d1 in
      elim e [
        | some x ↦ (d1, st, some (disk x))
        | none ↦
            if not (f.ca_fingerprint =ᵗ []) || not (f.ca_path =ᵗ []) then (d1, st, why) else again
      ]

  -- What follows one that did not: a certificate of an older trust is dropped.
  unfoldable pub after_success : Bool → Snapshot → Disk → State → Disk × State × Option Trouble
  unfolding ca_of drop_issued
  after_success forgot snap d st =
      let same =
        same_bool st.config_of.system_trust snap.system && ca_of codec refuses d =ᵗ snap.bundle in
      if forgot && ltb 0 (length st.cert_of) && not same
      then lift (drop_issued codec refuses d st)
      else (d, st, none)

  abbrev pub after_open :
      Flags → Snapshot → Bool → Disk × State × Option Trouble → Disk × State × Option Trouble
  after_open f snap forgot (d, st, none) = after_success forgot snap d st
  after_open f snap true (d, st, some e) = after_failure f snap (d, st, some e)
  after_open f snap false (d, st, some e) = (d, st, some e)

  -- settleTrust
  unfoldable pub settle_trust : Flags → Disk → Disk × State × Option Trouble
  unfolding forget_stale_trust open_state after_failure after_success
  settle_trust f d =
      let (d1, snap, forgot, e) = forget_stale_trust f d in
      elim e [
        | some x ↦ (d1, (load codec refuses d1).0, some x)
        | none ↦ after_open f snap forgot (open_state f d1)
      ]
