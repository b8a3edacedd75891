-- ===== src/Tests/Rejoining.antt =====
-- A join on a machine of no domain, and its marker.
use fog_agent.Reboot.{merge}
use fog_agent.Prelude.{
  ◌≡◌, ◌≢◌, refl, ap, sym, zero, suc, Bool, true, false, ◌⊎◌, List, [], ◌∷◌, ◌++◌, Option, none,
  some, if◌then◌else◌, Text, text, ◌=ᵗ◌,
}
use fog_agent.Prelude.Int.{pos}
use fog_agent.Enroll.Data.{empty_config}
use fog_agent.Agent.Reconcile.Data.{Directory}
use fog_agent.Enroll.{Codec, State, empty_state}
use fog_agent.Enroll.Rotation.{rotate_identity, rotate_identity-IsArchived}
use fog_agent.Rejoin.Marker.Cleared.{IsArchived}
use fog_agent.Rejoin.Data.{
  RejoinPlan-discrete, Attempt-discrete, RejoinPlan, Boot, Observation, Attempt, Library,
}
use fog_agent.Rejoin.Valid.{validate, matches_id, new_boot}
use fog_agent.Rejoin.Marker.{Disk, Call, set_reboot_requested}
use fog_agent.Rejoin.Marker.Saved.{Holds}
use fog_agent.Rejoin.Marker.Phases.{
  may_have_run, awaiting_reboot, unknown, Moves, Save, saves, IsAt, saves-Moves, set_requested_once,
}
use fog_agent.Rejoin.World.{Host, Machine}
use fog_agent.Rejoin.Dispatch.{first_attempt, in_phase, rejoin_report}
use fog_agent.Rejoin.Process.{is_healthy, confirm, process_rejoin}
use fog_agent.Rejoin.Process.Stuck.{
  Change, changes, of_name, of_account, IsUntouched, Turn, polls, polls-IsUntouched,
}
use fog_agent.Rejoin.Process.Latched.{IsWithin, IsLatched, process_rejoin-IsWithin}
use fog_agent.Rejoin.Process.Verified.{IsReported, confirm_disk}

abbrev sixteen : Text
sixteen = text "0123456789abcdef"

abbrev a_fingerprint : Text
a_fingerprint = sixteen ++ sixteen ++ sixteen ++ sixteen

abbrev a_plan : RejoinPlan
a_plan = record {
  task_id = pos 5;
  version = pos 2;
  operation = text "join";
  expected_current = text "OLD";
  expected_pending = text "OLD";
  retry_authorized = false;
  attempt_id = sixteen ++ sixteen;
  host_id = pos 7;
  config_revision = sixteen ++ sixteen;
  phase = text "ready";
  name = text "PC1";
  domain = text "example.com";
  mode = text "join";
  dc = text "dc1.example.com";
  target = none;
  reason = [];
}

abbrev a_boot : Boot
a_boot = record { marker = text "m1"; started = text "t1" }

abbrev the_attempt : Attempt
the_attempt = first_attempt a_fingerprint a_plan a_boot

-- Documents that hold the phase and the latch of the one attempt.
abbrev write_document : Attempt → Option Text
write_document a = some (if a.reboot_requested then 1 ∷ a.phase else 0 ∷ a.phase)

abbrev read_document : Text → Option (Attempt × Bool)
read_document [] = none
read_document (zero ∷ phase) = some (in_phase phase the_attempt, true)
read_document (suc n ∷ phase) =
    some (record (in_phase phase the_attempt) { reboot_requested = true }, true)

-- What is read of a document that stands for an attempt.
reads : (u t : Text) → some u ≡ some t → read_document t ≡ read_document u
reads u t e = ap (λ o. elim o [ none ↦ none | some x ↦ read_document x ]) (sym e)

abbrev a_library : Library
a_library = record {
  equal_fold = λ s t. s =ᵗ t;
  trim = λ s. s;
  is_ip = λ s. false;
  matches_guid = λ s. true;
  matches_name = λ s. true;
  encode = write_document;
  decode = read_document;
  digest = λ s. text "d";
}

abbrev empty_disk : Disk
empty_disk = record { active_of = none; temp_of = none; archived = λ n. none }

abbrev holding : Text → Disk
holding phase = record empty_disk { active_of = some (0 ∷ phase) }

abbrev a_host : Disk → Host
a_host d = record { config = record empty_config { host_id = pos 7 }; disk = d; log = [] }

abbrev a_policy : Directory
a_policy = record {
  domain = text "example.com";
  netbios = [];
  ou = [];
  username = text "joiner";
  password = text "secret";
  reboot = true;
  rename_to = [];
}

-- The machine before the restart, and, after it, as a member.
abbrev an_observation : Bool → Observation
an_observation restarted = record {
  current_name = if restarted then text "PC1" else text "OLD";
  pending_name = if restarted then text "PC1" else text "OLD";
  domain = if restarted then text "example.com" else [];
  netbios = [];
  role = text "workstation";
  secure_channel = text "true";
  boot = if restarted then record { marker = text "m2"; started = text "t2" } else a_boot;
}

-- The name is pending once it was set.
abbrev before_restart : List Change → Observation
before_restart [] = an_observation false
before_restart (d ∷ ds) = record (an_observation false) { pending_name = text "PC1" }

abbrev a_machine : Bool → Machine
a_machine restarted = record {
  lib = a_library;
  refuses = λ log c. false;
  fingerprint = some a_fingerprint;
  observe =
      λ log dc. (if restarted then an_observation true else before_restart (changes log), true);
  start = λ log p. some a_policy;
  set_name = λ log n. true;
  native = λ log n p q. some 0;
  accepts = λ log r. true;
  can_save = λ log. true;
  clock = λ log. 100;
}

-- The whole of it: the name, the account, and a marker that awaits the restart.
joined_once :
    let w = (process_rejoin (a_machine false) (some a_plan) (a_host empty_disk)).0 in
    (changes w.log
      ≡ of_account (holding (text "may_have_run")) ∷ of_name (holding (text "may_have_run")) ∷ [])
    × (w.disk.active_of ≡ some (0 ∷ text "awaiting_reboot"))
unfolding process_rejoin ◌=ᵗ◌ matches_id RejoinPlan-discrete native.Mathlib.Decide.ℕ_discrete merge
joined_once = (refl, refl)

process_rejoin-IsWithin_example :
    IsWithin
      (IsLatched (a_machine false) a_plan a_fingerprint)
      (a_host empty_disk)
      (process_rejoin (a_machine false) (some a_plan) (a_host empty_disk)).0
process_rejoin-IsWithin_example =
    process_rejoin-IsWithin (a_machine false) a_plan a_fingerprint (a_host empty_disk) refl

abbrev in_doubt : Attempt
in_doubt = in_phase (text "unknown") the_attempt

abbrev doubt_held : Holds a_library (holding (text "unknown")) in_doubt
doubt_held = record { document = 0 ∷ text "unknown"; stored = refl; decoded = refl }

abbrev a_turn : Turn
a_turn = record { machine = a_machine true; plan = some a_plan; config = empty_config }

polls-IsUntouched_example :
    IsUntouched
      (a_host (holding (text "unknown")))
      (polls (a_turn ∷ a_turn ∷ []) (a_host (holding (text "unknown"))))
polls-IsUntouched_example =
    polls-IsUntouched (a_turn ∷ a_turn ∷ []) (a_host (holding (text "unknown"))) in_doubt unknown
      (doubt_held, (doubt_held, tt)) refl refl

abbrev a_save : Text → Save
a_save phase = record { refuses = λ c. false; attempt = in_phase phase the_attempt }

abbrev two_saves : List Save
two_saves = a_save (text "awaiting_reboot") ∷ a_save (text "verified") ∷ []

saves-Moves_example :
    (q : fog_agent.Rejoin.Marker.Phases.Phase) × IsAt a_library
      (saves a_library two_saves (holding (text "may_have_run")))
      the_attempt
      q
    × Moves may_have_run q
saves-Moves_example =
    saves-Moves a_library two_saves (holding (text "may_have_run")) the_attempt may_have_run
      (reads (0 ∷ text "awaiting_reboot"), (reads (0 ∷ text "verified"), tt))
      (record {
        current = in_phase (text "may_have_run") the_attempt;
        held = record { document = 0 ∷ text "may_have_run"; stored = refl; decoded = refl };
        at_phase = refl;
        plan_same = refl;
        fingerprint_same = refl;
        latch_same = refl;
      })

abbrev awaiting : Attempt
awaiting = in_phase (text "awaiting_reboot") the_attempt

first_set :
    (set_reboot_requested a_library
      (λ c. false)
      (holding (text "awaiting_reboot"))
      (some awaiting)
      true).1
    ≡ none
unfolding set_reboot_requested validate matches_id ◌=ᵗ◌ Attempt-discrete
    native.Mathlib.Decide.ℕ_discrete
first_set = refl

set_requested_once_example :
    (set_reboot_requested a_library
      (λ c. false)
      (set_reboot_requested a_library
        (λ c. false)
        (holding (text "awaiting_reboot"))
        (some awaiting)
        true).0
      (some awaiting)
      true).1
    ≢ none
set_requested_once_example =
    set_requested_once a_library (λ c. false) (λ c. false) (holding (text "awaiting_reboot"))
      awaiting true true (reads (1 ∷ text "awaiting_reboot")) first_set

confirm_disk_example :
    ((confirm (a_machine true) a_plan awaiting (a_host (holding (text "awaiting_reboot")))).0.disk
      ≡ holding (text "awaiting_reboot"))
    ⊎ ((new_boot a_boot (an_observation true).boot ≡ true)
        × (is_healthy (a_machine true) awaiting (an_observation true) ≡ true)
        × (IsReported
              (a_machine true)
              (a_host (holding (text "awaiting_reboot")))
              (an_observation true)
              awaiting
            ⊎ IsReported
                (a_machine true)
                (rejoin_report
                  (a_machine true)
                  awaiting
                  (text "awaiting_reboot")
                  (an_observation true)
                  false
                  (a_host (holding (text "awaiting_reboot")))).0
                (an_observation true)
                awaiting))
confirm_disk_example =
    confirm_disk (a_machine true) a_plan awaiting (a_host (holding (text "awaiting_reboot")))

abbrev a_codec : Codec
a_codec = record {
  encode_key = λ k. some k;
  is_key_block = λ t. true;
  decode_key = λ t. some t;
  encode_identity = λ h. text "{}";
  decode_identity = λ t. none;
  encode_config = λ c. text "config";
  decode_config = λ t. some empty_config;
}

abbrev this_machine : fog_agent.Enroll.Data.Host
this_machine = record {
  system_uuid = text "u";
  system_serial = text "s";
  board_serial = [];
  chassis_asset = [];
  smbios_version = [];
  macs = [];
  warnings = [];
}

rotate_identity-IsArchived_example :
    ((rotate_identity a_codec
        (λ c. false)
        a_library
        (λ c. false)
        (some (text "k"))
        (λ f. none)
        (holding (text "verified"))
        empty_state
        this_machine).1
      ≡ holding (text "verified"))
    ⊎ (IsArchived a_library
          (λ c. false)
          (holding (text "verified"))
          (rotate_identity a_codec
            (λ c. false)
            a_library
            (λ c. false)
            (some (text "k"))
            (λ f. none)
            (holding (text "verified"))
            empty_state
            this_machine).1
        × ((a : Attempt) × Holds a_library (holding (text "verified")) a
            × (a.phase ≡ text "verified")))
rotate_identity-IsArchived_example =
    rotate_identity-IsArchived a_codec (λ c. false) a_library (λ c. false) (some (text "k"))
      (λ f. none) (holding (text "verified")) empty_state this_machine
