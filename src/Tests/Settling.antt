-- ===== src/Tests/Settling.antt =====
-- A reinstall against a rebuilt server whose new CA the installation was told to expect.
use fog_agent.Prelude.{
  ◌≡◌, refl, Bool, true, false, [], Option, none, some, text, ◌=ᵗ◌, if◌then◌else◌,
}
use fog_agent.Enroll.Data.{ca, config, main, temp, Disk, Call, Config, empty_config, Host}
use fog_agent.Enroll.{Codec, State, ca_of, empty_state}
use fog_agent.Settle.{Flags, Outside, Snapshot, put_back, settle_trust}
use fog_agent.Settle.Confirmed.{IsConfirmed}
use fog_agent.Settle.Settled.{settle_trust-IsConfirmed}

abbrev known : Config
known = record empty_config { server_url = text "https://fog" }

abbrev a_codec : Codec
a_codec = record {
  encode_key = λ k. some k;
  is_key_block = λ t. true;
  decode_key = λ t. some t;
  encode_identity = λ h. text "{}";
  decode_identity = λ t. none;
  encode_config = λ c. if c.system_trust then text "system" else text "pinned";
  decode_config = λ t. some (record known { system_trust = t =ᵗ text "system" });
}

abbrev old_disk : Disk
old_disk (main ca) = some (text "old bundle")
old_disk (main config) = some (text "pinned")
old_disk f = none

abbrev an_outside : Outside
an_outside = record {
  trim = λ t. t;
  to_lower = λ t. t;
  to_upper = λ t. t;
  read_bundle = λ t. none;
  probe = λ t.
      some (record { system_trust = false; fingerprint = text "AABB"; pem = text "new bundle" });
  is_console = false;
  answer = [];
  is_stale = λ d st. true;
}

abbrev told : Flags
told = record { server = []; ca_path = []; ca_fingerprint = text "AA:BB" }

abbrev all_well : Call → Bool
all_well c = false

newly_pinned :
    (settle_trust a_codec all_well an_outside told old_disk).0 (main ca) ≡ some (text "new bundle")
unfolding settle_trust ◌=ᵗ◌
newly_pinned = refl

settle_trust-IsConfirmed_example :
    IsConfirmed a_codec all_well an_outside told
      (old_disk (main ca))
      (ca_of a_codec all_well old_disk)
      ((settle_trust a_codec all_well an_outside told old_disk).0 (main ca))
settle_trust-IsConfirmed_example =
    settle_trust-IsConfirmed a_codec all_well an_outside told old_disk

abbrev a_snapshot : Snapshot
a_snapshot = record { system = false; bundle = text "old bundle"; server = text "https://fog" }

abbrev put_back_here : Disk × Option fog_agent.Enroll.Data.Failure
put_back_here = put_back a_codec all_well an_outside a_snapshot old_disk empty_state

put_back_well : put_back_here.1 ≡ none
unfolding put_back
put_back_well = refl
