-- ===== src/Tests/Enrolling.antt =====
-- A disk that was cloned to another machine.
use fog_agent.Prelude.{◌=ᵗ◌, ◌≡◌, refl, Bool, true, false, [], none, some, Text, text}
use fog_agent.Prelude.Int.{pos}
use fog_agent.Enroll.Data.{
  key, cert, config, main, Disk, Call, removing, Host, Config, empty_config,
}
use fog_agent.Enroll.{unreadable, same_machine, Codec, State, reset, ensure_key, load}
use fog_agent.Enroll.Guard.{IsRead, ensure_key-load, ensure_key_stale}

abbrev machine : Text → Host
machine uuid = record {
  system_uuid = uuid;
  system_serial = [];
  board_serial = [];
  chassis_asset = [];
  smbios_version = [];
  macs = [];
  warnings = [];
}

abbrev enrolled : Config
enrolled = record empty_config { server_url = text "fog"; host_id = pos 12 }

-- The state that was copied with the disk, and the disk.
abbrev copied : State
copied = record {
  key_of = some (text "k");
  identity_of = some (machine (text "a"));
  cert_of = text "old";
  config_of = enrolled;
}

abbrev copied_disk : Disk
copied_disk (main key) = some (text "k")
copied_disk (main cert) = some (text "old")
copied_disk (main config) = some (text "c")
copied_disk f = none

-- Documents of one configuration and one machine.
abbrev plain : Codec
plain = record {
  encode_key = λ k. some k;
  is_key_block = λ t. true;
  decode_key = λ t. some t;
  encode_identity = λ h. h.system_uuid;
  decode_identity = λ t. some (machine t);
  encode_config = λ c. text "c";
  decode_config = λ t. some (reset enrolled);
}

abbrev obliging : Call → Bool
obliging call = false

abbrev keeping_cert : Call → Bool
keeping_cert (removing n) = true
keeping_cert call = false

abbrev is_read : IsRead plain (text "n") (text "n") (machine (text "b")) (reset enrolled)
is_read = record { is_block = refl; key_lem = refl; identity_lem = refl; config_lem = refl }

ensure_key-load_example :
    let r = ensure_key plain obliging (some (text "n")) copied_disk copied (machine (text "b")) in
    (load plain obliging r.0 ≡ (r.1, none))
    × (r.1.key_of ≡ some (text "n"))
    × (r.1.identity_of ≡ some (machine (text "b")))
    × (r.1.cert_of ≡ [])
    × (r.1.config_of.host_id ≡ pos 0)
    × (r.2 ≡ true)
unfolding ensure_key same_machine ◌=ᵗ◌ unreadable
ensure_key-load_example =
    ensure_key-load plain obliging (text "n") (text "n") copied_disk copied (machine (text "b"))
      is_read refl refl refl refl (refl, refl, refl, refl, refl)

ensure_key_stale_example :
    let r =
      ensure_key plain keeping_cert (some (text "n")) copied_disk copied (machine (text "b")) in
    ((load plain keeping_cert r.0).0.key_of ≡ some (text "n"))
    × ((load plain keeping_cert r.0).0.cert_of ≡ text "old")
unfolding ensure_key same_machine ◌=ᵗ◌ unreadable
ensure_key_stale_example =
    ensure_key_stale plain keeping_cert (text "n") (text "n") (text "old") copied_disk copied
      (machine (text "b")) is_read refl refl refl refl refl (refl, refl, refl, refl, refl)
