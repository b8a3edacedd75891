-- ===== src/Enroll.antt =====
-- internal/enroll/state.go: the identity of the agent on disk. Files hold bytes; PEM, DER and JSON are
-- the standard library's, the record `Codec`. The operating system may refuse any call.
pub mod Data
pub mod Guard
pub mod Trust
pub mod Rotation
use fog_agent.Prelude.{
  ◌≡◌, Bool, true, false, not, ◌&&◌, ◌||◌, List, [], ◌∷◌, Option, none, some, if◌then◌else◌, length,
  ltb, Text, ◌=ᵗ◌,
}
use fog_agent.Prelude.Int.{ℤ, pos}
use fog_agent.Enroll.Data.{
  Name, key, identity, cert, ca, config, File, main, temp, same_file, Disk, store, Call,
  making_directory, reading, writing, removing, renaming, Failure, not_exist, refused, bad_config,
  no_key, bad_key, key_not_made, Host, Config, empty_config,
}

-- What the standard library makes of the documents, and of a key.
pub record Codec : Type 0 where
  pub encode_key : Text → Option Text
  pub is_key_block : Text → Bool
  pub decode_key : Text → Option Text
  pub encode_identity : Host → Text
  pub decode_identity : Text → Option Host
  pub encode_config : Config → Text
  pub decode_config : Text → Option Config

-- State, without the directory's three fields and its path; no certificate is the empty one.
pub record State : Type 0 where
  pub key_of : Option Text
  pub identity_of : Option Host
  pub cert_of : Text
  pub config_of : Config

abbrev pub empty_state : State
empty_state = record { key_of = none; identity_of = none; cert_of = []; config_of = empty_config }

-- sameMachine
unfoldable pub same_machine : Host → Host → Bool
same_machine a b =
    a.system_uuid =ᵗ b.system_uuid
    && a.system_serial =ᵗ b.system_serial
    && a.board_serial =ᵗ b.board_serial
    && a.chassis_asset =ᵗ b.chassis_asset

-- unreadable
unfoldable pub unreadable : Host → Bool
unreadable h =
    h.system_uuid =ᵗ []
    && h.system_serial =ᵗ []
    && h.board_serial =ᵗ []
    && h.chassis_asset =ᵗ []
    && ltb 0 (length h.warnings)

-- What a new key leaves of the configuration.
abbrev pub reset : Config → Config
reset c = record empty_config { server_url = c.server_url; pending_token = c.pending_token }

-- st.Key != nil && st.Identity != nil && (sameMachine || unreadable)
abbrev pub keeps : State → Host → Bool
keeps st live = elim st.key_of [
  | none ↦ false
  | some k ↦ elim st.identity_of [
    | none ↦ false
    | some id ↦ same_machine id live || unreadable live
  ]
]

module _ (codec : Codec) (refuses : Call → Bool) where
  -- os.ReadFile
  unfoldable pub read_file : Disk → Name → Option Text × Option Failure
  read_file d n =
      if refuses (reading n)
      then (none, some (refused (reading n)))
      else elim (d (main n)) [ none ↦ (none, some not_exist) | some t ↦ (some t, none) ]

  -- writeFile: a write that fails leaves an empty temporary file.
  unfoldable pub write_file : Disk → Name → Text → Disk × Option Failure
  write_file d n t =
      if refuses (writing n)
      then (store d (temp n) (some []), some (refused (writing n)))
      else if refuses (renaming n)
      then (store d (temp n) (some t), some (refused (renaming n)))
      else (store (store (store d (temp n) (some t)) (temp n) none) (main n) (some t), none)

  -- os.Remove, where a file that is not there is no error.
  unfoldable pub remove_file : Disk → Name → Disk × Option Failure
  remove_file d n =
      if refuses (removing n)
      then (d, some (refused (removing n)))
      else (store d (main n) none, none)

  -- SaveConfig
  unfoldable pub save_config : Disk → State → Disk × Option Failure
  unfolding write_file
  save_config d st = write_file d config (codec.encode_config st.config_of)

  -- What Load makes of the key file and of the files that go with it.
  abbrev pub load_key : Disk → Config → Option Text × Option Failure → State × Option Failure
  load_key d c (none, some not_exist) = (record empty_state { config_of = c }, none)
  load_key d c (none, some e) = (empty_state, some e)
  load_key d c (none, none) = (empty_state, none)
  load_key d c (some t, e) =
      if not (codec.is_key_block t) then (empty_state, some no_key) else elim (codec.decode_key t) [
        | none ↦ (empty_state, some bad_key)
        | some k ↦ (
          record {
            key_of = some k;
            identity_of = elim (read_file d identity).0 [
              | none ↦ none
              | some i ↦ codec.decode_identity i
            ];
            cert_of = elim (read_file d cert).0 [ none ↦ [] | some c ↦ c ];
            config_of = c;
          },
          none,
        )
      ]

  -- Load
  unfoldable pub load : Disk → State × Option Failure
  unfolding read_file
  load d =
      if refuses making_directory
      then (empty_state, some (refused making_directory))
      else elim (read_file d config).0 [
        | none ↦ load_key d empty_config (read_file d key)
        | some t ↦ elim (codec.decode_config t) [
          | none ↦ (empty_state, some bad_config)
          | some c ↦ load_key d c (read_file d key)
        ]
      ]

  -- The writes of EnsureKey, once there is a key: whether it was made, and the error.
  abbrev pub replace_key : Disk → State → Host → Text → Text → Disk × State × Bool × Option Failure
  replace_key d st live k pem =
      let (d1, e1) = write_file d key pem in
      let (d2, e2) = write_file d1 identity (codec.encode_identity live) in
      let (d3, e3) = remove_file d2 cert in
      let st' : State = record {
        key_of = some k;
        identity_of = some live;
        cert_of = [];
        config_of = reset st.config_of;
      } in
      let (d4, e4) = save_config d3 st' in
      elim e1 [
        | some e ↦ (d1, st, false, some e)
        | none ↦ elim e2 [ some e ↦ (d2, st, false, some e) | none ↦ (d4, st', true, e4) ]
      ]

  -- EnsureKey, where `made` is what GenerateKey gives.
  unfoldable pub ensure_key :
      Option Text → Disk → State → Host → Disk × State × Bool × Option Failure
  unfolding write_file remove_file save_config
  ensure_key made d st live = if keeps st live then (d, st, false, none) else elim made [
    | none ↦ (d, st, false, some key_not_made)
    | some k ↦ elim (codec.encode_key k) [
      | none ↦ (d, st, false, some key_not_made)
      | some pem ↦
          if refuses making_directory
          then (d, st, false, some (refused making_directory))
          else replace_key d st live k pem
    ]
  ]

  -- SaveIssued
  unfoldable pub save_issued : Disk → State → Text → ℤ → Disk × State × Option Failure
  unfolding write_file save_config
  save_issued d st pem host =
      let (d1, e1) = write_file d cert pem in
      let st' : State = record st {
        cert_of = pem;
        config_of = record st.config_of { host_id = host };
      } in
      let (d2, e2) = save_config d1 st' in
      elim e1 [ some e ↦ (d1, st, some e) | none ↦ (d2, st', e2) ]

  -- DropIssued
  unfoldable pub drop_issued : Disk → State → Disk × State × Option Failure
  unfolding remove_file save_config
  drop_issued d st =
      let (d1, e1) = remove_file d cert in
      let st' : State = record st {
        cert_of = [];
        config_of = record st.config_of { host_id = pos 0 };
      } in
      let (d2, e2) = save_config d1 st' in
      elim e1 [ some e ↦ (d1, st, some e) | none ↦ (d2, st', e2) ]

  -- SaveCA
  unfoldable pub save_ca : Disk → State → Text → Disk × State × Option Failure
  unfolding write_file save_config
  save_ca d st pem =
      let (d1, e1) = write_file d ca pem in
      let st' = record st { config_of = record st.config_of { system_trust = false } } in
      let (d2, e2) = save_config d1 st' in
      elim e1 [
        | some e ↦ (d1, st, some e)
        | none ↦ if st.config_of.system_trust then (d2, st', e2) else (d1, st, none)
      ]

  -- UseSystemTrust
  unfoldable pub use_system_trust : Disk → State → Disk × State × Option Failure
  unfolding remove_file save_config
  use_system_trust d st =
      let (d1, e1) = remove_file d ca in
      let st' = record st { config_of = record st.config_of { system_trust = true } } in
      let (d2, e2) = save_config d1 st' in
      elim e1 [ some e ↦ (d1, st, some e) | none ↦ (d2, st', e2) ]

  -- CA
  unfoldable pub ca_of : Disk → Text
  unfolding read_file
  ca_of d = elim (read_file d ca).0 [ none ↦ [] | some t ↦ t ]

  -- HasTrust
  unfoldable pub has_trust : Disk → State → Bool
  unfolding ca_of
  has_trust d st = st.config_of.system_trust || ltb 0 (length (ca_of d))
