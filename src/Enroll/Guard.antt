-- ===== src/Enroll/Guard.antt =====
-- The clone and reimage guard: what a new key leaves behind, and what the next start makes of it.
use fog_agent.Prelude.{◌≡◌, Bool, true, false, [], Option, none, some, Text, text_eq_refl, arith}
use fog_agent.Prelude.Int.{pos}
use fog_agent.Enroll.Data.{
  key, identity, cert, config, main, Disk, Call, making_directory, reading, removing, Host, Config,
}
use fog_agent.Enroll.{Codec, State, reset, keeps, same_machine, load, ensure_key}

-- The documents of a key, of an identity and of a configuration are read as what was written.
pub record IsRead (codec : Codec) (k pem : Text) (live : Host) (c : Config) : Type 0 where
  pub is_block : codec.is_key_block pem ≡ true
  pub key_lem : codec.decode_key pem ≡ some k
  pub identity_lem : codec.decode_identity (codec.encode_identity live) ≡ some live
  pub config_lem : codec.decode_config (codec.encode_config c) ≡ some c

same_machine_refl : (h : Host) → same_machine h h ≡ true
unfolding same_machine
same_machine_refl h = ground (
  arith,
  text_eq_refl h.system_uuid,
  text_eq_refl h.system_serial,
  text_eq_refl h.board_serial,
  text_eq_refl h.chassis_asset,
)

module _ (codec : Codec) (refuses : Call → Bool) where
  -- Nothing stands in the way of a start.
  abbrev pub IsReadable : Type 0
  IsReadable =
      (refuses making_directory ≡ false)
      × (refuses (reading key) ≡ false)
      × (refuses (reading identity) ≡ false)
      × (refuses (reading cert) ≡ false)
      × (refuses (reading config) ≡ false)

  -- When the state calls for a new key, one was made without an error, the old certificate could be
  -- removed, and the documents written are read as they were written, the next start that can read
  -- the files finds the state that was answered: the new key, the identity that it was made for, no
  -- certificate and no host.
  pub ensure_key-load :
      (k pem : Text) (d : Disk) (st : State) (live : Host)
      → IsRead codec k pem live (reset st.config_of)
      → codec.encode_key k ≡ some pem
      → keeps st live ≡ false
      → let r = ensure_key codec refuses (some k) d st live in
        r.3 ≡ none
        → refuses (removing cert) ≡ false
        → IsReadable
        → (load codec refuses r.0 ≡ (r.1, none))
          × (r.1.key_of ≡ some k)
          × (r.1.identity_of ≡ some live)
          × (r.1.cert_of ≡ [])
          × (r.1.config_of.host_id ≡ pos 0)
          × (r.2 ≡ true)
  unfolding ensure_key load
  ensure_key-load k pem d st live law p q e c r =
      ground (arith, law.is_block, law.key_lem, law.identity_lem, law.config_lem)

  -- A start on the machine that the identity was recorded for changes nothing, whatever a new key
  -- would be.
  pub ensure_key_again :
      (made : Option Text) (k : Text) (d : Disk) (st : State) (live : Host)
      → st.key_of ≡ some k
      → st.identity_of ≡ some live
      → ensure_key codec refuses made d st live ≡ (d, st, false, none)
  unfolding ensure_key
  ensure_key_again made k d st live p q = ground (arith, same_machine_refl live)

  -- The removal of the old certificate is not checked: when the state calls for a new key, that
  -- removal is refused and no error is answered, and the documents written are read as they were
  -- written, the next start that can read the files finds the old certificate beside the new key.
  pub ensure_key_stale :
      (k pem old : Text) (d : Disk) (st : State) (live : Host)
      → IsRead codec k pem live (reset st.config_of)
      → codec.encode_key k ≡ some pem
      → keeps st live ≡ false
      → d (main cert) ≡ some old
      → let r = ensure_key codec refuses (some k) d st live in
        r.3 ≡ none
        → refuses (removing cert) ≡ true
        → IsReadable
        → ((load codec refuses r.0).0.key_of ≡ some k) × ((load codec refuses r.0).0.cert_of ≡ old)
  unfolding ensure_key load
  ensure_key_stale k pem old d st live law p q o e c r =
      ground (arith, law.is_block, law.key_lem, law.identity_lem, law.config_lem)
