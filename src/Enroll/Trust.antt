-- ===== src/Enroll/Trust.antt =====
-- What verifies the server, and what an issued or a dropped certificate changes.
use fog_agent.Prelude.{◌≡◌, Bool, true, false, ◌⊎◌, none, some, Text, arith}
use fog_agent.Prelude.Int.{ℤ}
use fog_agent.Enroll.Data.{Name, key, identity, ca, config, main, Disk, Call}
use fog_agent.Enroll.{Codec, State, save_ca, use_system_trust, has_trust, save_issued, drop_issued}

module _ (codec : Codec) (refuses : Call → Bool) where
  -- When the machine's own trust was settled without an error, the state says so, no bundle is left
  -- on the disk, and the configuration on the disk is the one of the state.
  pub use_system_trust_ok :
      (d : Disk) (st : State)
      → let r = use_system_trust codec refuses d st in
        r.2 ≡ none
        → (r.1.config_of.system_trust ≡ true)
          × (r.0 (main ca) ≡ none)
          × (r.0 (main config) ≡ some (codec.encode_config r.1.config_of))
          × (has_trust codec refuses r.0 r.1 ≡ true)
  unfolding use_system_trust has_trust
  use_system_trust_ok d st h = ground arith

  -- When a bundle was stored without an error, it is what is pinned and the machine's trust is not
  -- used; the configuration on the disk says so too, if it was that of the state before.
  pub save_ca_ok :
      (d : Disk) (st : State) (pem : Text)
      → d (main config) ≡ some (codec.encode_config st.config_of)
      → let r = save_ca codec refuses d st pem in
        r.2 ≡ none
        → (r.1.config_of.system_trust ≡ false)
          × (r.0 (main ca) ≡ some pem)
          × (r.0 (main config) ≡ some (codec.encode_config r.1.config_of))
  unfolding save_ca
  save_ca_ok d st pem c h = ground arith

  -- Storing a certificate and forgetting it leave the key, its identity and the pinned bundle as they
  -- are, on the disk and in the state, whatever the operating system refuses.
  pub issued_keeps :
      (d : Disk) (st : State) (pem : Text) (host : ℤ) (n : Name)
      → (n ≡ key) ⊎ (n ≡ identity) ⊎ (n ≡ ca)
      → let s = save_issued codec refuses d st pem host in
        let t = drop_issued codec refuses d st in
        (s.0 (main n) ≡ d (main n))
        × (t.0 (main n) ≡ d (main n))
        × (s.1.key_of ≡ st.key_of)
        × (t.1.key_of ≡ st.key_of)
        × (s.1.identity_of ≡ st.identity_of)
        × (t.1.identity_of ≡ st.identity_of)
  unfolding save_issued drop_issued
  issued_keeps d st pem host n h = ground arith
