-- ===== src/Tests/Trusted.antt =====
-- A signing scheme small enough to run: a certificate is a number, a digest is the bytes themselves, and
-- a signature is the digest.
use fog_agent.Prelude.{
  ℕ, refl, false, ◌&&◌, [], ◌∷◌, none, some, ◌==◌, leb, if◌then◌else◌, Text, text, ◌=ᵗ◌,
}
use fog_agent.Prelude.Int.{pos}
use fog_agent.Release.{
  Crypto, Artifact, Manifest, Envelope, Stream, alg_ecdsa_p256_sha256, verify, read_chain,
  read_certificate, judged_at,
}
use fog_agent.Release.Trust.{IsTrusted, verify-IsTrusted}

abbrev pub a_binary : Artifact
a_binary = record {
  os = text "linux";
  arch = text "amd64";
  sha256 = text "new";
  size = pos 3;
  url = text "u";
}

abbrev pub a_manifest : Manifest
a_manifest = record {
  channel = text "stable";
  sequence = pos 5;
  expires = 300;
  signed = 100;
  versions =
      (text "1.2.0", record { security = false; notes = []; artifacts = a_binary ∷ [] }) ∷ [];
}

abbrev pub an_envelope : Text → Envelope
an_envelope sig = record { chain = (1 ∷ []) ∷ []; alg = text "ecdsa-p256-sha256"; sig = sig }

abbrev pub toy : Crypto
toy = record {
  Certificate = Text;
  PublicKey = Text;
  CertPool = ℕ;
  pem_decode = λ t. some (text "CERTIFICATE", t);
  parse_certificate = λ t. some t;
  p256_key = λ cert. some cert;
  base64_decode = λ t. some t;
  sha256 = λ t. t;
  hex = λ t. t;
  verify_asn1 = λ key digest sig. key =ᵗ 1 ∷ [] && digest =ᵗ sig;
  parse_manifest = λ t. if t =ᵗ text "m" then some a_manifest else none;
  parse_envelope = λ t. some (an_envelope t);
  chain_verifies = λ leaf inter roots at. roots == 7 && leb at 150;
}

abbrev pub a_stream : Stream
a_stream = record { bytes = text "new"; failure = none }

verify-IsTrusted_example : IsTrusted toy (text "m") (an_envelope (text "m")) 7 200 a_manifest
unfolding verify read_chain read_certificate judged_at alg_ecdsa_p256_sha256 ◌=ᵗ◌
verify-IsTrusted_example =
    verify-IsTrusted toy (text "m") (an_envelope (text "m")) 7 200 a_manifest refl

-- The scheme, with no signature of anything.
abbrev mute : Crypto
mute = record toy { verify_asn1 = λ key digest sig. false }
