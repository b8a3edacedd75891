-- ===== src/Release/Trust.antt =====
-- What `verify` has established when it returns a manifest, and what it says when it does not.
use fog_agent.Prelude.{
  ◌+◌, ◌≤◌, ◌≡◌, refl, ap, sym, ◌∙◌, Bool, true, false, not, ◌&&◌, List, [], ◌∷◌, Option, none,
  some, ◌==◌, ltb, Text, ◌=ᵗ◌, Time, arith,
}
use fog_agent.Release.{
  Crypto, Envelope, Manifest, Error, signature, stale, unreadable, Result, ok, err, ◌>>=◌, ◌>>◌,
  require, or_else, >>=-eq-ok, require-eq-ok, or_else-eq-ok, head_of, read_certificate, read_chain,
  judged_at, verify, max_signature_age, alg_ecdsa_p256_sha256,
}

-- The time at which certificates are judged is never after now, and never more than 180 days before.
judged_at_bounds :
    (m : Manifest) (now at : Time)
    → judged_at m now ≡ ok at
    → (at ≤ now) × (now ≤ at + max_signature_age)
unfolding judged_at
judged_at_bounds m now at h = ground arith

ok_injective {ℓ} : {A : Type ℓ} {a b : A} → ok a ≡ ok b → a ≡ b
ok_injective h = cc

not-eq-true : (b : Bool) → not b ≡ true → b ≡ false
not-eq-true b h = ground arith

-- A step that fails only with a bad signature, before a rest that fails so.
>>=-eq-err {ℓ κ} :
    {A : Type ℓ} {B : Type κ} (m : Result A) (f : A → Result B)
    → ((e : Error) → m ≡ err e → e ≡ signature)
    → ((a : A) → f a ≡ err signature)
    → (m >>= f) ≡ err signature
>>=-eq-err (ok a) f bad later = later a
>>=-eq-err (err e) f bad later = ap err (bad e refl)

require-eq-err {κ} :
    {B : Type κ} (t : Bool) (k : Result B)
    → k ≡ err signature
    → (require t signature >> k) ≡ err signature
require-eq-err true k h = h
require-eq-err false k h = refl

or_else_err {ℓ} :
    {A : Type ℓ} (o : Option A) (e : Error) → or_else o signature ≡ err e → e ≡ signature
or_else_err none e h = cc
or_else_err (some a) e h = cc

module _ (c : Crypto) where
  open c use {
    Certificate, PublicKey, CertPool, base64_decode, verify_asn1, parse_manifest, chain_verifies,
    p256_key,
  }

  -- The bytes are signed by the leaf of the envelope's chain.
  pub record IsSigned (body : Text) (env : Envelope) (leaf : Certificate) (inter : List Certificate)
      : Type 0 where
    pub algorithm : (env.alg =ᵗ alg_ecdsa_p256_sha256) ≡ true
    pub chain : read_chain c env.chain ≡ ok (leaf ∷ inter)
    pub key : PublicKey
    pub sig : Text
    pub key_of_leaf : p256_key leaf ≡ some key
    pub sig_decoded : base64_decode env.sig ≡ some sig
    pub verified : verify_asn1 key (c.sha256 body) sig ≡ true

  -- All that `verify` has to establish of a manifest.
  pub record IsTrusted (body : Text) (env : Envelope) (roots : CertPool) (now : Time) (m : Manifest)
      : Type 0 where
    pub leaf : Certificate
    pub inter : List Certificate
    pub signed : IsSigned body env leaf inter
    pub reads : parse_manifest body ≡ some m
    pub at : Time
    pub judged : judged_at m now ≡ ok at
    pub chained : chain_verifies leaf inter roots at ≡ true
    pub unexpired : (not (m.expires == 0) && ltb m.expires now) ≡ false

  head_of-eq-ok :
      (certs : List Certificate) (pair : Certificate × List Certificate)
      → head_of c certs ≡ ok pair
      → certs ≡ pair.0 ∷ pair.1
  head_of-eq-ok [] pair h = cc
  head_of-eq-ok (leaf ∷ inter) pair h = ap (λ r. from_ok r) h
    where
      from_ok : Result (Certificate × List Certificate) → List Certificate
      from_ok (ok p) = p.0 ∷ p.1
      from_ok (err e) = []

  -- A manifest that `verify` returns was parsed from bytes that the leaf of the chain signed with the
  -- one algorithm, its chain verifies for code signing at the judged time, and it has not expired.
  pub verify-IsTrusted :
      (body : Text) (env : Envelope) (roots : CertPool) (now : Time) (m : Manifest)
      → verify c body (some env) roots now ≡ ok m
      → IsTrusted body env roots now m
  unfolding verify
  verify-IsTrusted body env roots now m h =
      let (alg, h1) = require-eq-ok _ signature _ h in
      let (some_chain, h2) = require-eq-ok _ signature _ h1 in
      let (certs, certs_e, h3) = >>=-eq-ok (read_chain c env.chain) _ h2 in
      let (pair, pair_e, h4) = >>=-eq-ok (head_of c certs) _ h3 in
      let (key, key_e, h5) = >>=-eq-ok (or_else (p256_key pair.0) signature) _ h4 in
      let (sig, sig_e, h6) = >>=-eq-ok (or_else (base64_decode env.sig) signature) _ h5 in
      let (verified, h7) = require-eq-ok _ signature _ h6 in
      let (m', m_e, h8) = >>=-eq-ok (or_else (parse_manifest body) unreadable) _ h7 in
      let (at, at_e, h9) = >>=-eq-ok (judged_at m' now) _ h8 in
      let (chained, h10) = require-eq-ok _ signature _ h9 in
      let (fresh, h11) = require-eq-ok _ stale _ h10 in
      let same : m' ≡ m = ok_injective h11 in
      record {
        leaf = pair.0;
        inter = pair.1;
        signed = record {
          algorithm = alg;
          chain = certs_e ∙ ap ok (head_of-eq-ok certs pair pair_e);
          key = key;
          sig = sig;
          key_of_leaf = or_else-eq-ok _ signature key_e;
          sig_decoded = or_else-eq-ok _ signature sig_e;
          verified = verified;
        };
        reads = or_else-eq-ok _ unreadable m_e ∙ ap some same;
        at = at;
        judged = ap (λ m. judged_at m now) (sym same) ∙ at_e;
        chained = chained;
        unexpired =
            ap (λ m. not (m.expires == 0) && ltb m.expires now) (sym same) ∙ not-eq-true _ fresh;
      }

  head_of_err : (certs : List Certificate) (e : Error) → head_of c certs ≡ err e → e ≡ signature
  head_of_err [] e h = cc
  head_of_err (leaf ∷ inter) e h = cc

  read_certificate_err : (p : Text) (e : Error) → read_certificate c p ≡ err e → e ≡ signature
  unfolding read_certificate
  read_certificate_err p e h = ground arith

  read_chain_err : (ps : List Text) (e : Error) → read_chain c ps ≡ err e → e ≡ signature
  unfolding read_chain
  read_chain_err [] e h = ground arith
  read_chain_err (p ∷ ps) e h = ground (arith, read_certificate_err p e, read_chain_err ps e)

  -- Bytes that no key signed are refused, as a bad signature and nothing else, whatever envelope comes
  -- with them and whatever the roots and the clock.
  pub verify_unsigned :
      (body : Text) (env : Option Envelope) (roots : CertPool) (now : Time)
      → ((key : PublicKey) (sig : Text) → verify_asn1 key (c.sha256 body) sig ≡ false)
      → verify c body env roots now ≡ err signature
  unfolding verify
  verify_unsigned body none roots now h = refl
  verify_unsigned body (some env) roots now h = require-eq-err _ _ (
      require-eq-err _ _ (
        >>=-eq-err (read_chain c env.chain) _ (read_chain_err env.chain) λ certs.
          >>=-eq-err (head_of c certs) _ (head_of_err certs) λ pair.
            >>=-eq-err (or_else (p256_key pair.0) signature) _ (or_else_err _) λ key.
              >>=-eq-err (or_else (base64_decode env.sig) signature) _ (or_else_err _)
                λ sig. rw (h key sig)))

  -- If a chain verifies only up to the end of its leaf's validity, then what `verify` returns is signed
  -- by a leaf that ended at most 180 days before now.
  pub verify_leaked_leaf :
      (not_after : Certificate → Time)
      → ((leaf : Certificate) (inter : List Certificate) (roots : CertPool) (at : Time)
          → chain_verifies leaf inter roots at ≡ true
          → at ≤ not_after leaf)
      → (body : Text) (env : Envelope) (roots : CertPool) (now : Time) (m : Manifest)
      → verify c body (some env) roots now ≡ ok m
      → (leaf : Certificate) × (inter : List Certificate) × IsSigned body env leaf inter
        × (now ≤ not_after leaf + max_signature_age)
  verify_leaked_leaf not_after valid body env roots now m h =
      let t = verify-IsTrusted body env roots now m h in
      (
        t.leaf,
        t.inter,
        t.signed,
        omega (
          arith,
          judged_at_bounds m now t.at t.judged,
          valid t.leaf t.inter roots t.at t.chained,
        ),
      )
