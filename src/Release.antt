-- ===== src/Release.antt =====
-- internal/release/release.go: whether a self-update may run. The packages of the standard library
-- that read certificates, JSON and signatures are the record `Crypto`.
pub mod Trust
pub mod Artifacts
use fog_agent.Prelude.{
  ℕ, ◌+◌, ◌-◌, ◌*◌, ◌≡◌, refl, ◌⊎◌, inl, inr, Bool, true, false, not, ◌&&◌, ◌||◌, List, [], ◌∷◌,
  Option, none, some, ◌==◌, ltb, leb, if◌then◌else◌, length, take, Text, text, ◌=ᵗ◌, Time,
}
use fog_agent.Prelude.Int.{ℤ, pos, negsuc, ltb_ℤ, leb_ℤ, ◌=ℤ◌, wrap64, ◌+ℤ◌}

unfoldable pub alg_ecdsa_p256_sha256 : Text
alg_ecdsa_p256_sha256 = text "ecdsa-p256-sha256"

-- The sentinel errors, and the others that a call may return.
pub data Error : Type 0 where
  signature stale no_artifact hash : Error
  unreadable : Error
  io : Text → Error

pub data Result {ℓ} (A : Type ℓ) : Type ℓ where
  err : Error → Result A
  ok : A → Result A

infixl 5 ◌>>=◌ ◌>>◌
-- A call, and what follows it if it did not fail.
abbrev pub ◌>>=◌ {ℓ κ} :
    {From : Type ℓ} {To : Type κ} → Result From → (From → Result To) → Result To
err failure >>= next = err failure
ok value >>= next = next value

-- A check, and what follows it.
abbrev pub ◌>>◌ {κ} : {To : Type κ} → Result (Unit {0}) → Result To → Result To
err failure >> next = err failure
ok u >> next = next

-- if !test { return err }
abbrev pub require : Bool → Error → Result (Unit {0})
require false e = err e
require true e = ok tt

-- A call whose failure is reported as one of the sentinels.
abbrev pub or_else {ℓ} : {A : Type ℓ} → Option A → Error → Result A
or_else none e = err e
or_else (some a) e = ok a

-- A chain that ends well had every call of it end well.
pub >>=-eq-ok {ℓ κ} :
    {From : Type ℓ} {To : Type κ} (call : Result From) (next : From → Result To) {last : To}
    → (call >>= next) ≡ ok last
    → (value : From) × (call ≡ ok value) × (next value ≡ ok last)
>>=-eq-ok (err failure) next h = cc
>>=-eq-ok (ok value) next h = (value, refl, h)

pub require-eq-ok {κ} :
    {B : Type κ} (t : Bool) (e : Error) (k : Result B) {b : B}
    → (require t e >> k) ≡ ok b
    → (t ≡ true) × (k ≡ ok b)
require-eq-ok true e k h = (refl, h)
require-eq-ok false e k h = cc

pub or_else-eq-ok {ℓ} :
    {A : Type ℓ} (o : Option A) (e : Error) {a : A} → or_else o e ≡ ok a → o ≡ some a
or_else-eq-ok none e h = cc
or_else-eq-ok (some a) e h = cc

pub Result-cases {ℓ} :
    {A : Type ℓ} (r : Result A) → ((a : A) × (r ≡ ok a)) ⊎ ((e : Error) × (r ≡ err e))
Result-cases (ok a) = inl (a, refl)
Result-cases (err e) = inr (e, refl)

pub record Artifact : Type 0 where
  pub os : Text
  pub arch : Text
  pub sha256 : Text
  pub size : ℤ
  pub url : Text

pub record Version : Type 0 where
  pub security : Bool
  pub notes : Text
  pub artifacts : List Artifact

pub record Manifest : Type 0 where
  pub channel : Text
  pub sequence : ℤ
  pub expires : Time
  pub signed : Time
  pub versions : List (Text × Version)

pub record Envelope : Type 0 where
  pub chain : List Text
  pub alg : Text
  pub sig : Text

-- 180 * 24 * time.Hour
abbrev pub max_signature_age : ℕ
max_signature_age = 180 * 24 * 3600000000000

-- What the code calls of encoding/pem, crypto/x509, crypto/ecdsa, crypto/sha256, encoding/base64,
-- encoding/hex and encoding/json.
pub record Crypto : Type 1 where
  pub Certificate : Type 0
  pub PublicKey : Type 0
  pub CertPool : Type 0
  -- the block's type and bytes
  pub pem_decode : Text → Option (Text × Text)
  pub parse_certificate : Text → Option Certificate
  -- the certificate's key, if it is an ECDSA key on P-256
  pub p256_key : Certificate → Option PublicKey
  pub base64_decode : Text → Option Text
  pub sha256 : Text → Text
  pub hex : Text → Text
  pub verify_asn1 : PublicKey → Text → Text → Bool
  pub parse_manifest : Text → Option Manifest
  pub parse_envelope : Text → Option Envelope
  -- leaf.Verify for code signing: the leaf, the intermediates, the roots and the time
  pub chain_verifies : Certificate → List Certificate → CertPool → Time → Bool

-- The time at which the certificates are judged.
unfoldable pub judged_at : Manifest → Time → Result Time
judged_at m now =
    if m.signed == 0
    then ok now
    else if ltb now m.signed
    then ok now
    else if ltb max_signature_age (now - m.signed)
    then err stale
    else ok m.signed

module _ (c : Crypto) where
  open c use {
    Certificate, PublicKey, CertPool, pem_decode, parse_certificate, p256_key, base64_decode,
    verify_asn1, parse_manifest, chain_verifies,
  }

  -- One entry of the chain.
  unfoldable pub read_certificate : Text → Result Certificate
  read_certificate p = do
    (kind, bytes) ← or_else (pem_decode p) signature
    require (kind =ᵗ text "CERTIFICATE") signature
    or_else (parse_certificate bytes) signature

  unfoldable pub read_chain : List Text → Result (List Certificate)
  read_chain [] = ok []
  read_chain (p ∷ ps) = do cert ← read_certificate p; certs ← read_chain ps; ok (cert ∷ certs)

  abbrev pub head_of : List Certificate → Result (Certificate × List Certificate)
  head_of [] = err signature
  head_of (leaf ∷ inter) = ok (leaf, inter)

  -- Verify
  unfoldable pub verify : Text → Option Envelope → CertPool → Time → Result Manifest
  verify body none roots now = err signature
  verify body (some env) roots now = do
    require (env.alg =ᵗ alg_ecdsa_p256_sha256) signature
    require (ltb 0 (length env.chain)) signature
    certs ← read_chain env.chain
    (leaf, inter) ← head_of certs
    key ← or_else (p256_key leaf) signature
    sig ← or_else (base64_decode env.sig) signature
    require (verify_asn1 key (c.sha256 body) sig) signature
    m ← or_else (parse_manifest body) unreadable
    at ← judged_at m now
    require (chain_verifies leaf inter roots at) signature
    require (not (not (m.expires == 0) && ltb m.expires now)) stale
    ok m

-- Fresh
unfoldable pub fresh : Manifest → ℤ → Result (Unit {0})
fresh m seen = if ltb_ℤ m.sequence seen then err stale else ok tt

-- m.Versions[version]
unfoldable pub lookup_version : Text → List (Text × Version) → Option Version
lookup_version k [] = none
lookup_version k ((j, v) ∷ rest) = if j =ᵗ k then some v else lookup_version k rest

-- The loop of Find.
unfoldable pub find_artifact : Text → Text → List Artifact → Result Artifact
find_artifact goos goarch [] = err no_artifact
find_artifact goos goarch (a ∷ rest) =
    let later = find_artifact goos goarch rest in
    if a.os =ᵗ goos && a.arch =ᵗ goarch
    then (if a.sha256 =ᵗ [] || a.url =ᵗ [] then err no_artifact else ok a)
    else later

-- Find
unfoldable pub find : Manifest → Text → Text → Text → Result Artifact
unfolding lookup_version find_artifact
find m version goos goarch = do
  v ← or_else (lookup_version version m.versions) no_artifact
  find_artifact goos goarch v.artifacts

-- What a reader gives: its bytes, and the error that ends them, if it is not the end of file.
pub record Stream : Type 0 where
  pub bytes : Text
  pub failure : Option Text

abbrev pub to_lower : ℕ → ℕ
to_lower x = if leb b'A' x && leb x b'Z' then x + (b'a' - b'A') else x

-- equalHex: the loop, after the test of the lengths.
unfoldable pub equal_from : Text → Text → Bool
equal_from [] bs = true
equal_from (x ∷ xs) [] = true
equal_from (x ∷ xs) (y ∷ ys) =
    let rest = equal_from xs ys in if not (to_lower x == to_lower y) then false else rest

unfoldable pub equal_hex : Text → Text → Bool
unfolding equal_from
equal_hex a b = if not (length a == length b) then false else equal_from a b

-- The bytes that io.LimitReader lets through.
abbrev pub limit : ℤ → ℕ
limit (pos n) = n
limit (negsuc n) = 0

-- The two tests on what was read.
unfoldable pub judge : Crypto → Text → Artifact → Option Error
unfolding equal_hex
judge c read a =
    if not (pos (length read) =ℤ a.size)
    then some hash
    else if not (equal_hex (c.hex (c.sha256 read)) a.sha256)
    then some hash
    else none

-- a.Size+1, as the number of bytes that the LimitReader passes on.
unfoldable pub most_of : Artifact → ℕ
most_of a = limit (wrap64 (a.size +ℤ pos 1))

-- io.LimitReader: the bytes, and the reader's error if it is met before the limit.
unfoldable pub read_limited : ℕ → Stream → Text × Option Text
read_limited most src =
    (take most src.bytes, if ltb (length src.bytes) most then src.failure else none)

-- CopyVerified: what the destination holds after it, and the error. `room` is the number of bytes that
-- the destination takes before a write fails.
unfoldable pub copy_verified : Crypto → ℕ → Stream → Artifact → Text × Option Error
unfolding judge read_limited
copy_verified c room src a =
    let (read, failed) = read_limited (most_of a) src in
    let written = take room read in
    if ltb room (length read)
    then (written, some (io (text "write")))
    else elim failed [ some e ↦ (written, some (io e)) | none ↦ (written, judge c read a) ]
