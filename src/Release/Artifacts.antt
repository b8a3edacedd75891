-- ===== src/Release/Artifacts.antt =====
-- The entry that `find` picks, and the bytes that `copy_verified` lets through.
use fog_agent.Prelude.{
  ◌↔◌, ℕ, ◌+◌, ◌≤◌, ◌<◌, ◌≡◌, refl, true, false, List, [], ◌∷◌, none, some, map, length, take, Elem,
  Text, ◌=ᵗ◌, text_eq_iff, arith, inl, inr, Option-cases, take_all, length-take, ◌^◌,
}
use fog_agent.Prelude.Int.{ℤ, pos, wrap64, ◌+ℤ◌, ◌=ℤ◌}
use fog_agent.Release.{
  Crypto, Artifact, Version, Manifest, ok, find, find_artifact, lookup_version, Stream, to_lower,
  equal_from, equal_hex, most_of, read_limited, copy_verified,
}

equal_from-lower :
    (a b : Text) → length a ≡ length b → equal_from a b ≡ (map to_lower a =ᵗ map to_lower b)
unfolding equal_from ◌=ᵗ◌
equal_from-lower [] [] l = refl
equal_from-lower [] (y ∷ ys) l = absurd (omega arith)
equal_from-lower (x ∷ xs) [] l = absurd (omega arith)
equal_from-lower (x ∷ xs) (y ∷ ys) l = ground (arith, equal_from-lower xs ys)

map-length : (a b : Text) → (map to_lower a =ᵗ map to_lower b) ≡ true → length a ≡ length b
unfolding ◌=ᵗ◌
map-length [] [] h = refl
map-length [] (y ∷ ys) h = cc
map-length (x ∷ xs) [] h = cc
map-length (x ∷ xs) (y ∷ ys) h = ground (arith, map-length xs ys)

-- Two digests count as equal exactly if they are the same text once the letters A to Z are lowered.
pub equal_hex-lower : (a b : Text) → equal_hex a b ≡ (map to_lower a =ᵗ map to_lower b)
unfolding equal_hex
equal_hex-lower a b = ground (arith, equal_from-lower a b, map-length a b)

-- The entry is the one that the platform asks for, and has a digest and a URL.
abbrev pub Fits : Text → Text → Artifact → Type 0
Fits goos goarch a =
    (a.os ≡ goos) × (a.arch ≡ goarch) × ((a.sha256 =ᵗ []) ≡ false) × ((a.url =ᵗ []) ≡ false)

find_artifact-Fits :
    (goos goarch : Text) (as' : List Artifact) (a : Artifact)
    → find_artifact goos goarch as' ≡ ok a
    → Elem a as' × Fits goos goarch a
unfolding find_artifact
find_artifact-Fits goos goarch [] a h = cc
find_artifact-Fits goos goarch (b ∷ rest) a h =
    grind (
      arith,
      find_artifact-Fits goos goarch rest a,
      text_eq_iff b.os goos,
      text_eq_iff b.arch goarch,
    )

-- What `find` returns stands under the version that was asked for, is for the platform that was asked
-- for, and has a digest and a URL.
pub find-Fits :
    (m : Manifest) (version goos goarch : Text) (a : Artifact)
    → find m version goos goarch ≡ ok a
    → (v : Version) × (lookup_version version m.versions ≡ some v)
      × Elem a v.artifacts
      × Fits goos goarch a
unfolding find
find-Fits m version goos goarch a h = elim (Option-cases (lookup_version version m.versions)) [
  | inl missing ↦ absurd (ground arith)
  | inr (v, found) ↦
      let (in_list, fits) = find_artifact-Fits goos goarch v.artifacts a (ground arith) in
      (v, found, in_list, fits)
]

-- The digest of the bytes is the artifact's.
abbrev pub Digest : Crypto → Text → Artifact → Type 0
Digest c bytes a = (map to_lower (c.hex (c.sha256 bytes)) =ᵗ map to_lower a.sha256) ≡ true

most_of-pos : (a : Artifact) (n : ℕ) → a.size ≡ pos n → n + 1 < 2 ^ 63 → most_of a ≡ n + 1
unfolding most_of wrap64 ◌+ℤ◌
most_of-pos a n e h = ground arith

-- A size that passed the test is the number of bytes.
same_number : (n : ℕ) (z : ℤ) → (pos n =ℤ z) ≡ true → pos n ≡ z
same_number n z h = ground arith

module _ (c : Crypto) (room : ℕ) (src : Stream) (a : Artifact) where
  length-copy_verified : length (copy_verified c room src a).0 ≤ most_of a
  unfolding copy_verified
  length-copy_verified =
      ground
        (arith, length-take room (take (most_of a) src.bytes), length-take (most_of a) src.bytes)

  -- Whatever the reader gives, at most one byte more than the declared size reaches the destination.
  pub copy_verified_bound :
      (n : ℕ) → a.size ≡ pos n → n + 1 < 2 ^ 63 → length (copy_verified c room src a).0 ≤ n + 1
  copy_verified_bound n e h = omega (arith, length-copy_verified, most_of-pos a n e h)

  -- Into a destination with room, and from a reader that does not fail, a copy is without an error
  -- exactly if the reader's bytes are as many as declared and have the declared digest.
  pub copy_verified_iff :
      (n : ℕ)
      → a.size ≡ pos n
      → n + 1 < 2 ^ 63
      → src.failure ≡ none
      → n ≤ room
      → ((copy_verified c room src a).1 ≡ none) ↔ ((length src.bytes ≡ n) × Digest c src.bytes a)
  unfolding copy_verified
  copy_verified_iff n e small f r = (
    λ done. ground (
      arith,
      most_of-pos a n e small,
      length-take (most_of a) src.bytes,
      take_all (most_of a) src.bytes,
      take_all room src.bytes,
      equal_hex-lower (c.hex (c.sha256 src.bytes)) a.sha256,
    ),
    λ h. ground (
      arith,
      h.0,
      h.1,
      most_of-pos a n e small,
      length-take (most_of a) src.bytes,
      take_all (most_of a) src.bytes,
      take_all room src.bytes,
      equal_hex-lower (c.hex (c.sha256 src.bytes)) a.sha256,
    ),
  )

  -- Whatever the declared size, what a copy without an error has written is of that size and has the
  -- declared digest.
  pub copy_verified_sound :
      (copy_verified c room src a).1 ≡ none
      → (pos (length (copy_verified c room src a).0) ≡ a.size)
        × Digest c (copy_verified c room src a).0 a
  unfolding copy_verified
  copy_verified_sound done =
      let read = (read_limited (most_of a) src).0 in
      let whole = take_all room read in
      let same = equal_hex-lower (c.hex (c.sha256 read)) a.sha256 in
      (ground (arith, whole, same_number (length read) a.size), ground (arith, whole, same))
