-- ===== src/Rejoin/Valid/Names.antt =====
-- What the bytes of an accepted name can be.
use fog_agent.Prelude.{
  ◌≡◌, refl, Bool, true, ◌||◌, ℕ, ◌≤◌, List, [], ◌∷◌, ◌==◌, length, all, Text, split_first,
  split_on, arith,
}
use fog_agent.Rejoin.Data.{Library}
use fog_agent.Rejoin.Valid.{is_label_byte, is_label, valid_dc_fqdn}

abbrev pub is_dns_byte : ℕ → Bool
is_dns_byte c = is_label_byte c || c == b'.'

-- A label, or nothing: the first part of a split that has more parts in front.
abbrev all_labels : List Text → Bool
all_labels ls = all (λ l. all is_label_byte l) ls

label_bytes : (l : Text) → is_label l ≡ true → all is_label_byte l ≡ true
label_bytes [] h = refl
label_bytes (c ∷ cs) h = ground arith

labels_bytes : (ls : List Text) → all is_label ls ≡ true → all_labels ls ≡ true
labels_bytes [] h = refl
labels_bytes (l ∷ ls) h = ground (arith, label_bytes l, labels_bytes ls)

split_bytes :
    (s : Text)
    → all is_label_byte (split_first b'.' s).0 ≡ true
    → all_labels (split_first b'.' s).1 ≡ true
    → all is_dns_byte s ≡ true
unfolding split_first
split_bytes [] h k = refl
split_bytes (c ∷ cs) h k = ground (arith, split_bytes cs)

fqdn_labels :
    (lib : Library) (s : Text)
    → valid_dc_fqdn lib s ≡ true
    → (length s ≤ 253) × (all is_label (split_on b'.' s) ≡ true)
unfolding valid_dc_fqdn
fqdn_labels lib s h = ground arith

split_on_bytes : (s : Text) → all_labels (split_on b'.' s) ≡ true → all is_dns_byte s ≡ true
unfolding split_on
split_on_bytes s h = ground (arith, split_bytes s)

-- A name of a domain controller that is accepted has at most 253 bytes, each of them a letter, a
-- digit, a dash or a dot.
pub valid_dc_fqdn_bytes :
    (lib : Library) (s : Text)
    → valid_dc_fqdn lib s ≡ true
    → (length s ≤ 253) × (all is_dns_byte s ≡ true)
valid_dc_fqdn_bytes lib s h =
    let (short, labels) = fqdn_labels lib s h in
    (short, split_on_bytes s (labels_bytes (split_on b'.' s) labels))
