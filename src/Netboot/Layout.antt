-- ===== src/Netboot/Layout.antt =====
-- The bytes of a boot entry against the entry that they encode.
use fog_agent.Prelude.{
  ℕ, zero, suc, ◌+◌, ◌/◌, ◌%◌, ◌<◌, ◌≡◌, ◌≢◌, refl, Bool, Bool-cases, inl, inr, false, ◌&&◌, ◌||◌,
  List, [], ◌∷◌, ◌++◌, some, ◌==◌, ltb, any, All, length, take, drop, length-append, length-drop,
  drop-append, take-append, Text, arith,
}
use fog_agent.Netboot.{
  byte_at, uint16, put_uint16, dp_type_messaging, dp_type_end, dp_msg_mac_addr, dp_msg_ipv4,
  dp_msg_ipv6, read_node, walk, device_path_is_network, read_description, option, finish_option,
  parse_load_option,
}

-- The walk ends: with more fuel than bytes it gives an answer.
walk_total :
    (fuel : ℕ) (dp : Text) (found : Bool × Bool)
    → length dp < fuel
    → (r : Bool × Bool) × (walk fuel dp found ≡ some r)
unfolding walk
walk_total zero dp found h = absurd (omega arith)
walk_total (suc fuel) dp found h = elim (Bool-cases stops) [
  | inl s ↦ (found, ground arith)
  | inr s ↦
      let (r, e) =
        walk_total fuel (drop l dp) (read_node (byte_at dp 0) (byte_at dp 1) found)
          (ground (arith, length-drop l dp)) in
      (r, ground arith)
]
  where
    l : ℕ
    l = uint16 (drop 2 dp)

    stops : Bool
    stops = ltb (length dp) 4 || (ltb l 4 || ltb (length dp) l) || byte_at dp 0 == dp_type_end

-- A node of a device path: its type, its subtype and the bytes behind its header.
pub record Node : Type 0 where
  pub kind : ℕ
  pub subkind : ℕ
  pub payload : Text

-- A node that the header's two bytes of length can hold, and that does not end the path.
abbrev pub Fits : Node → Type 0
Fits nd = (nd.kind ≢ dp_type_end) × (4 + length nd.payload < 65536)

abbrev pub encode_node : Node → Text
encode_node nd = nd.kind ∷ nd.subkind ∷ (put_uint16 (4 + length nd.payload) ++ nd.payload)

abbrev pub encode_path : List Node → Text
encode_path [] = dp_type_end ∷ 0xff ∷ 4 ∷ 0 ∷ []
encode_path (nd ∷ nds) = encode_node nd ++ encode_path nds

abbrev pub is_network_node : Node → Bool
is_network_node nd =
    nd.kind == dp_type_messaging
    && (nd.subkind == dp_msg_mac_addr || nd.subkind == dp_msg_ipv4 || nd.subkind == dp_msg_ipv6)

abbrev pub is_ipv4_node : Node → Bool
is_ipv4_node nd = nd.kind == dp_type_messaging && nd.subkind == dp_msg_ipv4

read_node_lem :
    (nd : Node) (network ipv4 : Bool)
    → read_node nd.kind nd.subkind (network, ipv4)
      ≡ (network || is_network_node nd, ipv4 || is_ipv4_node nd)
unfolding read_node
read_node_lem nd network ipv4 = ground arith

walk_encode :
    (fuel : ℕ) (nds : List Node) (network ipv4 : Bool)
    → All Fits nds
    → length nds < fuel
    → walk fuel (encode_path nds) (network, ipv4)
      ≡ some (network || any is_network_node nds, ipv4 || any is_ipv4_node nds)
unfolding walk
walk_encode zero nds network ipv4 f h = absurd (omega arith)
walk_encode (suc fuel) [] network ipv4 f h = ground arith
walk_encode (suc fuel) (nd ∷ nds) network ipv4 f h =
    let rest = encode_path nds in
    let node = encode_node nd ++ rest in
    let l : uint16 (drop 2 node) ≡ suc (suc (suc (suc (length nd.payload)))) = ground arith in
    let d : drop (uint16 (drop 2 node)) node ≡ rest = rw l (drop-append nd.payload rest) in
    ground (
      arith,
      l,
      d,
      length-append nd.payload rest,
      read_node_lem nd network ipv4,
      walk_encode fuel nds (network || is_network_node nd) (ipv4 || is_ipv4_node nd),
    )

length-encode_path : (nds : List Node) → length nds < length (encode_path nds)
length-encode_path [] = omega arith
length-encode_path (nd ∷ nds) =
    omega (arith, length-append nd.payload (encode_path nds), length-encode_path nds)

-- A device path of nodes that its headers can hold boots from the network exactly if it has a messaging
-- node for a MAC, an IPv4 or an IPv6 address, and over IPv4 exactly if it has one for an IPv4 address.
pub device_path_encode :
    (nds : List Node)
    → All Fits nds
    → device_path_is_network (encode_path nds)
      ≡ some (any is_network_node nds, any is_ipv4_node nds)
unfolding device_path_is_network
device_path_encode nds f =
    walk_encode (suc (length (encode_path nds))) nds false false f
      (omega (arith, length-encode_path nds))

-- The walk over a device path ends on every sequence of bytes.
pub device_path_total : (dp : Text) → (r : Bool × Bool) × (device_path_is_network dp ≡ some r)
unfolding device_path_is_network
device_path_total dp = walk_total (suc (length dp)) dp (false, false) (omega arith)

-- The two bytes of each unit, and the terminator.
abbrev pub encode_units : List ℕ → Text
encode_units [] = 0 ∷ 0 ∷ []
encode_units (u ∷ us) = u % 256 ∷ u / 256 ∷ encode_units us

-- A unit that two bytes hold, and that does not end the description.
abbrev pub IsUnit : ℕ → Type 0
IsUnit u = (0 < u) × (u < 65536)

read_description_encode :
    (us : List ℕ) (rest : Text)
    → All IsUnit us
    → read_description (encode_units us ++ rest) ≡ some (us, rest)
unfolding read_description
read_description_encode [] rest f = refl
read_description_encode (u ∷ us) rest f = ground (arith, read_description_encode us rest)

-- The bytes of an entry: the attributes, the length of the path, the description, the path and what
-- data the firmware keeps behind it.
abbrev pub encode_option : ℕ → List ℕ → List Node → Text → Text
encode_option attrs us nds behind =
    attrs % 256
    ∷ attrs / 256 % 256
    ∷ attrs / 65536 % 256
    ∷ attrs / 16777216 % 256
    ∷ (put_uint16 (length (encode_path nds)) ++ (encode_units us ++ (encode_path nds ++ behind)))

-- An entry that is laid out as the specification of the firmware says parses to its description and to
-- what its path says, and is active exactly if the lowest bit of the attributes is set.
pub parse_load_option_encode :
    (attrs : ℕ) (us : List ℕ) (nds : List Node) (behind : Text)
    → All IsUnit us
    → All Fits nds
    → length (encode_path nds) < 65536
    → parse_load_option (encode_option attrs us nds behind)
      ≡ option (record {
        active = attrs % 2 == 1;
        network = any is_network_node nds;
        ipv4 = any is_ipv4_node nds;
        description = us;
      })
unfolding parse_load_option finish_option
parse_load_option_encode attrs us nds behind u f l =
    let path = encode_path nds in
    let after = path ++ behind in
    let header = drop 4 (encode_option attrs us nds behind) in
    let n : uint16 header ≡ length path = ground arith in
    let t : take (uint16 header) after ≡ path = rw n (take-append path behind) in
    let a : (attrs % 256 % 2 == 1) ≡ (attrs % 2 == 1) = ground arith in
    ground (
      arith,
      n,
      t,
      a,
      read_description_encode us after u,
      length-append path behind,
      device_path_encode nds f,
    )
