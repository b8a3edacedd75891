-- ===== src/Netboot.antt =====
-- internal/netboot/netboot.go: the network boot entry of the firmware, and arming it for one boot.
pub mod Choice
pub mod Layout
use fog_agent.Prelude.{
  ℕ, zero, suc, ◌+◌, ◌*◌, ◌/◌, ◌%◌, ◌≡◌, Bool, true, false, not, ◌&&◌, ◌||◌, List, [], ◌∷◌, ◌++◌,
  Option, none, some, ◌==◌, ltb, leb, if◌then◌else◌, length, take, drop, Text,
}

-- One firmware boot entry that boots from the network.
pub record BootOption : Type 0 where
  pub number : ℕ
  pub description : List ℕ
  pub ipv4 : Bool

-- loadOption; the description is kept as its UTF-16 units.
pub record LoadOption : Type 0 where
  pub active : Bool
  pub network : Bool
  pub ipv4 : Bool
  pub description : List ℕ

-- binary.LittleEndian.Uint16 and Uint32 of the first bytes; a byte that is not there reads as 0, and the
-- callers ask for the length first.
abbrev pub byte_at : Text → ℕ → ℕ
byte_at [] i = 0
byte_at (b ∷ bs) zero = b
byte_at (b ∷ bs) (suc i) = byte_at bs i

abbrev pub uint16 : Text → ℕ
uint16 bs = byte_at bs 0 + 256 * byte_at bs 1

-- The two bytes of PutUint16.
abbrev pub put_uint16 : ℕ → Text
put_uint16 n = n % 256 ∷ n / 256 % 256 ∷ []

-- attrs & LOAD_OPTION_ACTIVE != 0: the lowest bit of the first byte.
abbrev pub is_active : Text → Bool
is_active bs = byte_at bs 0 % 2 == 1

abbrev pub dp_type_messaging : ℕ
dp_type_messaging = 0x03

abbrev pub dp_type_end : ℕ
dp_type_end = 0x7f

abbrev pub dp_msg_mac_addr : ℕ
dp_msg_mac_addr = 0x0b

abbrev pub dp_msg_ipv4 : ℕ
dp_msg_ipv4 = 0x0c

abbrev pub dp_msg_ipv6 : ℕ
dp_msg_ipv6 = 0x0d

-- What a messaging node of the path adds to the two answers.
unfoldable pub read_node : ℕ → ℕ → Bool × Bool → Bool × Bool
read_node t st (network, ipv4) =
    if not (t == dp_type_messaging)
    then (network, ipv4)
    else if st == dp_msg_mac_addr
    then (true, ipv4)
    else if st == dp_msg_ipv4
    then (true, true)
    else if st == dp_msg_ipv6
    then (true, ipv4)
    else (network, ipv4)

-- The loop of devicePathIsNetwork, on fuel.
unfoldable pub walk : ℕ → Text → Bool × Bool → Option (Bool × Bool)
unfolding read_node
walk zero dp found = none
walk (suc fuel) dp found =
    let t = byte_at dp 0 in
    let st = byte_at dp 1 in
    let l = uint16 (drop 2 dp) in
    let rest = walk fuel (drop l dp) (read_node t st found) in
    if ltb (length dp) 4
    then some found
    else if ltb l 4 || ltb (length dp) l
    then some found
    else if t == dp_type_end
    then some found
    else rest

-- devicePathIsNetwork: each round takes four bytes at least, so the length and one is enough fuel.
unfoldable pub device_path_is_network : Text → Option (Bool × Bool)
unfolding walk
device_path_is_network dp = walk (suc (length dp)) dp (false, false)

-- The description: its units up to the first that is 0, and what follows the terminator.
unfoldable pub read_description : Text → Option (List ℕ × Text)
read_description [] = none
read_description (a ∷ []) = none
read_description (a ∷ b ∷ rest) =
    let later = read_description rest in
    if a + 256 * b == 0
    then some ([], rest)
    else elim later [ none ↦ none | some (units, after) ↦ some ((a + 256 * b) ∷ units, after) ]

-- Why an entry does not parse.
pub data Malformed : Type 0 where
  too_short not_terminated path_too_long no_fuel : Malformed

pub data Parsed : Type 0 where
  option : LoadOption → Parsed
  malformed : Malformed → Parsed

-- parseLoadOption, from the device path on.
unfoldable pub finish_option : Bool → List ℕ → ℕ → Text → Parsed
finish_option active units fp_len dp =
    if ltb (length dp) fp_len
    then malformed path_too_long
    else elim (device_path_is_network (take fp_len dp)) [
      | none ↦ malformed no_fuel
      | some (network, ipv4) ↦
          option (record { active = active; network = network; ipv4 = ipv4; description = units })
    ]

-- parseLoadOption
unfoldable pub parse_load_option : Text → Parsed
parse_load_option b =
    if ltb (length b) 6 then malformed too_short else elim (read_description (drop 6 b)) [
      | none ↦ malformed not_terminated
      | some (units, dp) ↦ finish_option (is_active b) units (uint16 (drop 4 b)) dp
    ]

-- map[uint16]loadOption
abbrev pub Options : Type 0
Options = ℕ → Option LoadOption

abbrev pub is_candidate : Option LoadOption → Bool
is_candidate none = false
is_candidate (some lo) = lo.active && lo.network

abbrev pub is_ipv4 : Option LoadOption → Bool
is_ipv4 none = false
is_ipv4 (some lo) = lo.ipv4

abbrev pub boot_option : ℕ → LoadOption → BootOption
boot_option n lo = record { number = n; description = lo.description; ipv4 = lo.ipv4 }

-- choose, with the fallback found so far.
unfoldable pub choose_from : Option BootOption → List ℕ → Options → Option BootOption
choose_from fallback [] opts = fallback
choose_from fallback (n ∷ order) opts = elim (opts n) [
  | none ↦ choose_from fallback order opts
  | some lo ↦ elim (lo.active && lo.network) [
    | false ↦ choose_from fallback order opts
    | true ↦ elim lo.ipv4 [
      | true ↦ some (boot_option n lo)
      | false ↦ elim fallback [
        | none ↦ choose_from (some (boot_option n lo)) order opts
        | some o ↦ choose_from (some o) order opts
      ]
    ]
  ]
]

unfoldable pub choose : List ℕ → Options → Option BootOption
unfolding choose_from
choose = choose_from none

-- The names of the firmware's variables that the code uses.
pub data Variable : Type 0 where
  boot_order boot_next : Variable
  boot : ℕ → Variable

pub data FirmwareError : Type 0 where
  unsupported no_option odd_order : FirmwareError
  failed : Text → FirmwareError

pub data Answer (A : Type 0) : Type 0 where
  ok : A → Answer A
  err : FirmwareError → Answer A

-- The bytes of BootOrder, two for each number.
unfoldable pub read_order : Text → List ℕ
read_order [] = []
read_order (a ∷ []) = []
read_order (a ∷ b ∷ rest) = (a + 256 * b) ∷ read_order rest

abbrev pub parsed_option : Answer Text → Option LoadOption
parsed_option (err e) = none
parsed_option (ok b) = elim (parse_load_option b) [ option lo ↦ some lo | malformed m ↦ none ]

abbrev pub member : ℕ → List ℕ → Bool
member n [] = false
member n (m ∷ ms) = m == n || member n ms

-- The map that Find fills for the numbers of BootOrder; an entry that cannot be read is left out.
unfoldable pub options_of : (Variable → Answer Text) → List ℕ → Options
options_of read_var order n = if member n order then parsed_option (read_var (boot n)) else none

-- Find, with firmware.ReadVar
unfoldable pub find : (Variable → Answer Text) → Answer BootOption
unfolding read_order options_of choose
find read_var = elim (read_var boot_order) [
  | err e ↦ err e
  | ok raw ↦
      if not (length raw % 2 == 0)
      then err odd_order
      else elim (choose (read_order raw) (options_of read_var (read_order raw))) [
        | none ↦ err no_option
        | some o ↦ ok o
      ]
]

-- Arm and Disarm: the one variable that they write or delete, and what they write.
pub data Change : Type 0 where
  write : Variable → Text → Change
  delete : Variable → Change

unfoldable pub arm : BootOption → Change
arm o = write boot_next (put_uint16 o.number)

unfoldable pub disarm : Change
disarm = delete boot_next
