-- ===== src/Tests/Booting.antt =====
-- A boot order of three entries.
use fog_agent.Prelude.{
  ◌≡◌, ◌%◌, ◌==◌, true, false, List, [], ◌∷◌, if◌then◌else◌, none, some, any, Text, text, arith,
}
use fog_agent.Netboot.{
  Options, choose, Variable, boot_order, boot_next, boot, no_option, failed, Answer, ok, err,
  option, parse_load_option,
}
use fog_agent.Netboot.Choice.{or_then, entry_of, first, is_network_ipv4, is_network, choose_lem}
use fog_agent.Netboot.Layout.{
  Node, encode_option, is_network_node, is_ipv4_node, parse_load_option_encode,
}

-- A disk at 0, IPv6 at 1 and IPv4 at 2.
abbrev entries : Options
entries n =
    if n == 0
    then some (record { active = true; network = false; ipv4 = false; description = [] })
    else if n == 1
    then some (record { active = true; network = true; ipv4 = false; description = [] })
    else if n == 2
    then some (record { active = true; network = true; ipv4 = true; description = [] })
    else none

choose_lem_example :
    choose (0 ∷ 1 ∷ 2 ∷ []) entries
    ≡ or_then
        (entry_of entries (first (is_network_ipv4 entries) (0 ∷ 1 ∷ 2 ∷ [])))
        (entry_of entries (first (is_network entries) (0 ∷ 1 ∷ 2 ∷ [])))
choose_lem_example = choose_lem (0 ∷ 1 ∷ 2 ∷ []) entries

-- The order names an entry that the firmware does not give.
abbrev a_firmware : Variable → Answer Text
a_firmware v = elim v [
  | boot_order ↦ ok (1 ∷ 0 ∷ [])
  | boot_next ↦ err no_option
  | boot n ↦ err (failed (text "gone"))
]

abbrev a_path : List Node
a_path = record { kind = 3; subkind = 12; payload = 1 ∷ 2 ∷ [] } ∷ []

parse_load_option_encode_example :
    parse_load_option (encode_option 1 (text "PXE") a_path [])
    ≡ option (record {
      active = 1 % 2 == 1;
      network = any is_network_node a_path;
      ipv4 = any is_ipv4_node a_path;
      description = text "PXE";
    })
parse_load_option_encode_example =
    parse_load_option_encode 1 (text "PXE") a_path [] (ground arith) (ground arith) (omega arith)
