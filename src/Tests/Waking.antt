-- ===== src/Tests/Waking.antt =====
-- One target behind two links, of which one refuses the packet.
use fog_agent.Prelude.{take, [], ◌∷◌, none, some, if◌then◌else◌, All, text, ◌=ᵗ◌}
use fog_agent.Prelude.Int.{pos}
use fog_agent.Wake.{Target, Sender, run}
use fog_agent.Wake.Wire.{IsMagic, run-IsMagic}

abbrev two_links : Sender
two_links = record {
  broadcasts = text "a" ∷ text "b" ∷ [];
  unreadable_interfaces = none;
  send_error = λ log d. if d.0 =ᵗ text "b" then some (text "refused") else none;
}

abbrev a_target : Target
a_target = record { id = pos 1; macs = (1 ∷ 2 ∷ 3 ∷ 4 ∷ 5 ∷ 6 ∷ []) ∷ text "x" ∷ [] }

run-IsMagic_example :
    All
      (IsMagic (λ t. t) (λ t. some t) (text "a" ∷ text "b" ∷ []) (take 32 (a_target ∷ [])))
      (run two_links (λ t. t) (λ t. some t) (a_target ∷ [])).0
run-IsMagic_example = run-IsMagic two_links (λ t. t) (λ t. some t) (a_target ∷ [])
