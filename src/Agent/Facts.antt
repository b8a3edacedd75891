-- ===== src/Agent/Facts.antt =====
-- cmd/fog-agent/facts.go: which facts ride on a poll, and what is kept of them when it got through.
pub mod Gate
use fog_agent.Prelude.{
  ℕ, Bool, true, false, not, ◌&&◌, ◌||◌, List, [], ◌∷◌, Option, none, some, ◌==◌, if◌then◌else◌,
  Text, ◌=ᵗ◌, Time,
}
use fog_agent.Prelude.Int.{ℤ}
use fog_agent.Enroll.Data.{Config}
use fog_agent.Agent.World.{Log, Agent, save}
use fog_agent.Agent.Format.{facts_interval, has_elapsed}

-- The six collectors.
pub data Kind : Type 0 where
  inventory software directory printers network secure_boot : Kind

-- What the server answers about the facts.
pub record Wants : Type 0 where
  pub of_kind : Kind → Bool
  pub collect_facts : Option Bool

abbrev pub hash_of : Config → Kind → Text
hash_of c inventory = c.inventory_hash
hash_of c software = c.software_hash
hash_of c directory = c.directory_hash
hash_of c printers = c.printers_hash
hash_of c network = c.network_hash
hash_of c secure_boot = c.secure_boot_hash

abbrev pub is_wanted : Config → Kind → Bool
is_wanted c inventory = c.want_inventory
is_wanted c software = c.want_software
is_wanted c directory = c.want_directory
is_wanted c printers = c.want_printers
is_wanted c network = c.want_network
is_wanted c secure_boot = c.want_secure_boot

unfoldable pub facts_due : Config → Time → Bool
facts_due c now =
    not c.facts_disabled
    && (c.want_inventory
        || (c.want_software
            || (c.want_directory
                || (c.want_printers
                    || (c.want_secure_boot || has_elapsed now c.facts_checked facts_interval)))))

-- sentFacts: a kind that was not sent has the empty hash.
pub record SentFacts : Type 0 where
  pub gathered : Bool
  pub hash : Kind → Text

-- One collector: the hash of what it read, and the hash of what rides on the request.
unfoldable pub offer : Config → Kind → Option Text → Option Text
offer c k none = none
offer c k (some h) = if not (h =ᵗ hash_of c k) || is_wanted c k then some h else none

abbrev pub is_network : Kind → Bool
is_network network = true
is_network k = false

-- The blocks of the request.
unfoldable pub block : (Kind → Option Text) → Config → Time → Kind → Option Text
unfolding facts_due offer
block collect c now k =
    if c.facts_disabled
    then none
    else if is_network k || facts_due c now
    then offer c k (collect k)
    else none

-- attachFacts, with the blocks of the request.
unfoldable pub attach_facts :
    (Kind → Option Text) → Config → Time → SentFacts × (Kind → Option Text)
unfolding block facts_due
attach_facts collect c now =
    let blocks = block collect c now in
    (
      record {
        gathered = not c.facts_disabled && facts_due c now;
        hash = λ k. elim (blocks k) [ none ↦ [] | some h ↦ h ];
      },
      blocks,
    )

abbrev pub kept_hash : SentFacts → Config → Kind → Text
kept_hash sent c k = if sent.hash k =ᵗ [] then hash_of c k else sent.hash k

-- The fields that recordFacts owns.
abbrev pub recorded : SentFacts → Wants → Time → Config → Config
recorded sent wants now c = record c {
  facts_checked = if sent.gathered then now else c.facts_checked;
  inventory_hash = kept_hash sent c inventory;
  software_hash = kept_hash sent c software;
  directory_hash = kept_hash sent c directory;
  printers_hash = kept_hash sent c printers;
  network_hash = kept_hash sent c network;
  secure_boot_hash = kept_hash sent c secure_boot;
  want_inventory = wants.of_kind inventory;
  want_software = wants.of_kind software;
  want_directory = wants.of_kind directory;
  want_printers = wants.of_kind printers;
  want_network = wants.of_kind network;
  want_secure_boot = wants.of_kind secure_boot;
  facts_disabled = elim wants.collect_facts [ none ↦ c.facts_disabled | some on ↦ not on ];
}

infix 50 ◌=ᵇ◌
abbrev pub ◌=ᵇ◌ : Bool → Bool → Bool
a =ᵇ b = if a then b else not b

abbrev pub same_kind : Config → Config → Kind → Bool
same_kind a b k = hash_of a k =ᵗ hash_of b k && is_wanted a k =ᵇ is_wanted b k

-- before == after
abbrev pub same_facts : Config → Config → Bool
same_facts a b =
    a.facts_checked == b.facts_checked
    && (a.facts_disabled =ᵇ b.facts_disabled
        && (same_kind a b inventory
            && (same_kind a b software
                && (same_kind a b directory
                    && (same_kind a b printers
                        && (same_kind a b network && same_kind a b secure_boot))))))

-- recordFacts: whether it went without an error.
unfoldable pub record_facts : (Log → Bool) → SentFacts → Wants → Time → Agent → Agent × Bool
unfolding save
record_facts can_save sent wants now a =
    let c = recorded sent wants now a.config in
    let a1 : Agent = record a { config = c } in
    if same_facts a.config c then (a1, true) else save can_save a1
