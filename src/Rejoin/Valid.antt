-- ===== src/Rejoin/Valid.antt =====
-- What a plan must look like: RejoinPlan.Validate and the names that it checks.
pub mod Names
use fog_agent.Prelude.{
  Bool, true, false, not, ◌&&◌, ◌||◌, ℕ, List, [], ◌∷◌, Option, none, some, if◌then◌else◌, ltb, leb,
  ◌==◌, length, ◌++◌, Text, text, ◌=ᵗ◌, all, any, split_on, has_byte, is_digit,
}
use fog_agent.Prelude.Int.{ℤ, pos, ◌=ℤ◌, ltb_ℤ, leb_ℤ}
use fog_agent.Rejoin.Data.{RejoinObject, RejoinPlan, Observation, Boot, Library}

-- A byte below a-z, A-Z or 0-9.
abbrev pub is_letter : ℕ → Bool
is_letter c = (leb b'a' c && leb c b'z') || (leb b'A' c && leb c b'Z')

-- fogHostname: one byte at least and fifteen at most, each of them a letter, a digit or a sign.
abbrev pub is_host_byte : ℕ → Bool
is_host_byte c = is_letter c || (leb b'0' c && leb c b'9') || has_byte c (text "_!@#$%^()-'{}.~")

unfoldable pub matches_fog_hostname : Text → Bool
unfolding has_byte
matches_fog_hostname s = ltb 0 (length s) && leb (length s) 15 && all is_host_byte s

-- rejoinID: 32 digits in hexadecimal
unfoldable pub matches_id : Text → Bool
matches_id s =
    length s == 32 && all (λ c. (leb b'a' c && leb c b'f') || (leb b'0' c && leb c b'9')) s

-- validNetBIOSName: the last loop finds a byte that is no digit.
unfoldable pub valid_netbios_name : Text → Bool
unfolding matches_fog_hostname is_digit
valid_netbios_name name =
    if length name == 0 || ltb 15 (length name) || not (matches_fog_hostname name)
    then false
    else any (λ c. not (is_digit c)) name

-- The bytes of a domain that is joined, and of a label of a DNS name.
abbrev pub is_label_byte : ℕ → Bool
is_label_byte c = is_letter c || (leb b'0' c && leb c b'9') || c == b'-'

abbrev pub last_byte : Text → ℕ
last_byte [] = 0
last_byte (c ∷ []) = c
last_byte (c ∷ d ∷ cs) = last_byte (d ∷ cs)

abbrev pub is_label : Text → Bool
is_label [] = false
is_label (c ∷ cs) =
    leb (length (c ∷ cs)) 63
    && not (c == b'-')
    && not (last_byte (c ∷ cs) == b'-')
    && all is_label_byte (c ∷ cs)

module _ (lib : Library) where
  -- validDCFQDN
  unfoldable pub valid_dc_fqdn : Text → Bool
  unfolding split_on
  valid_dc_fqdn value =
      if value =ᵗ [] || ltb 253 (length value) || not (lib.trim value =ᵗ value)
      then false
      else if lib.is_ip value
      then false
      else let labels = split_on b'.' value in
        if ltb (length labels) 2 then false else all is_label labels

  -- validJoinDomain
  unfoldable pub valid_join_domain : Text → Bool
  valid_join_domain domain =
      if domain =ᵗ [] || ltb 253 (length domain) || not (lib.trim domain =ᵗ domain)
      then false
      else all (λ c. is_label_byte c || c == b'.') domain

  -- validTarget
  unfoldable pub valid_target : Option RejoinObject → Text → Bool
  valid_target none name = false
  valid_target (some t) name =
      lib.matches_guid t.guid && not (t.sid =ᵗ []) && lib.equal_fold t.account (name ++ text "$")

-- The errors of Validate, in the order in which they are looked for.
pub data Invalid : Type 0 where
  plan_version bad_plan expected_names task_join operation target create_target bad_rename
        rename_target :
      Invalid

abbrev pub is_operation : Text → RejoinPlan → Bool
is_operation s p = p.operation =ᵗ s

abbrev pub require : Bool → Invalid → Option Invalid
require b e = if b then none else some e

-- The first error of two.
abbrev pub or_else : Option Invalid → Option Invalid → Option Invalid
or_else none next = next
or_else (some e) next = some e

module _ (lib : Library) where
  -- The first check of Validate behind the version's.
  unfoldable pub sound : ℤ → RejoinPlan → Bool
  unfolding valid_dc_fqdn valid_join_domain
  sound host p =
      let valid_name =
        if is_operation (text "rename") p || is_operation (text "join") p
        then matches_fog_hostname p.name
        else lib.matches_name p.name in
      p.host_id =ℤ host
      && leb_ℤ (pos 1) host
      && matches_id p.attempt_id
      && matches_id p.config_revision
      && valid_name
      && leb (length p.name) 15
      && (if is_operation (text "join") p
          then valid_join_domain lib p.domain
          else valid_dc_fqdn lib p.domain)
      && valid_dc_fqdn lib p.dc
      && leb_ℤ (pos 0) p.task_id

  -- The names before the change.
  unfoldable pub names_expected : RejoinPlan → Bool
  unfolding valid_netbios_name
  names_expected p =
      valid_netbios_name p.expected_current
      && valid_netbios_name p.expected_pending
      && (lib.equal_fold p.expected_pending p.expected_current
          || lib.equal_fold p.expected_pending p.name)

  abbrev pub is_nil : Option RejoinObject → Bool
  is_nil none = true
  is_nil (some t) = false

  -- The case "rebind" of Validate.
  unfoldable pub validate_rebind : RejoinPlan → Option Invalid
  unfolding valid_target
  validate_rebind p =
      if p.mode =ᵗ text "existing"
      then require (valid_target lib p.target p.name) target
      else if not (p.mode =ᵗ text "create")
      then some operation
      else if p.phase =ᵗ text "ready"
      then require (is_nil p.target) create_target
      else require (valid_target lib p.target p.name) create_target

  -- The case "rename".
  unfoldable pub validate_rename : RejoinPlan → Option Invalid
  unfolding valid_target
  validate_rename p = or_else (require (p.mode =ᵗ text "rename" && names_expected p) bad_rename) (
      require
        (is_nil p.target
          || valid_target lib p.target p.name
          || valid_target lib p.target p.expected_current)
        rename_target)

  -- RejoinPlan.Validate, from the switch on the operation on
  unfoldable pub validate_operation : RejoinPlan → Option Invalid
  unfolding validate_rebind validate_rename
  validate_operation p =
      if is_operation (text "join") p
      then require (p.mode =ᵗ text "join" && ltb_ℤ (pos 0) p.task_id && is_nil p.target) task_join
      else if is_operation (text "rebind") p
      then validate_rebind p
      else if is_operation (text "rename") p
      then validate_rename p
      else some operation

  -- RejoinPlan.Validate
  unfoldable pub validate : ℤ → RejoinPlan → Option Invalid
  unfolding sound names_expected validate_operation
  validate host p =
      if not (p.version =ℤ pos 2)
      then some plan_version
      else or_else (require (sound host p) bad_plan)
          (or_else (require (names_expected p) expected_names) (validate_operation p))

  abbrev pub is_valid : ℤ → RejoinPlan → Bool
  is_valid host p = elim (validate host p) [ none ↦ true | some e ↦ false ]

  -- ValidateRenamePlan
  unfoldable pub validate_rename_plan : RejoinPlan → Bool
  unfolding validate valid_target
  validate_rename_plan p =
      p.version =ℤ pos 2
      && is_operation (text "rename") p
      && is_valid p.host_id p
      && valid_target lib p.target p.expected_current

  abbrev pub is_member : Text → Bool
  is_member role = role =ᵗ text "workstation" || role =ᵗ text "member_server"

  -- validateRenameObservation
  unfoldable pub validate_rename_observation : RejoinPlan → Observation → Bool
  unfolding validate_rename_plan
  validate_rename_observation p o =
      validate_rename_plan p
      && lib.equal_fold o.current_name p.expected_current
      && lib.equal_fold o.pending_name p.expected_pending
      && lib.equal_fold o.domain p.domain
      && is_member o.role
      && (o.secure_channel =ᵗ text "true" || o.secure_channel =ᵗ text "false")

-- NewBoot
unfoldable pub new_boot : Boot → Boot → Bool
new_boot before after =
    not (before.marker =ᵗ [])
    && not (before.started =ᵗ [])
    && not (after.marker =ᵗ [])
    && not (after.started =ᵗ [])
    && not (before.marker =ᵗ after.marker)
    && not (before.started =ᵗ after.started)
