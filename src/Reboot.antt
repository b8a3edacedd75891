-- ===== src/Reboot.antt =====
-- internal/reboot/reboot.go: the reboot coordinator.
pub mod Decide
pub mod Reasons
use fog_agent.Prelude.{
  ℕ, ◌≡◌, Bool, true, false, not, ◌&&◌, ◌||◌, List, [], ◌∷◌, ◌++◌, Option, none, some, ◌==◌, ltb,
  if◌then◌else◌, Text, text, ◌=ᵗ◌, ◌<ᵗ◌, Time,
}
use fog_agent.Prelude.Int.{ℤ, pos, wrap64, ◌*ℤ◌}

unfoldable pub mode_reboot : Text
mode_reboot = text "reboot"

unfoldable pub mode_shutdown : Text
mode_shutdown = text "shutdown"

pub record Reason : Type 0 where
  pub source : Text
  pub detail : Text
  pub force : Bool
  pub since : Time
  pub task_id : ℤ
  pub mode : Text

-- FOG_GRACE_TIMEOUT, in seconds
pub record Policy : Type 0 where
  pub grace : ℤ

-- What the line of text is about: the count, the warning and the reasons, as the source formats them.
pub data Why : Type 0 where
  nothing : Why
  waiting : ℕ → List Text → Why
  now : List Text → Why
  warning : ℕ → ℤ → List Text → Why

pub record Decision : Type 0 where
  pub reboot : Bool
  pub mode : Text
  pub delay : ℤ
  pub why : Why

abbrev pub no_decision : Decision
no_decision = record { reboot = false; mode = []; delay = pos 0; why = nothing }

-- sort.Strings: equal strings are alike, so every sorting gives this one.
unfoldable pub insert_text : Text → List Text → List Text
insert_text t [] = t ∷ []
insert_text t (u ∷ us) = if u <ᵗ t then u ∷ insert_text t us else t ∷ u ∷ us

unfoldable pub sort_texts : List Text → List Text
unfolding insert_text
sort_texts [] = []
sort_texts (t ∷ ts) = insert_text t (sort_texts ts)

-- The loop's three results.
pub record Tally : Type 0 where
  pub details : List Text
  pub allowed : Bool
  pub mode : Text

-- One round of the loop over the reasons.
unfoldable pub tally_one : ℕ → Tally → Reason → Tally
tally_one logged_in t r = record {
  details = t.details ++ (r.source ++ text ": " ++ r.detail) ∷ [];
  allowed = if logged_in == 0 || r.force then true else t.allowed;
  mode = if not (r.mode =ᵗ mode_shutdown) then mode_reboot else t.mode;
}

unfoldable pub tally : ℕ → Tally → List Reason → Tally
unfolding tally_one
tally logged_in t [] = t
tally logged_in t (r ∷ rs) = tally logged_in (tally_one logged_in t r) rs

abbrev pub start : Tally
start = record { details = []; allowed = false; mode = mode_shutdown }

abbrev pub nanos_per_second : ℤ
nanos_per_second = pos 1000000000

-- Decide
unfoldable pub decide : List Reason → ℕ → Policy → Decision
unfolding tally
decide [] logged_in p = no_decision
decide (r ∷ rs) logged_in p =
    let t = tally logged_in start (r ∷ rs) in
    let why = sort_texts t.details in
    if not t.allowed
    then record no_decision { why = waiting logged_in why }
    else if ltb 0 logged_in
    then record {
      reboot = true;
      mode = t.mode;
      delay = wrap64 (p.grace *ℤ nanos_per_second);
      why = warning logged_in p.grace why;
    }
    else record { reboot = true; mode = t.mode; delay = pos 0; why = now why }

-- Drop
unfoldable pub drop_source : List Reason → Text → List Reason
drop_source [] source = []
drop_source (x ∷ xs) source =
    let rest = drop_source xs source in if not (x.source =ᵗ source) then x ∷ rest else rest

-- Merge; `clock` is time.Now().
unfoldable pub merge : List Reason → Reason → Time → List Reason
unfolding drop_source
merge reasons r clock =
    let out = drop_source reasons r.source in
    if r.since == 0 then out ++ record r { since = clock } ∷ [] else out ++ r ∷ []

-- What the operating system's half returns.
pub data OsError : Type 0 where
  in_progress : OsError
  refused : Text → OsError

-- Execute: the call that it makes of the operating system's half, and what it returns.
unfoldable pub execute : (Text → ℤ → Text → Option OsError) → Text → ℤ → Text → Option OsError
execute os mode delay message =
    let mode' = if mode =ᵗ [] then mode_reboot else mode in
    elim (os mode' delay message) [
      | none ↦ none
      | some e ↦ elim e [ in_progress ↦ none | refused t ↦ some (refused t) ]
    ]
