-- ===== src/AutoLogout.antt =====
-- internal/provider/autologout/autologout.go: what to do about idle sessions.
pub mod Window
pub mod Overflow
use fog_agent.Prelude.{
  ℕ, ◌≡◌, ◌/◌, Bool, true, false, not, ◌&&◌, ◌||◌, List, [], ◌∷◌, ◌++◌, ◌==◌, if◌then◌else◌, Text,
  text, ◌=ᵗ◌, ◌<ᵗ◌,
}
use fog_agent.Prelude.Int.{
  ℤ, pos, negsuc, pos_part, neg_part, sub_ℕ, wrap64, ◌*ℤ◌, ◌-ℤ◌, ltb_ℤ, leb_ℤ,
}

abbrev pub min_minutes : ℤ
min_minutes = pos 5

pub record Policy : Type 0 where
  pub minutes : ℤ
  pub warn_seconds : ℤ
  pub message : Text

unfoldable pub default_message : Text
default_message =
    text
      "You are about to be logged out for inactivity. Move the mouse or press a key to stay logged in."

-- Enabled
unfoldable pub enabled : Policy → Bool
enabled p = leb_ℤ min_minutes p.minutes

-- One session; durations are nanoseconds.
pub record Idle : Type 0 where
  pub key : Text
  pub user : Text
  pub idle_for : ℤ

pub data Kind : Type 0 where
  warn logoff : Kind

pub record Action : Type 0 where
  pub key : Text
  pub user : Text
  pub kind : Kind
  pub message : Text
  pub remaining : ℤ

-- map[string]bool, read at every key.
abbrev pub KeySet : Type 0
KeySet = Text → Bool

abbrev pub empty_set : KeySet
empty_set k = false

abbrev pub put : KeySet → Text → KeySet
put m key k = if key =ᵗ k then true else m k

abbrev pub delete : KeySet → Text → KeySet
delete m key k = if key =ᵗ k then false else m k

-- The maps and the slice that the loop changes.
pub record Progress : Type 0 where
  pub live : KeySet
  pub warned : KeySet
  pub out : List Action

abbrev pub minute : ℤ
minute = pos 60000000000

abbrev pub second : ℤ
second = pos 1000000000

-- d / 2, towards zero
unfoldable pub half : ℤ → ℤ
half d = sub_ℕ (pos_part d / 2) (neg_part d / 2)

unfoldable pub limit_of : Policy → ℤ
limit_of p = wrap64 (p.minutes *ℤ minute)

unfoldable pub warn_of : Policy → ℤ
unfolding limit_of half
warn_of p =
    let warn' = wrap64 (p.warn_seconds *ℤ second) in
    if leb_ℤ (limit_of p) warn' then half (limit_of p) else warn'

abbrev pub message_of : Policy → Text
message_of p = if p.message =ᵗ [] then default_message else p.message

-- s.For >= limit
abbrev pub is_over : ℤ → Idle → Bool
is_over limit s = leb_ℤ limit s.idle_for

-- warn > 0 && s.For >= limit-warn: the difference is taken only with 0 < warn < limit
abbrev pub is_near : ℤ → ℤ → Idle → Bool
is_near limit warn' s = ltb_ℤ (pos 0) warn' && leb_ℤ (limit -ℤ warn') s.idle_for

abbrev pub logoff_action : Idle → Action
logoff_action s = record {
  key = s.key;
  user = s.user;
  kind = logoff;
  message = [];
  remaining = pos 0;
}

abbrev pub warn_action : ℤ → Text → Idle → Action
warn_action limit msg s = record {
  key = s.key;
  user = s.user;
  kind = warn;
  message = msg;
  remaining = limit -ℤ s.idle_for;
}

-- One round of the loop over the sessions.
unfoldable pub visit : ℤ → ℤ → Text → Progress → Idle → Progress
visit limit warn' msg g s =
    let live = put g.live s.key in
    if is_over limit s
    then record { live = live; warned = delete g.warned s.key; out = g.out ++ logoff_action s ∷ [] }
    else if is_near limit warn' s
    then (if g.warned s.key then record g { live = live } else record {
      live = live;
      warned = put g.warned s.key;
      out = g.out ++ warn_action limit msg s ∷ [];
    })
    else record g { live = live; warned = delete g.warned s.key }

unfoldable pub visit_all : ℤ → ℤ → Text → Progress → List Idle → Progress
visit_all limit warn' msg g [] = g
visit_all limit warn' msg g (s ∷ rest) = visit_all limit warn' msg (visit limit warn' msg g s) rest

-- sort.Slice by key. It does not say how actions with one key stand to each other.
unfoldable pub insert_action : Action → List Action → List Action
insert_action a [] = a ∷ []
insert_action a (b ∷ bs) = if b.key <ᵗ a.key then b ∷ insert_action a bs else a ∷ b ∷ bs

unfoldable pub sort_actions : List Action → List Action
unfolding insert_action
sort_actions [] = []
sort_actions (a ∷ as') = insert_action a (sort_actions as')

abbrev pub begin : KeySet → Progress
begin warned = record { live = empty_set; warned = warned; out = [] }

-- The loop over all the sessions, from the map that was given.
unfoldable pub sample : Policy → List Idle → KeySet → Progress
sample p idle warned = visit_all (limit_of p) (warn_of p) (message_of p) (begin warned) idle

-- What `Plan` answers with, and the map of warned sessions as it leaves it.
unfoldable pub plan : Policy → List Idle → KeySet → List Action × KeySet
plan p idle warned =
    if not (enabled p)
    then ([], empty_set)
    else let g = sample p idle warned in (sort_actions g.out, λ k. g.warned k && g.live k)
