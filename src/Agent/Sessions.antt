-- ===== src/Agent/Sessions.antt =====
-- cmd/fog-agent/sessions.go and autologout.go, with internal/usersession's Closed: the sessions between
-- two polls. What the operating system lists, and how long a session is idle, is given.
pub mod Closures
use fog_agent.Prelude.{
  ℕ, Bool, true, false, not, ◌&&◌, ◌||◌, List, [], ◌∷◌, ◌++◌, Option, none, some, any,
  if◌then◌else◌, Text, text, ◌=ᵗ◌, ◌<ᵗ◌, Time,
}
use fog_agent.Prelude.Int.{ℤ, pos}
use fog_agent.Enroll.Data.{Config, Session}
use fog_agent.AutoLogout.{Policy, Idle, KeySet, Action, empty_set, enabled, plan}
use fog_agent.Agent.World.{Log, acted, Agent, note, save}
use fog_agent.Agent.Format.{facts_interval, has_elapsed}

-- sessionWatcher
pub record Watcher : Type 0 where
  pub opened : List Session
  pub warned : KeySet

abbrev pub state_disconnect : Text
state_disconnect = text "disconnected"

abbrev pub is_nil : List Session → Bool
is_nil [] = true
is_nil (s ∷ ss) = false

-- A session of the list with this key.
abbrev pub is_live : List Session → Text → Bool
is_live cur key = any (λ s. s.key =ᵗ key) cur

-- The stamp of a session that is gone.
abbrev pub ended : Time → Session → Session
ended now s = record s {
  ended_at = now;
  end_reason = if s.state =ᵗ state_disconnect then text "disconnect" else text "logout";
}

unfoldable pub gone : List Session → List Session → Time → List Session
gone [] cur now = []
gone (s ∷ prev) cur now =
    let rest = gone prev cur now in if is_live cur s.key then rest else ended now s ∷ rest

-- sort.Slice by key. It does not say how sessions with one key stand to each other.
unfoldable pub insert_session : Session → List Session → List Session
insert_session s [] = s ∷ []
insert_session s (u ∷ us) = if u.key <ᵗ s.key then u ∷ insert_session s us else s ∷ u ∷ us

unfoldable pub sort_sessions : List Session → List Session
unfolding insert_session
sort_sessions [] = []
sort_sessions (s ∷ ss) = insert_session s (sort_sessions ss)

-- usersession.Closed
unfoldable pub closed : List Session → List Session → Time → List Session
unfolding gone sort_sessions
closed prev cur now = sort_sessions (gone prev cur now)

-- One look at the operating system: usersession.List, and IdleFor.
pub record Look : Type 0 where
  pub time : Time
  pub listed : Option (List Session)
  pub idle_for : Text → Option ℤ

-- Only a session whose idle time is known can be planned for.
unfoldable pub idle_of : (Text → Option ℤ) → List Session → List Idle
idle_of idle_for [] = []
idle_of idle_for (s ∷ ss) =
    let rest = idle_of idle_for ss in
    elim (idle_for s.key) [
      | none ↦ rest
      | some d ↦ record { key = s.key; user = s.user; idle_for = d } ∷ rest
    ]

abbrev pub note_all : Agent → List Action → Agent
note_all a [] = a
note_all a (x ∷ xs) = note_all (note a (acted x)) xs

-- autoLogout; the lines that it prints, and the errors behind them, are left out.
unfoldable pub auto_logout : (Text → Option ℤ) → Watcher → Agent → Watcher × Agent
unfolding enabled idle_of plan
auto_logout idle_for w a =
    let policy = a.config.auto_logout in
    let idle = idle_of idle_for w.opened in
    let (actions, warned) = plan policy idle w.warned in
    if not (enabled policy)
    then (record w { warned = (plan policy [] w.warned).1 }, a)
    else elim idle [ [] ↦ (w, a) | i ∷ is' ↦ (record w { warned = warned }, note_all a actions) ]

-- sample
unfoldable pub sample : (Log → Bool) → Look → Watcher × Agent → Watcher × Agent
unfolding closed auto_logout save
sample can_save look (w, a) = if a.config.sessions_disabled then (w, a) else elim look.listed [
  | none ↦ (w, a)
  | some cur ↦
      let (w1, a1) = auto_logout look.idle_for (record w { opened = cur }) a in
      let ends = closed w.opened cur look.time in
      let pending = a1.config.sessions_pending ++ ends in
      elim ends [
        | [] ↦ (w1, a1)
        | s ∷ ss ↦ (
          w1,
          (save can_save
              (record a1 { config = record a1.config { sessions_pending = pending } })).0,
        )
      ]
]

-- sleepSampling: the looks that fall into the wait.
unfoldable pub sleep_sampling : (Log → Bool) → List Look → Watcher × Agent → Watcher × Agent
unfolding sample
sleep_sampling can_save [] s = s
sleep_sampling can_save (look ∷ looks) s = sleep_sampling can_save looks (sample can_save look s)

-- The block of the request, and the digest that it claims.
pub record Block : Type 0 where
  pub opened : List Session
  pub finished : List Session

-- attach; `digest` is usersession.Digest.
unfoldable pub attach :
    (List Session → Text) → Look → Watcher → Config → Watcher × Option (Text × Block)
attach digest look w c =
    let w1 : Watcher = elim look.listed [ none ↦ w | some cur ↦ record w { opened = cur } ] in
    let silent : Bool = elim look.listed [ none ↦ is_nil w.opened | some cur ↦ false ] in
    let none_pending = is_nil c.sessions_pending in
    let stale = has_elapsed look.time c.sessions_checked facts_interval in
    if c.sessions_disabled
    then (w, none)
    else if silent
    then (w, none)
    else if digest w1.opened =ᵗ c.sessions_acked && (none_pending && not stale)
    then (w1, none)
    else (w1, some (digest w1.opened, record { opened = w1.opened; finished = c.sessions_pending }))

-- What the answer says of the collection: st.Config.SessionsDisabled == *resp.CollectSessions
abbrev pub is_turned : Bool → Option Bool → Bool
is_turned disabled none = false
is_turned disabled (some on) = if disabled then on else not on

-- recordSessions: whether it went without an error.
unfoldable pub record_sessions :
    (Log → Bool) → Option (Text × Block) → Option Bool → Time → Agent → Agent × Bool
unfolding save
record_sessions can_save sent collect now a =
    let turned = is_turned a.config.sessions_disabled collect in
    let disabled = if turned then not a.config.sessions_disabled else a.config.sessions_disabled in
    let c1 = record a.config { sessions_disabled = disabled } in
    let dropped = record c1 { sessions_pending = []; sessions_acked = [] } in
    let queued = not (is_nil c1.sessions_pending) || not (c1.sessions_acked =ᵗ []) in
    if disabled
    then if queued
      then save can_save (record a { config = dropped })
      else if turned
      then save can_save (record a { config = c1 })
      else (record a { config = c1 }, true)
    else elim sent [
      | none ↦
          if turned
          then save can_save (record a { config = c1 })
          else (record a { config = c1 }, true)
      | some (digest, block) ↦
          let c2 = record c1 {
            sessions_pending = [];
            sessions_acked = digest;
            sessions_checked = now;
          } in
          save can_save (record a { config = c2 })
    ]
