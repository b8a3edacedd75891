-- ===== src/Agent/Sessions/Closures.antt =====
-- No session end that was seen is lost before the server has it.
use fog_agent.Prelude.{
  ℕ, suc, ◌+◌, ◌≡◌, refl, ◌⊎◌, inl, inr, Bool, true, false, not, ◌&&◌, ◌||◌, List, [], ◌∷◌, ◌++◌,
  Option, none, some, if◌then◌else◌, Text, ◌=ᵗ◌, Time, text_eq_iff, arith, Bool-cases, List-cases,
}
use fog_agent.Prelude.Int.{ℤ}
use fog_agent.Enroll.Data.{Session}
use fog_agent.AutoLogout.{Action, plan}
use fog_agent.Agent.World.{Log, Agent, note, acted, save}
use fog_agent.Agent.Format.{facts_interval, has_elapsed}
use fog_agent.Agent.Sessions.{
  Watcher, Look, is_live, gone, insert_session, sort_sessions, closed, idle_of, note_all,
  auto_logout, sample, Block, attach, record_sessions, is_nil,
}

-- How many sessions of the list have the key.
abbrev pub count_key : Text → List Session → ℕ
count_key k [] = 0
count_key k (s ∷ ss) = if s.key =ᵗ k then suc (count_key k ss) else count_key k ss

insert-count :
    (k : Text) (s : Session) (ss : List Session)
    → count_key k (insert_session s ss) ≡ count_key k (s ∷ ss)
unfolding insert_session
insert-count k s [] = refl
insert-count k s (u ∷ us) = ground (arith, insert-count k s us)

sort-count : (k : Text) (ss : List Session) → count_key k (sort_sessions ss) ≡ count_key k ss
unfolding sort_sessions
sort-count k [] = refl
sort-count k (s ∷ ss) = ground (arith, sort-count k ss, insert-count k s (sort_sessions ss))

gone-count :
    (k : Text) (prev cur : List Session) (now : Time)
    → count_key k (gone prev cur now) ≡ (if is_live cur k then 0 else count_key k prev)
unfolding gone
gone-count k [] cur now = ground arith
gone-count k (s ∷ prev) cur now = ground (arith, gone-count k prev cur now, text_eq_iff s.key k)

-- The sessions that are closed are the earlier ones whose key is no longer listed, each once for each
-- time that it was there.
pub closed_gone :
    (k : Text) (prev cur : List Session) (now : Time)
    → count_key k (closed prev cur now) ≡ (if is_live cur k then 0 else count_key k prev)
unfolding closed
closed_gone k prev cur now =
    ground (arith, sort-count k (gone prev cur now), gone-count k prev cur now)

note_all-config : (a : Agent) (xs : List Action) → (note_all a xs).config ≡ a.config
note_all-config a [] = refl
note_all-config a (x ∷ xs) = note_all-config (note a (acted x)) xs

pub auto_logout-config :
    (f : Text → Option ℤ) (w : Watcher) (a : Agent) → (auto_logout f w a).1.config ≡ a.config
unfolding auto_logout
auto_logout-config f w a =
    let idle = idle_of f w.opened in
    ground (arith, note_all-config a (plan a.config.auto_logout idle w.warned).0)

auto_logout-open :
    (f : Text → Option ℤ) (w : Watcher) (a : Agent) → (auto_logout f w a).0.opened ≡ w.opened
unfolding auto_logout
auto_logout-open f w a = ground arith

not_live : (k : Text) (ss : List Session) → is_live ss k ≡ false → count_key k ss ≡ 0
not_live k [] h = refl
not_live k (s ∷ ss) h = ground (arith, not_live k ss)

-- The keys of the ends that wait for the server.
abbrev pub waiting : Text → Agent → ℕ
waiting k a = count_key k a.config.sessions_pending

count_key-append :
    (k : Text) (xs ys : List Session) → count_key k (xs ++ ys) ≡ count_key k xs + count_key k ys
count_key-append k [] ys = omega arith
count_key-append k (x ∷ xs) ys = ground (arith, count_key-append k xs ys)

abbrev pub missing : Text → List Session → List Session → ℕ
missing k prev cur = if is_live cur k then 0 else count_key k prev

sample-waiting :
    (can : Log → Bool) (look : Look) (cur : List Session) (w : Watcher) (a : Agent) (k : Text)
    → a.config.sessions_disabled ≡ false
    → look.listed ≡ some cur
    → waiting k (sample can look (w, a)).1
      ≡ waiting k a + count_key k (closed w.opened cur look.time)
unfolding sample save
sample-waiting can look cur w a k on e =
    let ends = closed w.opened cur look.time in
    let same = auto_logout-config look.idle_for (record w { opened = cur }) a in
    elim (List-cases ends) [
      | inl n ↦ ground (arith, same)
      | inr (x, xs, n) ↦ ground (arith, same, count_key-append k a.config.sessions_pending ends)
    ]

-- While sessions are collected, each look that lists them adds to the ends that wait for the server
-- those of the sessions that were there at the look before and are listed no more, and drops none.
pub sample_adds :
    (can : Log → Bool) (look : Look) (cur : List Session) (w : Watcher) (a : Agent) (k : Text)
    → a.config.sessions_disabled ≡ false
    → look.listed ≡ some cur
    → waiting k (sample can look (w, a)).1 ≡ waiting k a + missing k w.opened cur
sample_adds can look cur w a k on e =
    ground (arith, sample-waiting can look cur w a k on e, closed_gone k w.opened cur look.time)

-- The ends that a request carries.
abbrev pub carried : Text → Option (Text × Block) → ℕ
carried k none = 0
carried k (some (digest, block)) = count_key k block.finished

none-if :
    (b c d : Bool) (u v w : Watcher) (x : Watcher × Option (Text × Block))
    → (b || (c || d)) ≡ true
    → (if b then (u, none) else if c then (v, none) else if d then (w, none) else x).1 ≡ none
none-if b c d u v w x h = ground arith

some-if :
    (b c d : Bool) (u v w : Watcher) (x : Watcher × Option (Text × Block))
    → (b || (c || d)) ≡ false
    → (if b then (u, none) else if c then (v, none) else if d then (w, none) else x).1 ≡ x.1
some-if b c d u v w x h = ground arith

attach-carries :
    (digest : List Session → Text) (look : Look) (w : Watcher) (a : Agent) (k : Text)
    → let sent = (attach digest look w a.config).1 in
      (sent ≡ none)
      ⊎ ((x : Text × Block) × (sent ≡ some x) × (count_key k x.1.finished ≡ waiting k a))
unfolding attach
attach-carries digest look w a k =
    let c = a.config in
    let w1 : Watcher = elim look.listed [ none ↦ w | some cur ↦ record w { opened = cur } ] in
    let silent : Bool = elim look.listed [ none ↦ is_nil w.opened | some cur ↦ false ] in
    let stale = has_elapsed look.time c.sessions_checked facts_interval in
    let quiet = digest w1.opened =ᵗ c.sessions_acked && (is_nil c.sessions_pending && not stale) in
    elim (Bool-cases (c.sessions_disabled || (silent || quiet))) [
      | inl e ↦ inl (none-if c.sessions_disabled silent quiet _ _ _ _ e)
      | inr e ↦ inr (
        (digest w1.opened, record { opened = w1.opened; finished = c.sessions_pending }),
        some-if c.sessions_disabled silent quiet _ _ _ _ e,
        refl,
      )
    ]

-- What is left to wait.
abbrev left : ℕ → Option (Text × Block) → ℕ
left n none = n
left n (some x) = 0

record-waiting :
    (can : Log → Bool) (sent : Option (Text × Block)) (collect : Option Bool) (now : Time)
    (a : Agent) (k : Text)
    → let b = (record_sessions can sent collect now a).0 in
      b.config.sessions_disabled ≡ false → waiting k b ≡ left (waiting k a) sent
unfolding record_sessions save
record-waiting can none collect now a k on = ground arith
record-waiting can (some x) collect now a k on = ground arith

-- A poll that got through neither loses nor repeats an end: what it carried and what still waits are
-- together what waited before, as long as sessions are collected after its answer.
pub poll_conserves :
    (can : Log → Bool) (digest : List Session → Text) (look : Look) (w : Watcher) (a : Agent)
    (collect : Option Bool) (now : Time) (k : Text)
    → let sent = (attach digest look w a.config).1 in
      let b = (record_sessions can sent collect now a).0 in
      b.config.sessions_disabled ≡ false → carried k sent + waiting k b ≡ waiting k a
poll_conserves can digest look w a collect now k on =
    let sent = (attach digest look w a.config).1 in
    let b = (record_sessions can sent collect now a).0 in
    let after = record-waiting can sent collect now a k on in
    elim (attach-carries digest look w a k) [
      | inl e ↦ ground (arith, after)
      | inr (x, e, same) ↦ ground (arith, after)
    ]

-- While sessions are collected, what a poll lists for itself replaces the sessions of the look
-- before without closing any: the next look, if it lists the same, adds no end, whatever had been
-- there.
pub attach_forgets :
    (can : Log → Bool) (digest : List Session → Text) (look next : Look) (cur : List Session)
    (w : Watcher) (a : Agent) (k : Text)
    → a.config.sessions_disabled ≡ false
    → look.listed ≡ some cur
    → next.listed ≡ some cur
    → waiting k (sample can next ((attach digest look w a.config).0, a)).1 ≡ waiting k a
unfolding attach
attach_forgets can digest look next cur w a k on e f =
    let w1 = (attach digest look w a.config).0 in
    ground (arith, sample_adds can next cur w1 a k on f, not_live k cur)
