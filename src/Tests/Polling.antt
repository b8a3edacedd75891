-- ===== src/Tests/Polling.antt =====
-- Passes of the loop while the server refuses, and the facts and sessions that ride on a poll.
use fog_agent.Agent.Format.{sub_time}
use fog_agent.Prelude.{
  ℕ, ◌≡◌, refl, inr, true, false, [], ◌∷◌, Option, some, none, List, Text, text, ◌=ᵗ◌, ◌+◌, arith,
}
use fog_agent.Prelude.Int.{pos}
use fog_agent.Enroll.Data.{Session}
use fog_agent.Agent.World.{Agent}
use fog_agent.Agent.Facts.{Kind, Wants}
use fog_agent.Agent.Sessions.{Watcher, Look, sample, attach, record_sessions}
use fog_agent.Agent.Sessions.Closures.{waiting, carried, poll_conserves, attach_forgets}
use fog_agent.Agent.Polls.{Pass, Loop, unauthorized, pass}
use fog_agent.Agent.Polls.Sleeps.{Ends, pass_sleeps}
use fog_agent.Agent.Polls.Outage.{run, run_survives, enrolled_as, pass_drops_again}
use fog_agent.Tests.Worlds.{a_config, a_machine, an_agent, machine_platform}

abbrev collected : Kind → Option Text
collected k = some (text "h1")

abbrev nothing_wanted : Wants
nothing_wanted = record { of_kind = λ k. false; collect_facts = none }

abbrev an_hour : ℕ
an_hour = 3600000000000

abbrev a_session : Session
a_session = record {
  key = text "1";
  user = text "ada";
  domain = [];
  sid = [];
  type = text "console";
  state = text "active";
  remote_host = [];
  started_at = 3;
  ended_at = 0;
  end_reason = [];
}

abbrev look_at : ℕ → List Session → Look
look_at t ss = record { time = t; listed = some ss; idle_for = λ k. none }

abbrev watching : Watcher
watching = record { opened = a_session ∷ []; warned = λ k. false }

abbrev after_end : Agent
after_end = record { config = record a_config { sessions_pending = a_session ∷ [] }; log = [] }

abbrev digest_of : List Session → Text
digest_of ss = text "digest"

-- A pass at a time, at which the server refuses without naming the certificate.
abbrev refused_at : ℕ → Pass
refused_at t = record {
  machine = a_machine;
  platform = machine_platform;
  once = false;
  now = t;
  resting = t;
  outcome = unauthorized;
  collect = collected;
  digest = digest_of;
  look = look_at t [];
  looks = [];
  can_remove = true;
  is_renew_due = false;
  issued = none;
  can_write = true;
  next = λ ss t. none;
}

-- The refusals began at the nanosecond 5.
abbrev waiting_loop : Loop
waiting_loop = record {
  has_cert = true;
  watcher = watching;
  agent = record { config = record a_config { unauthorized_since = 5 }; log = [] };
}

abbrev after_a_week : ℕ
after_a_week = 700000000000000

poll_conserves_example :
    let sent = (attach digest_of (look_at 8 []) watching after_end.config).1 in
    let b = (record_sessions (λ log. true) sent none 9 after_end).0 in
    carried (text "1") sent + waiting (text "1") b ≡ waiting (text "1") after_end
unfolding record_sessions attach ◌=ᵗ◌
poll_conserves_example =
    poll_conserves (λ log. true) digest_of (look_at 8 []) watching after_end none 9 (text "1") refl

attach_forgets_example :
    waiting
      (text "1")
      (sample
        (λ log. true)
        (look_at 9 [])
        ((attach digest_of (look_at 8 []) watching an_agent.config).0, an_agent)).1
    ≡ waiting (text "1") an_agent
attach_forgets_example =
    attach_forgets (λ log. true) digest_of (look_at 8 []) (look_at 9 []) [] watching an_agent
      (text "1") refl refl refl

-- A pass after which the machine is due to shut down in a minute.
abbrev shutting_down : Pass
shutting_down = record (refused_at 7) {
  next = λ ss t. some (60000000007, record { cron = text "* * * * *"; action = text "shutdown" });
}

pass_sleeps_example : Ends shutting_down (pass shutting_down waiting_loop).1
unfolding sub_time
pass_sleeps_example = pass_sleeps shutting_down waiting_loop refl tt

run_survives_example : (run (refused_at 7 ∷ refused_at 9 ∷ []) waiting_loop).has_cert ≡ true
run_survives_example =
    run_survives 5 (refused_at 7 ∷ refused_at 9 ∷ []) waiting_loop
      ((refl, omega arith, omega arith), ((refl, omega arith, omega arith), tt)) (inr (omega arith))
      refl

pass_drops_again_example :
    let l1 = (pass (refused_at after_a_week) waiting_loop).0 in
    (pass
      (refused_at 700000000000001)
      (record l1 { has_cert = true; agent = enrolled_as (pos 2) l1.agent })).0.has_cert
    ≡ false
unfolding sub_time
pass_drops_again_example =
    pass_drops_again (refused_at after_a_week) (refused_at 700000000000001) waiting_loop (pos 2)
      refl refl refl refl (refl, refl) (omega arith)
