-- ===== src/Tests/Idle.antt =====
-- Samples of two users, under a policy of ten minutes with a warning a minute before.
use fog_agent.Prelude.{◌≡◌, refl, false, List, [], ◌∷◌, any, text, arith}
use fog_agent.Prelude.Int.{pos}
use fog_agent.AutoLogout.{Policy, Idle, KeySet, plan}
use fog_agent.AutoLogout.Window.{has_key, logs_off}
use fog_agent.AutoLogout.Overflow.{plan_overflow}

abbrev ten_minutes : Policy
ten_minutes = record { minutes = pos 10; warn_seconds = pos 60; message = [] }

abbrev one : Idle
one = record { key = text "1"; user = text "ann"; idle_for = pos 580000000000 }

abbrev two : Idle
two = record { key = text "2"; user = text "bob"; idle_for = pos 700000000000 }

abbrev both : List Idle
both = one ∷ two ∷ []

abbrev nobody : KeySet
nobody k = false

abbrev centuries : Policy
centuries = record { minutes = pos 200000000; warn_seconds = pos 60; message = [] }

plan_overflow_example :
    any (logs_off (text "1")) (plan centuries both nobody).0 ≡ any (has_key (text "1")) both
plan_overflow_example =
    plan_overflow centuries 200000000 both nobody (text "1") refl (omega arith) (omega arith) refl
