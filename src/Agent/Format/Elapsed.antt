-- ===== src/Agent/Format/Elapsed.antt =====
-- What it means that a span has passed.
use fog_agent.Prelude.{ℕ, suc, ◌+◌, ◌≤◌, ◌≡◌, true, false, Time, arith}
use fog_agent.Prelude.Int.{pos}
use fog_agent.Agent.Format.{sub_time, has_elapsed}

-- No span has passed since now.
pub elapsed_now : (now : Time) (n : ℕ) → has_elapsed now now (pos (suc n)) ≡ false
unfolding sub_time
elapsed_now now n = ground arith

-- A span that has passed lies between the two times.
pub elapsed_le :
    (now since : Time) (n : ℕ) → has_elapsed now since (pos (suc n)) ≡ true → since + suc n ≤ now
unfolding sub_time
elapsed_le now since n h = ground arith

-- What had passed has passed later.
pub elapsed_later :
    (now later since : Time) (n : ℕ)
    → now ≤ later
    → has_elapsed now since (pos (suc n)) ≡ true
    → has_elapsed later since (pos (suc n)) ≡ true
unfolding sub_time
elapsed_later now later since n le h = ground arith
