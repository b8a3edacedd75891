-- ===== src/Tests/Scheduling.antt =====
-- Steps of a schedule's fields.
use fog_agent.Prelude.{◌^◌, ◌-◌, ◌≡◌, ◌↔◌, true, arith}
use fog_agent.Cron.{steps, no_bits, step_fuel}
use fog_agent.Cron.Steps.{IsStep, steps_lem, Run, steps-Run, steps_wrap}

steps_lem_example : (steps step_fuel 0 59 15 no_bits 45 ≡ true) ↔ IsStep 0 59 15 45
steps_lem_example = steps_lem 0 59 15 45 (omega arith) (omega arith) (omega arith) (omega arith)

steps-Run_example : Run 31 7 1 no_bits (steps step_fuel 1 31 7 no_bits)
steps-Run_example = steps-Run 1 31 7 no_bits (omega arith) (omega arith) (omega arith) (omega arith)

-- The range 3-5 with the step 9223372036854775807 sets the bit 1.
steps_wrap_example : steps step_fuel 3 5 (2 ^ 63 - 1) no_bits (3 - 2) ≡ true
steps_wrap_example = steps_wrap 3 5 no_bits (omega arith) (omega arith) (omega arith)
