-- ===== src/Agent/Reconcile/Tasks.antt =====
-- A machine that has restarted for a task, or that has none, keeps no reason to restart for one.
use fog_agent.Prelude.{
  ◌≡◌, refl, false, ◌||◌, List, [], ◌∷◌, ◌++◌, Text, ◌=ᵗ◌, text_eq_iff, arith, Time,
}
use fog_agent.Reboot.{Reason, drop_source, merge}
use fog_agent.Agent.Coordinate.{source_task, has_task_reason}

task-append :
    (xs ys : List Reason) → has_task_reason (xs ++ ys) ≡ (has_task_reason xs || has_task_reason ys)
unfolding has_task_reason
task-append [] ys = refl
task-append (x ∷ xs) ys = ground (arith, task-append xs ys)

task-drop :
    (s : Text) (rs : List Reason)
    → (s =ᵗ source_task) ≡ false
    → has_task_reason (drop_source rs s) ≡ has_task_reason rs
unfolding has_task_reason drop_source
task-drop s [] h = refl
task-drop s (r ∷ rs) h =
    ground (arith, task-drop s rs h, text_eq_iff r.source s, text_eq_iff r.source source_task)

-- A reason of another source leaves the reasons for a task as they are.
pub task-merge :
    (rs : List Reason) (r : Reason) (clock : Time)
    → (r.source =ᵗ source_task) ≡ false
    → has_task_reason (merge rs r clock) ≡ has_task_reason rs
unfolding merge has_task_reason
task-merge rs r clock h = ground (
  arith,
  task-drop r.source rs h,
  task-append (drop_source rs r.source) (r ∷ []),
  task-append (drop_source rs r.source) (record r { since = clock } ∷ []),
)
