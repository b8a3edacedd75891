-- ===== src/Agent/Coordinate/Withheld.antt =====
-- A task that the firmware cannot be pointed to the network for is not restarted for.
use fog_agent.Prelude.{
  ℕ, ◌≡◌, refl, true, false, all, List, [], ◌∷◌, Option, none, some, if◌then◌else◌, arith,
}
use fog_agent.Enroll.Data.{Config}
use fog_agent.Reboot.{Reason, drop_source}
use fog_agent.Netboot.{BootOption, no_option, err}
use fog_agent.Agent.World.{failed, refusing, reported, Agent, note, save}
use fog_agent.Agent.Coordinate.{
  Platform, unsaved, is_task, plan_reboot, plan_for, pending_of, entry_for, tasks_of,
  has_task_reason, act_on, coordinate, source_task,
}

pub drop_no_task : (rs : List Reason) → has_task_reason (drop_source rs source_task) ≡ false
unfolding drop_source has_task_reason
drop_no_task [] = refl
drop_no_task (r ∷ rs) = ground (arith, drop_no_task rs)

drop_all : (rs : List Reason) → all is_task rs ≡ true → drop_source rs source_task ≡ []
unfolding drop_source
drop_all [] h = refl
drop_all (r ∷ rs) h = ground (arith, drop_all rs)

tasks_all : (rs : List Reason) → all is_task rs ≡ true → tasks_of rs ≡ rs
unfolding tasks_of
tasks_all [] h = refl
tasks_all (r ∷ rs) h = ground (arith, tasks_all rs)

no_tasks : (rs : List Reason) → tasks_of rs ≡ [] → has_task_reason rs ≡ false
unfolding tasks_of has_task_reason
no_tasks [] h = refl
no_tasks (r ∷ rs) h = ground (arith, no_tasks rs)

module _ (p : Platform) where
  -- With no entry in the firmware to boot the network from, no task is among the reasons that are acted
  -- on.
  pub plan_for_no_task :
      (c : Config) → p.boot_entry ≡ err no_option → has_task_reason (plan_for p c).act ≡ false
  unfolding plan_reboot
  plan_for_no_task c h =
      let pending = pending_of p c in ground (arith, drop_no_task pending, no_tasks pending)

  act_on_withheld :
      (a : Agent) (n : ℕ) (entry : Option BootOption)
      → let rs = a.config.pending_reboot in
        drop_source rs source_task ≡ []
        → tasks_of rs ≡ rs
        → has_task_reason rs ≡ true
        → let a1 = note a (reported failed (refusing no_option)) in
          act_on p (plan_reboot rs (some no_option)) n entry a
          ≡ ((save p.can_save a1).0, if p.can_save a1.log then none else some unsaved)
  unfolding act_on has_task_reason plan_reboot
  act_on_withheld a n entry d t h = ground arith

  -- With no entry to boot the network from, nothing but tasks outstanding, and the users known, a
  -- turn outside Windows neither arms a boot nor asks for a restart: it reports the refusal, tries
  -- to save, and every task stays.
  pub coordinate_withholds :
      (a : Agent) (n : ℕ)
      → p.windows ≡ false
      → p.users ≡ some n
      → p.boot_entry ≡ err no_option
      → has_task_reason a.config.pending_reboot ≡ true
      → all is_task a.config.pending_reboot ≡ true
      → let a1 = note a (reported failed (refusing no_option)) in
        coordinate p a ≡ ((save p.can_save a1).0, if p.can_save a1.log then none else some unsaved)
  unfolding coordinate has_task_reason
  coordinate_withholds a n w u e t h =
      let rs = a.config.pending_reboot in
      ground (arith, act_on_withheld a n (entry_for p rs) (drop_all rs h) (tasks_all rs h))
