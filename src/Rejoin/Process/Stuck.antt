-- ===== src/Rejoin/Process/Stuck.antt =====
-- An operation whose outcome is not known, or that has failed, is never tried again.
use mathlib.Core.Path.{subst}
use fog_agent.Prelude.{
  ◌≡◌, refl, inl, inr, sym, ◌∙◌, Bool, true, false, List, [], ◌∷◌, All, Option, none, some,
  Option-cases, Bool-cases, Text, text, ◌=ᵗ◌, arith,
}
use fog_agent.Prelude.Int.{ℤ}
use fog_agent.Enroll.Data.{Config}
use fog_agent.Rejoin.Data.{RejoinPlan, Observation, Attempt, Library}
use fog_agent.Rejoin.Marker.{Disk, Call, judge, load_attempt, validate_reserved_retry}
use fog_agent.Rejoin.Marker.Saved.{Holds}
use fog_agent.Rejoin.Marker.Phases.{Phase, may_have_run, failed, unknown, word}
use fog_agent.Rejoin.World.{kept, told, claimed, named, called, saved, Log, Host, Stop, Machine}
use fog_agent.Rejoin.Dispatch.{rejoin_report, forget_history, retire, no_observation}
use fog_agent.Rejoin.Process.{conclude, with_plan, process_rejoin, begin, plan_refusal, from_plan}

-- A change of the machine, with the disk under which it was made: its name was set, or the native
-- call of the directory was made.
pub data Change : Type 0 where
  of_name of_account : Disk → Change

abbrev pub changes : Log → List Change
changes [] = []
changes (named d n ok ∷ log) = of_name d ∷ changes log
changes (called d n p ∷ log) = of_account d ∷ changes log
changes (kept d ∷ log) = changes log
changes (told r ok ∷ log) = changes log
changes (claimed p ok ∷ log) = changes log
changes (saved c ∷ log) = changes log

-- Nothing of the machine or of the marker's disk was changed.
pub record IsUntouched (w w' : Host) : Type 0 where
  pub disk_same : w'.disk ≡ w.disk
  pub changes_same : changes w'.log ≡ changes w.log

untouched : (w : Host) → IsUntouched w w
untouched w = record { disk_same = refl; changes_same = refl }

-- What follows a refusal that there may be.
IsUntouched-guard :
    (w : Host) (o : Option Stop) (r : Host × Option Stop)
    → IsUntouched w r.0
    → IsUntouched w (elim o as (λ x. Host × Option Stop) [ some s ↦ (w, some s) | none ↦ r ]).0
IsUntouched-guard w none r h = h
IsUntouched-guard w (some s) r h = untouched w

-- The phases that end an operation or leave it in doubt, short of one that is verified.
abbrev pub is_stuck : Phase → Bool
is_stuck may_have_run = true
is_stuck failed = true
is_stuck unknown = true
is_stuck p = false

stuck_tests :
    (p : Phase) (t : Text)
    → is_stuck p ≡ true
    → t ≡ word p
    → ((t =ᵗ text "verified") ≡ false)
      × ((t =ᵗ text "reserved") ≡ false)
      × ((t =ᵗ text "awaiting_reboot") ≡ false)
unfolding ◌=ᵗ◌
stuck_tests p t h e =
    subst
      (λ x.
        ((x =ᵗ text "verified") ≡ false)
        × ((x =ᵗ text "reserved") ≡ false)
        × ((x =ᵗ text "awaiting_reboot") ≡ false))
      (sym e) (ground arith)

judge_same :
    (lib : Library) (a : Attempt) → (judge lib a true).1 ≡ none → judge lib a true ≡ (some a, none)
unfolding judge
judge_same lib a h = ground arith

-- A marker is loaded as what the disk holds, or not at all.
pub load_attempt_same :
    (lib : Library) (refuses : Call → Bool) (d : Disk) (a : Attempt)
    → Holds lib d a
    → (load_attempt lib refuses d).1 ≡ none
    → load_attempt lib refuses d ≡ (some a, none)
unfolding load_attempt
load_attempt_same lib refuses d a h k = ground (arith, h.stored, h.decoded, judge_same lib a)

module _ (m : Machine) where
  retry_reserved :
      (a : Attempt) (p : RejoinPlan) (host : ℤ) (fp : Text)
      → (a.phase =ᵗ text "reserved") ≡ false
      → validate_reserved_retry m.lib a p host fp ≡ false
  unfolding validate_reserved_retry
  retry_reserved a p host fp h = ground arith

  rejoin_report-IsUntouched :
      (a : Attempt) (phase : Text) (o : Observation) (boot : Bool) (w : Host)
      → IsUntouched w (rejoin_report m a phase o boot w).0
  unfolding rejoin_report
  rejoin_report-IsUntouched a phase o boot w = record {
    disk_same = ground arith;
    changes_same = ground arith;
  }

  conclude-IsUntouched :
      (p : RejoinPlan) (fp : Text) (a : Attempt) (w : Host)
      → (a.phase =ᵗ text "verified") ≡ false
      → (a.phase =ᵗ text "awaiting_reboot") ≡ false
      → IsUntouched w (conclude m p fp a w).0
  unfolding conclude
  conclude-IsUntouched p fp a w v r =
      let told = λ (s : Text). rejoin_report-IsUntouched a s no_observation false w in
      let u = rejoin_report-IsUntouched a (text "unknown") no_observation false w in
      let f = rejoin_report-IsUntouched a (text "failed") no_observation false w in
      record {
        disk_same = ground (arith, u.disk_same, f.disk_same);
        changes_same = ground (arith, u.changes_same, f.changes_same);
      }

  retire-IsUntouched :
      (p : RejoinPlan) (fp : Text) (a : Attempt) (w : Host)
      → (a.phase =ᵗ text "verified") ≡ false
      → (a.phase =ᵗ text "reserved") ≡ false
      → (a.phase =ᵗ text "awaiting_reboot") ≡ false
      → IsUntouched w (begin m p fp (retire m p fp a w)).0
  unfolding retire begin
  retire-IsUntouched p fp a w v r b =
      let c = conclude-IsUntouched p fp a w v b in
      record {
        disk_same = ground (arith, retry_reserved a p w.config.host_id fp r, c.disk_same);
        changes_same = ground (arith, retry_reserved a p w.config.host_id fp r, c.changes_same);
      }

  from_plan-IsUntouched :
      (p : RejoinPlan) (a : Attempt) (w : Host)
      → (a.phase =ᵗ text "verified") ≡ false
      → (a.phase =ᵗ text "reserved") ≡ false
      → (a.phase =ᵗ text "awaiting_reboot") ≡ false
      → IsUntouched w (from_plan m p (some a) w).0
  unfolding from_plan
  from_plan-IsUntouched p a w v r b = elim (Option-cases m.fingerprint) [
    | inl e ↦ record { disk_same = ground (arith, e); changes_same = ground (arith, e) }
    | inr (fp, e) ↦
        let c = retire-IsUntouched p fp a w v r b in
        record {
          disk_same = ground (arith, c.disk_same);
          changes_same = ground (arith, c.changes_same);
        }
  ]

  with_plan-IsUntouched :
      (p : RejoinPlan) (a : Option Attempt) (w : Host)
      → IsUntouched w (from_plan m p a w).0
      → IsUntouched w (with_plan m p a w).0
  unfolding with_plan
  with_plan-IsUntouched p a w c =
      let guarded = IsUntouched-guard w (plan_refusal m p w.config.host_id) (from_plan m p a w) c in
      elim (Bool-cases (p.phase =ᵗ text "blocked")) [
        | inl e ↦ subst (IsUntouched w) (ground (arith, e)) (untouched w)
        | inr e ↦ subst (IsUntouched w) (ground (arith, e)) guarded
      ]

  -- While the marker on the disk has a phase that is stuck, a poll leaves the machine and the marker as
  -- they are, whatever the plan that comes with it, whatever the configuration, and whatever the
  -- outside answers.
  pub process_rejoin-IsUntouched :
      (p : Option RejoinPlan) (w : Host) (a : Attempt) (phase : Phase)
      → Holds m.lib w.disk a
      → a.phase ≡ word phase
      → is_stuck phase ≡ true
      → IsUntouched w (process_rejoin m p w).0
  unfolding process_rejoin forget_history
  process_rejoin-IsUntouched p w a phase h e s =
      let (v, r, b) = stuck_tests phase a.phase s e in
      let load = load_attempt_same m.lib (m.refuses w.log) w.disk a h in
      elim (Option-cases p) [
        | inl f ↦ record { disk_same = ground (arith, load); changes_same = ground (arith, load) }
        | inr (q, f) ↦
            let c = with_plan-IsUntouched q (some a) w (from_plan-IsUntouched q a w v r b) in
            record {
              disk_same = ground (arith, load, c.disk_same);
              changes_same = ground (arith, load, c.changes_same);
            }
      ]

-- A poll that may come at any time: the machine at the time, the plan that the server sends, and the
-- configuration that the rest of the agent has left.
pub record Turn : Type 0 where
  pub machine : Machine
  pub plan : Option RejoinPlan
  pub config : Config

abbrev pub polls : List Turn → Host → Host
polls [] w = w
polls (t ∷ ts) w = polls ts (process_rejoin t.machine t.plan (record w { config = t.config })).0

-- While the marker on the disk, as every poll reads it, has a phase that is stuck, no number of polls
-- changes the machine or the marker.
pub polls-IsUntouched :
    (ts : List Turn) (w : Host) (a : Attempt) (phase : Phase)
    → All (λ t. Holds t.machine.lib w.disk a) ts
    → a.phase ≡ word phase
    → is_stuck phase ≡ true
    → IsUntouched w (polls ts w)
polls-IsUntouched [] w a phase reads e s = untouched w
polls-IsUntouched (t ∷ ts) w a phase (h, reads) e s =
    let w0 : Host = record w { config = t.config } in
    let w1 = (process_rejoin t.machine t.plan w0).0 in
    let one = process_rejoin-IsUntouched t.machine t.plan w0 a phase h e s in
    let moved = subst (λ d. All (λ t. Holds t.machine.lib d a) ts) (sym one.disk_same) reads in
    let rest = polls-IsUntouched ts w1 a phase moved e s in
    record {
      disk_same = rest.disk_same ∙ one.disk_same;
      changes_same = rest.changes_same ∙ one.changes_same;
    }
