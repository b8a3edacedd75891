-- ===== src/Rejoin/Marker/Phases.antt =====
-- The phases of a marker as a machine, and that any saves of the marker follow it.
use fog_agent.Prelude.{
  same_bool, ◌≡◌, ◌≢◌, refl, ◌⊎◌, inl, inr, sym, ap, ◌∙◌, Bool, true, false, none, some, List, [],
  ◌∷◌, All, Text, text, ◌=ᵗ◌, text_eq→eq, or_cases, arith,
}
use mathlib.Core.Path.{subst}
use mathlib.Core.Bool.{◌||◌}
use fog_agent.Rejoin.Data.{Attempt, Library}
use fog_agent.Rejoin.Marker.{Disk, Call, attempt_phase_update, save_attempt, set_reboot_requested}
use fog_agent.Rejoin.Marker.Saved.{
  Holds, IsRead, save_attempt-IsWhole, document-Holds, set_reboot_requested_ok,
}

pub data Phase : Type 0 where
  reserved may_have_run awaiting_reboot verified failed unknown : Phase

abbrev pub word : Phase → Text
word reserved = text "reserved"
word may_have_run = text "may_have_run"
word awaiting_reboot = text "awaiting_reboot"
word verified = text "verified"
word failed = text "failed"
word unknown = text "unknown"

-- One move: a reservation is dispatched, a dispatch succeeds or fails, a success is confirmed after the
-- restart, and doubt ends whatever has not ended.
pub data Step : Phase → Phase → Type 0 where
  dispatched : Step reserved may_have_run
  succeeded : Step may_have_run awaiting_reboot
  refused : Step may_have_run failed
  confirmed : Step awaiting_reboot verified
  unclaimed : Step reserved unknown
  lost : Step may_have_run unknown
  unconfirmed : Step awaiting_reboot unknown

-- Any number of moves.
pub data Moves : Phase → Phase → Type 0 where
  stay : {p : Phase} → Moves p p
  move : {p q r : Phase} → Step p q → Moves q r → Moves p r

-- A phase's word that attemptPhaseUpdate lets follow is the same, or one move further.
abbrev Next : Phase → Text → Type 0
Next p t = (q : Phase) × (t ≡ word q) × ((p ≡ q) ⊎ Step p q)

stays : (p : Phase) (t : Text) → (word p =ᵗ t) ≡ true → Next p t
stays p t h = (p, sym (text_eq→eq (word p) t h), inl refl)

moves : (p q : Phase) (t : Text) → Step p q → (t =ᵗ word q) ≡ true → Next p t
moves p q t s h = (q, text_eq→eq t (word q) h, inr s)

update-Next : (p : Phase) (t : Text) → attempt_phase_update (word p) t ≡ true → Next p t
unfolding attempt_phase_update ◌=ᵗ◌
update-Next reserved t h = elim (or_cases (word reserved =ᵗ t) _ h) [
  | inl e ↦ stays reserved t e
  | inr h1 ↦ elim (or_cases (t =ᵗ word may_have_run) _ h1) [
    | inl e ↦ moves reserved may_have_run t dispatched e
    | inr e ↦ moves reserved unknown t unclaimed e
  ]
]
update-Next may_have_run t h = elim (or_cases (word may_have_run =ᵗ t) _ h) [
  | inl e ↦ stays may_have_run t e
  | inr h1 ↦ elim (or_cases (t =ᵗ word awaiting_reboot || t =ᵗ word failed) _ h1) [
    | inr e ↦ moves may_have_run unknown t lost e
    | inl h2 ↦ elim (or_cases (t =ᵗ word awaiting_reboot) _ h2) [
      | inl e ↦ moves may_have_run awaiting_reboot t succeeded e
      | inr e ↦ moves may_have_run failed t refused e
    ]
  ]
]
update-Next awaiting_reboot t h = elim (or_cases (word awaiting_reboot =ᵗ t) _ h) [
  | inl e ↦ stays awaiting_reboot t e
  | inr h1 ↦ elim (or_cases (t =ᵗ word verified) _ h1) [
    | inl e ↦ moves awaiting_reboot verified t confirmed e
    | inr e ↦ moves awaiting_reboot unknown t unconfirmed e
  ]
]
update-Next verified t h = elim (or_cases (word verified =ᵗ t) _ h) [
  | inl e ↦ stays verified t e
  | inr e ↦ ground arith
]
update-Next failed t h = elim (or_cases (word failed =ᵗ t) _ h) [
  | inl e ↦ stays failed t e
  | inr e ↦ ground arith
]
update-Next unknown t h = elim (or_cases (word unknown =ᵗ t) _ h) [
  | inl e ↦ stays unknown t e
  | inr e ↦ ground arith
]

-- A save by anyone: what fails in it, and the attempt.
pub record Save : Type 0 where
  pub refuses : Call → Bool
  pub attempt : Attempt

module _ (lib : Library) where
  abbrev pub saves : List Save → Disk → Disk
  saves [] d = d
  saves (s ∷ ss) d = saves ss (save_attempt lib s.refuses d s.attempt).0

  -- The disk holds the marker of an operation of an identity, in a phase.
  pub record IsAt (d : Disk) (a : Attempt) (p : Phase) : Type 0 where
    pub current : Attempt
    pub held : Holds lib d current
    pub at_phase : current.phase ≡ word p
    pub plan_same : current.plan ≡ a.plan
    pub fingerprint_same : current.fingerprint ≡ a.fingerprint
    pub latch_same : current.reboot_requested ≡ a.reboot_requested

  abbrev One : Disk → Attempt → Phase → Type 0
  One d a p = (q : Phase) × IsAt d a q × ((p ≡ q) ⊎ Step p q)

  -- Two attempts that a disk holds are the same.
  Holds_unique : (d : Disk) (a b : Attempt) → Holds lib d a → Holds lib d b → a ≡ b
  Holds_unique d a b h k = ground (arith, h.stored, h.decoded, k.stored, k.decoded)

  save-One :
      (s : Save) (d : Disk) (a : Attempt) (p : Phase)
      → IsRead lib s.attempt
      → IsAt d a p
      → One (save_attempt lib s.refuses d s.attempt).0 a p
  save-One s d a p law h = elim (save_attempt-IsWhole lib s.refuses d s.attempt).0 [
    | inl e ↦ (
      p,
      record {
        current = h.current;
        held = record {
          document = h.held.document;
          stored = e ∙ h.held.stored;
          decoded = h.held.decoded;
        };
        at_phase = h.at_phase;
        plan_same = h.plan_same;
        fingerprint_same = h.fingerprint_same;
        latch_same = h.latch_same;
      },
      inl refl,
    )
    | inr (w, (current, held, u)) ↦
        let e = Holds_unique d current h.current held h.held in
        let (q, named, step) = update-Next p s.attempt.phase (
          subst (λ x. attempt_phase_update x s.attempt.phase ≡ true)
            (ap (λ x. x.phase) e ∙ h.at_phase) u.phase_follows) in
        (
          q,
          record {
            current = s.attempt;
            held = document-Holds lib (save_attempt lib s.refuses d s.attempt).0 s.attempt law w;
            at_phase = named;
            plan_same = sym u.plan_kept ∙ ap (λ x. x.plan) e ∙ h.plan_same;
            fingerprint_same =
                sym u.fingerprint_kept ∙ ap (λ x. x.fingerprint) e ∙ h.fingerprint_same;
            latch_same = sym u.latch_kept ∙ ap (λ x. x.reboot_requested) e ∙ h.latch_same;
          },
          step,
        )
  ]

  -- Any saves, by anyone and whatever fails in them, leave a marker of the same operation and identity,
  -- with the same latch, in a phase that the machine of the phases reaches from the one before.
  pub saves-Moves :
      (ss : List Save) (d : Disk) (a : Attempt) (p : Phase)
      → All (λ s. IsRead lib s.attempt) ss
      → IsAt d a p
      → (q : Phase) × IsAt (saves ss d) a q × Moves p q
  saves-Moves [] d a p laws h = (p, h, stay)
  saves-Moves (s ∷ ss) d a p (law, laws) h =
      let (q, k, one) = save-One s d a p law h in
      let (r, l, rest) = saves-Moves ss (save_attempt lib s.refuses d s.attempt).0 a q laws k in
      (r, l, elim one [ inl e ↦ subst (λ x. Moves x r) (sym e) rest | inr t ↦ move t rest ])

same_bool_clash : (a b : Bool) → b ≡ a → same_bool a b ≡ false → ⊥
same_bool_clash a b e h = ground arith

-- The phases that end an operation.
abbrev pub is_ended : Phase → Bool
is_ended verified = true
is_ended failed = true
is_ended unknown = true
is_ended p = false

is_ended-Step : (p q : Phase) → Step p q → is_ended p ≡ false
is_ended-Step p q dispatched = refl
is_ended-Step p q succeeded = refl
is_ended-Step p q refused = refl
is_ended-Step p q confirmed = refl
is_ended-Step p q unclaimed = refl
is_ended-Step p q lost = refl
is_ended-Step p q unconfirmed = refl

ended-Moves : (p q : Phase) → is_ended p ≡ true → Moves p q → p ≡ q
ended-Moves p q h stay = refl
ended-Moves p q h (move {q = r} s ms) = ground (arith, is_ended-Step p r s)

module _ (lib : Library) where
  -- Any saves, by anyone and whatever fails in them, leave the phase of a marker whose operation is
  -- verified, has failed or is unknown.
  pub saves_ended :
      (ss : List Save) (d : Disk) (a : Attempt) (p : Phase)
      → is_ended p ≡ true
      → All (λ s. IsRead lib s.attempt) ss
      → IsAt lib d a p
      → IsAt lib (saves lib ss d) a p
  saves_ended ss d a p ended laws h =
      let (q, k, ms) = saves-Moves lib ss d a p laws h in
      subst (IsAt lib (saves lib ss d) a) (sym (ended-Moves p q ended ms)) k

  -- Of two that ask for the latch with the same marker before them, the second is refused, whatever
  -- the latch that it wants: the first has changed the marker.
  pub set_requested_once :
      (refuses refuses' : Call → Bool) (d : Disk) (a : Attempt) (first second : Bool)
      → IsRead lib (record a { reboot_requested = first })
      → let r = set_reboot_requested lib refuses d (some a) first in
        r.1 ≡ none → (set_reboot_requested lib refuses' r.0 (some a) second).1 ≢ none
  set_requested_once refuses refuses' d a first second law h k =
      let next : Attempt = record a { reboot_requested = first } in
      let d' = (set_reboot_requested lib refuses d (some a) first).0 in
      let (held, phase, latch, w) = set_reboot_requested_ok lib refuses d a first h in
      let (held', phase', latch', w') = set_reboot_requested_ok lib refuses' d' a second k in
      let e = Holds_unique lib d' next a (document-Holds lib d' next law w) held' in
      same_bool_clash a.reboot_requested first (ap (λ x. x.reboot_requested) e) latch
