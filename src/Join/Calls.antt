-- ===== src/Join/Calls.antt =====
-- Which calls a convergence to a domain makes.
use fog_agent.Prelude.{◌≡◌, refl, ◌⊎◌, inl, inr, true, false, [], ◌∷◌, Text, ◌=ᵗ◌, arith}
use fog_agent.Agent.Reconcile.Data.{Directory}
use fog_agent.Join.{
  Membership, Names, Action, stay, join, refuse, rename, renamed, Backend, tried_join, tried_rename,
  same_domain, lacks_credential, decide_member, decide, attempt, act, converge,
}

module _ (b : Backend) where
  abbrev pub wanted : Directory → Text
  wanted p = b.to_lower (b.trim p.domain)

  -- What allows a call.
  pub record MayJoin (p : Directory) (observed : Membership) : Type 0 where
    pub not_joined : observed.joined ≡ false
    pub has_domain : (wanted p =ᵗ []) ≡ false
    pub has_credential : lacks_credential b p ≡ false

  pub record MayRename (p : Directory) (observed : Membership) (names : Names) : Type 0 where
    pub joined_it : observed.joined ≡ true
    pub same_one : same_domain b observed (wanted p) p.netbios ≡ true
    pub has_name : (b.trim p.rename_to =ᵗ []) ≡ false
    pub other_name : b.equal_fold names.current (b.trim p.rename_to) ≡ false
    pub not_pending :
        (names.pending =ᵗ []) ≡ true ⊎ (b.equal_fold names.pending (b.trim p.rename_to) ≡ false)
    pub credential : lacks_credential b p ≡ false

  decide-join :
      (p : Directory) (observed : Membership) (names : Names)
      → (decide b p observed names).0 ≡ join
      → MayJoin p observed
  unfolding decide decide_member
  decide-join p observed names h = record {
    not_joined = ground arith;
    has_domain = ground arith;
    has_credential = ground arith;
  }

  decide-rename :
      (p : Directory) (observed : Membership) (names : Names)
      → (decide b p observed names).0 ≡ rename
      → MayRename p observed names
  unfolding decide decide_member
  decide-rename p observed names h = record {
    joined_it = ground arith;
    same_one = ground arith;
    has_name = ground arith;
    other_name = ground arith;
    not_pending = ground arith;
    credential = ground arith;
  }

  act_calls :
      (p : Directory) (d : Action × Text)
      → ((act b p d).1 ≡ [])
        ⊎ ((d.0 ≡ join) × ((act b p d).1 ≡ tried_join p ∷ []))
        ⊎ ((d.0 ≡ rename) × ((act b p d).1 ≡ tried_rename p ∷ []))
  unfolding act attempt
  act_calls p (stay, why) = inl refl
  act_calls p (refuse, why) = inl refl
  act_calls p (renamed, why) = inl refl
  act_calls p (join, why) = ground arith
  act_calls p (rename, why) = ground arith

  -- A convergence makes one call of the backend at most. It joins only a machine that is in no domain,
  -- and renames only a member of the domain that is wanted, under a name that is neither its own nor
  -- pending; both only with a credential.
  pub converge_calls :
      (p : Directory) (observed : Membership) (names : Names)
      → let calls = (converge b p observed names).1 in
        (calls ≡ [])
        ⊎ ((calls ≡ tried_join p ∷ []) × MayJoin p observed)
        ⊎ ((calls ≡ tried_rename p ∷ []) × MayRename p observed names)
  unfolding converge
  converge_calls p observed names = elim (act_calls p (decide b p observed names)) [
    | inl e ↦ inl e
    | inr (inl (d, e)) ↦ inr (inl (e, decide-join p observed names d))
    | inr (inr (d, e)) ↦ inr (inr (e, decide-rename p observed names d))
  ]
