-- ===== src/Update/Run/Staging.antt =====
-- The bytes that the run stages.
use mathlib.Core.Path.{subst}
use fog_agent.Prelude.{
  ℕ, ◌≡◌, refl, ◌∙◌, ◌⊎◌, inl, inr, Bool-cases, false, Option, none, some, if◌then◌else◌, [],
  length, Text, ==_iff, arith,
}
use fog_agent.Prelude.Int.{ℤ, pos, leb_ℤ}
use fog_agent.Release
use fog_agent.Release.{Crypto, Artifact, Stream, Error, Result-cases, copy_verified}
use fog_agent.Release.Artifacts.{Digest, copy_verified_sound}
use fog_agent.Update.Files.{
  staged, File, main, Content, bytes, Disk, Faults, same_file, remove_other, store,
}
use fog_agent.Update.Run.Data.{
  Desired, Config, StageError, one, both, Staged, staged_as, not_staged,
}
use fog_agent.Update.Run.{stage, stage_alone, stage_twice, fetch_artifact}

staged_as_injective : {m n : ℕ} → staged_as m ≡ staged_as n → m ≡ n
staged_as_injective h = ground arith

module _ (c : Crypto) (faults : Faults) (d : Desired) (cfg : Config c) where
  -- The bytes are those that the artifact declares.
  pub record IsDeclared (a : Artifact) (held : Option Content) : Type 0 where
    pub body : Text
    pub holds : held ≡ some (bytes body)
    pub size : pos (length body) ≡ a.size
    pub digest : Digest c body a

  stage_other :
      (disk : Disk) (n : ℕ) (open_result : Release.Result Stream) (a : Artifact) (f : File)
      → same_file (main (staged n)) f ≡ false
      → (stage c faults d cfg disk n open_result a).0 f ≡ disk f
  unfolding stage
  stage_other disk n (Release.err e) a f h = ground (
    arith,
    remove_other faults (store disk (main (staged n)) (some (bytes []))) (main (staged n)) f,
  )
  stage_other disk n (Release.ok src) a f h =
      let disk1 = store disk (main (staged n)) (some (bytes [])) in
      let written = (copy_verified c cfg.room src a).0 in
      let disk2 = store disk1 (main (staged n)) (some (bytes written)) in
      ground (arith, remove_other faults disk2 (main (staged n)) f)

  stage_ok :
      (disk : Disk) (n : ℕ) (open_result : Release.Result Stream) (a : Artifact)
      → (stage c faults d cfg disk n open_result a).1 ≡ none
      → IsDeclared a ((stage c faults d cfg disk n open_result a).0 (main (staged n)))
  unfolding stage
  stage_ok disk n (Release.err e) a h = absurd (ground arith)
  stage_ok disk n (Release.ok src) a h =
      let copied : (copy_verified c cfg.room src a).1 ≡ none = ground arith in
      let (size, digest) = copy_verified_sound c cfg.room src a copied in
      record {
        body = (copy_verified c cfg.room src a).0;
        holds = ground (arith, ==_iff n n);
        size = size;
        digest = digest;
      }

  -- What fetching leaves: every file but the two temporary ones, and the declared bytes under the name
  -- that it answers with.
  pub record Fetched (disk disk' : Disk) (a : Artifact) (answer : Staged) : Type 0 where
    pub files :
        (f : File)
        → same_file (main (staged 0)) f ≡ false
        → same_file (main (staged 1)) f ≡ false
        → disk' f ≡ disk f
    pub declared : (n : ℕ) → answer ≡ staged_as n → IsDeclared a (disk' (main (staged n)))
    pub names : (n : ℕ) → answer ≡ staged_as n → (n ≡ 0) ⊎ (n ≡ 1)

  -- One staged file, or an error.
  answer-Fetched :
      (disk disk' : Disk) (a : Artifact) (n : ℕ)
      → ((f : File)
          → same_file (main (staged 0)) f ≡ false
          → same_file (main (staged 1)) f ≡ false
          → disk' f ≡ disk f)
      → (n ≡ 0) ⊎ (n ≡ 1)
      → IsDeclared a (disk' (main (staged n)))
      → Fetched disk disk' a (staged_as n)
  answer-Fetched disk disk' a n files name declared = record {
    files = files;
    declared =
        λ k h. subst (λ j. IsDeclared a (disk' (main (staged j)))) (staged_as_injective h) declared;
    names = λ k h. subst (λ j. (j ≡ 0) ⊎ (j ≡ 1)) (staged_as_injective h) name;
  }

  error-Fetched :
      (disk disk' : Disk) (a : Artifact) (e : StageError)
      → ((f : File)
          → same_file (main (staged 0)) f ≡ false
          → same_file (main (staged 1)) f ≡ false
          → disk' f ≡ disk f)
      → Fetched disk disk' a (not_staged e)
  error-Fetched disk disk' a e files = record {
    files = files;
    declared = λ k h. absurd (cc);
    names = λ k h. absurd (cc);
  }

  -- The files that fetching may not change are as they were.
  abbrev SameFiles : Disk → Disk → Type 0
  SameFiles disk disk' =
      (f : File)
      → same_file (main (staged 0)) f ≡ false
      → same_file (main (staged 1)) f ≡ false
      → disk' f ≡ disk f

  -- An answer of stage as fetchArtifact passes it on.
  end-Fetched :
      (disk disk' : Disk) (a : Artifact) (n : ℕ) (failure : Option Error)
      (wrap : Error → StageError)
      → SameFiles disk disk'
      → (n ≡ 0) ⊎ (n ≡ 1)
      → (failure ≡ none → IsDeclared a (disk' (main (staged n))))
      → Fetched disk disk' a (elim failure [ none ↦ staged_as n | some e ↦ not_staged (wrap e) ])
  end-Fetched disk disk' a n none wrap files name ok' =
      answer-Fetched disk disk' a n files name (ok' refl)
  end-Fetched disk disk' a n (some e) wrap files name ok' =
      error-Fetched disk disk' a (wrap e) files

  stage_alone-Fetched :
      (disk : Disk) (a : Artifact)
      → Fetched disk (stage_alone c faults d cfg disk a).0 a (stage_alone c faults d cfg disk a).1
  stage_alone-Fetched disk a =
      let source = cfg.fetch a.url in
      end-Fetched disk (stage c faults d cfg disk 0 source a).0 a 0
        (stage c faults d cfg disk 0 source a).1 one (λ f x y. stage_other disk 0 source a f x)
        (inl refl) (stage_ok disk 0 source a)

  -- The server's copy, then the origin's.
  twice-Fetched :
      (disk disk1 disk2 : Disk) (a : Artifact) (server origin : Option Error)
      → SameFiles disk disk1
      → SameFiles disk disk2
      → (server ≡ none → IsDeclared a (disk1 (main (staged 0))))
      → (origin ≡ none → IsDeclared a (disk2 (main (staged 1))))
      → let end : Disk × Staged = elim server [
        | none ↦ (disk1, staged_as 0)
        | some e ↦ (disk2, elim origin [ none ↦ staged_as 1 | some e' ↦ not_staged (both e e') ])
      ] in
        Fetched disk end.0 a end.1
  twice-Fetched disk disk1 disk2 a none origin first second ok1 ok2 =
      answer-Fetched disk disk1 a 0 first (inl refl) (ok1 refl)
  twice-Fetched disk disk1 disk2 a (some e) origin first second ok1 ok2 =
      end-Fetched disk disk2 a 1 origin (both e) second (inr refl) ok2

  stage_twice-Fetched :
      (disk : Disk) (a : Artifact) (served : Stream)
      → Fetched disk
          (stage_twice c faults d cfg disk a served).0
          a
          (stage_twice c faults d cfg disk a served).1
  stage_twice-Fetched disk a served =
      let (disk1, server) = stage c faults d cfg disk 0 (Release.ok served) a in
      let source = cfg.fetch a.url in
      let (disk2, origin) = stage c faults d cfg disk1 1 source a in
      twice-Fetched disk disk1 disk2 a server origin
        (λ f x y. stage_other disk 0 (Release.ok served) a f x)
        (λ f x y. stage_other disk1 1 source a f y ∙ stage_other disk 0 (Release.ok served) a f x)
        (stage_ok disk 0 (Release.ok served) a) (stage_ok disk1 1 source a)

  choice-Fetched :
      (disk : Disk) (a : Artifact) (payload : Option (ℤ → Stream))
      → let end : Disk × Staged = elim payload [
        | none ↦ stage_alone c faults d cfg disk a
        | some fetch ↦
            if leb_ℤ d.artifact (pos 0)
            then stage_alone c faults d cfg disk a
            else stage_twice c faults d cfg disk a (fetch d.artifact)
      ] in
        Fetched disk end.0 a end.1
  choice-Fetched disk a none = stage_alone-Fetched disk a
  choice-Fetched disk a (some fetch) = elim (Bool-cases (leb_ℤ d.artifact (pos 0))) [
    | inl t ↦ rw t (stage_alone-Fetched disk a)
    | inr t ↦ rw t (stage_twice-Fetched disk a (fetch d.artifact))
  ]

  -- Fetching changes no file but the two temporary ones, and what it answers with holds the bytes that
  -- the artifact declares.
  pub fetch_artifact-Fetched :
      (disk : Disk) (a : Artifact)
      → Fetched disk
          (fetch_artifact c faults d cfg disk a).0
          a
          (fetch_artifact c faults d cfg disk a).1
  unfolding fetch_artifact
  fetch_artifact-Fetched disk a = choice-Fetched disk a cfg.payload
