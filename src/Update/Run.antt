-- ===== src/Update/Run.antt =====
-- internal/provider/update/update.go and served.go: from the version that the server names to the
-- replaced binary.
pub mod Data
pub mod Accepting
pub mod Staging
pub mod Restart
use fog_agent.Prelude.{
  ℕ, ◌+◌, ◌≡◌, Bool, true, false, not, ◌&&◌, ◌||◌, Option, none, some, [], List, ◌==◌, ltb, leb,
  if◌then◌else◌, length, ◌++◌, Text, text, ◌=ᵗ◌, Time,
}
use fog_agent.Prelude.Int.{ℤ, pos, negsuc, ltb_ℤ, leb_ℤ, ◌=ℤ◌}
use fog_agent.Release
use fog_agent.Release.{
  Crypto, Manifest, Artifact, Stream, Error, hash, stale, signature, io, read_limited, verify,
  fresh, find, copy_verified,
}
use fog_agent.Update.Files.{
  Name, staged, main, exe, Probation, Content, bytes, Disk, Failure, Faults, creating, closing,
  changing_mode, remove, store,
}
use fog_agent.Update.Records.{load_sequence, save_sequence, clear_probation, arm, swap}
use fog_agent.Version
use fog_agent.Version.{valid}
use fog_agent.Update.Run.Data.{
  bad_version, no_signing_root, below_floor, bad_signature, stale_manifest, no_artifact,
  hash_mismatch, Desired, Code, Cause, Detail, Report, max_manifest, Accepted, StageError, Staged,
  is_hash, reason_for, artifact_failure, Config, cannot_arm, fetch_failed, swap_failed, quoted,
  below, no_root, no_url, envelope_unreadable, expired, untrusted, both_hash, served_hash,
  unverified, replayed, recording, arming, swapping, missing, of_manifest, of_signature,
  of_artifact, of_both, of_copies, already, deferred, failed, applied, entry, rejected, one, both,
  staged_as, not_staged,
}

-- inline: the pair that the server sent, if it is usable.
unfoldable pub inline : Crypto → Desired → Option (Text × Text)
inline c d =
    if d.manifest =ᵗ [] || d.signature =ᵗ [] then none else elim (c.base64_decode d.manifest) [
      | none ↦ none
      | some m ↦ if ltb max_manifest (length m) then none else elim (c.base64_decode d.signature) [
        | none ↦ none
        | some e ↦ if ltb max_manifest (length e) then none else some (m, e)
      ]
    ]

module _ (c : Crypto) (faults : Faults) (d : Desired) (cfg : Config c) where
  -- fetchLimited
  unfoldable pub fetch_limited : Text → Release.Result Text
  fetch_limited url = elim (cfg.fetch url) [
    | Release.err e ↦ Release.err e
    | Release.ok src ↦
        let (b, failure) = read_limited (max_manifest + 1) src in
        elim failure [
          | some e ↦ Release.err (io e)
          | none ↦
              if ltb max_manifest (length b)
              then Release.err (io (text "larger than 1048576 bytes"))
              else Release.ok b
        ]
  ]

  -- accept, from a manifest that verified on.
  unfoldable pub accept_verified : Disk → Manifest → Disk × Accepted
  accept_verified disk m =
      let seen = (load_sequence faults disk).0 in
      let (disk', saved) = save_sequence faults disk m.sequence in
      elim (fresh m seen) [
        | Release.err e ↦ (
          disk,
          rejected (record { code = stale_manifest; cause = replayed m.sequence seen }) true,
        )
        | Release.ok u ↦ elim saved [
          | some e ↦ (disk', rejected (record { code = cannot_arm; cause = recording e }) false)
          | none ↦ elim (find m d.version cfg.goos cfg.goarch) [
            | Release.err e ↦ (
              disk',
              rejected
                  (record { code = no_artifact; cause = missing d.version cfg.goos cfg.goarch })
                  true,
            )
            | Release.ok a ↦ (disk', entry m a)
          ]
        ]
      ]

  -- accept
  unfoldable pub accept : Disk → Text → Text → Disk × Accepted
  accept disk body env_raw = elim (c.parse_envelope env_raw) [
    | none ↦ (disk, rejected (record { code = bad_signature; cause = envelope_unreadable }) true)
    | some env ↦ elim (verify c body (some env) cfg.roots cfg.now) [
      | Release.err e ↦ (disk, rejected (reason_for e) true)
      | Release.ok m ↦ accept_verified disk m
    ]
  ]

  -- fromURL
  unfoldable pub from_url : Disk → Text → Disk × Accepted
  from_url disk url = elim (fetch_limited url) [
    | Release.err e ↦ (disk, rejected (record { code = fetch_failed; cause = of_manifest e }) true)
    | Release.ok body ↦ elim (fetch_limited (url ++ text ".sig")) [
      | Release.err e ↦
          (disk, rejected (record { code = fetch_failed; cause = of_signature e }) true)
      | Release.ok env_raw ↦ accept disk body env_raw
    ]
  ]

  -- The answer of manifestFor once the origin was asked too.
  abbrev pub after_origin : Detail → Disk × Accepted → Disk × Accepted
  after_origin served (disk, entry m a) = (disk, entry m a)
  after_origin served (disk, rejected origin refused) = (
    disk,
    rejected
        (record {
          code = origin.code;
          cause = of_copies served.code served.cause origin.code origin.cause;
        })
        refused,
  )

  abbrev pub url_of : Text
  url_of = if d.manifest_url =ᵗ [] then cfg.default_manifest_url else d.manifest_url

  -- manifestFor
  unfoldable pub manifest_for : Disk → Disk × Accepted
  manifest_for disk = elim (inline c d) [
    | none ↦
        if url_of =ᵗ []
        then (disk, rejected (record { code = no_artifact; cause = no_url }) false)
        else from_url disk url_of
    | some (body, env_raw) ↦
        let (disk', answer) = accept disk body env_raw in
        elim answer [
          | entry m a ↦ (disk', entry m a)
          | rejected served refused ↦
              if not refused || url_of =ᵗ []
              then (disk', rejected served refused)
              else after_origin served (from_url disk' url_of)
        ]
  ]

  -- stage, with the stream that `open` gives, into the n-th temporary file
  unfoldable pub stage : Disk → ℕ → Release.Result Stream → Artifact → Disk × Option Error
  stage disk n open_result a =
      let disk1 = store disk (main (staged n)) (some (bytes [])) in
      if faults (creating n) then (disk, some (io (text "create"))) else elim open_result [
        | Release.err e ↦ ((remove faults disk1 (main (staged n))).0, some e)
        | Release.ok src ↦
            let (written, failure) = copy_verified c cfg.room src a in
            let disk2 = store disk1 (main (staged n)) (some (bytes written)) in
            let gone = (remove faults disk2 (main (staged n))).0 in
            elim failure [
              | some e ↦ (gone, some e)
              | none ↦
                  if faults (closing (main (staged n)))
                  then (gone, some (io (text "close")))
                  else if faults (changing_mode (main (staged n)))
                  then (gone, some (io (text "chmod")))
                  else (disk2, none)
            ]
      ]

  abbrev pub stage_alone : Disk → Artifact → Disk × Staged
  stage_alone disk a =
      let (disk', failure) = stage disk 0 (cfg.fetch a.url) a in
      (disk', elim failure [ none ↦ staged_as 0 | some e ↦ not_staged (one e) ])

  abbrev pub stage_twice : Disk → Artifact → Stream → Disk × Staged
  stage_twice disk a served =
      let (disk1, server) = stage disk 0 (Release.ok served) a in
      let (disk2, origin) = stage disk1 1 (cfg.fetch a.url) a in
      elim server [
        | none ↦ (disk1, staged_as 0)
        | some e ↦ (disk2, elim origin [ none ↦ staged_as 1 | some e' ↦ not_staged (both e e') ])
      ]

  -- fetchArtifact
  unfoldable pub fetch_artifact : Disk → Artifact → Disk × Staged
  fetch_artifact disk a = elim cfg.payload [
    | none ↦ stage_alone disk a
    | some fetch ↦
        if leb_ℤ d.artifact (pos 0)
        then stage_alone disk a
        else stage_twice disk a (fetch d.artifact)
  ]

  abbrev pub record_of : Manifest → Probation
  record_of m = record {
    from = cfg.current;
    to = d.version;
    sequence = m.sequence;
    deadline = cfg.now + cfg.probation;
  }

  -- Run, from the staged binary on, with the deferred removal of the staged file.
  unfoldable pub replace : Disk → Manifest → ℕ → Disk × Report × Bool
  replace disk m n =
      let (disk1, armed) = arm faults disk (record_of m) in
      let (disk2, swapped) = swap faults disk1 (staged n) in
      elim armed [
        | some e ↦ (
          (remove faults disk1 (main (staged n))).0,
          failed (record { code = cannot_arm; cause = arming e }),
          false,
        )
        | none ↦ elim swapped [
          | some e ↦ (
            (remove faults (clear_probation faults disk2).0 (main (staged n))).0,
            failed (record { code = swap_failed; cause = swapping e }),
            false,
          )
          | none ↦ ((remove faults disk2 (main (staged n))).0, applied cfg.current d.version, true)
        ]
      ]

  -- Run, from the manifest on.
  unfoldable pub obtain : Disk → Disk × Report × Bool
  obtain disk =
      let (disk1, answer) = manifest_for disk in
      elim answer [
        | rejected detail refused ↦ (disk1, failed detail, false)
        | entry m a ↦
            let (disk2, file) = fetch_artifact disk1 a in
            elim file [
              | not_staged e ↦ (disk2, failed (artifact_failure e), false)
              | staged_as n ↦ replace disk2 m n
            ]
      ]

  -- The checks that come before the manifest: what ends the run, if one does.
  unfoldable pub refusal : Option Report
  refusal =
      if not (valid d.version)
      then some (failed (record { code = bad_version; cause = quoted d.version }))
      else if Version.compare cfg.current d.version =ℤ pos 0
      then some (already cfg.current)
      else if Version.compare cfg.current d.version =ℤ pos 1
          && (not (cfg.min_downgrade =ᵗ [])
              && ltb_ℤ (Version.compare d.version cfg.min_downgrade) (pos 0))
      then some (failed (record { code = below_floor; cause = below d.version cfg.min_downgrade }))
      else if cfg.root_count == 0
      then some (failed (record { code = no_signing_root; cause = no_root }))
      else elim cfg.busy [ some what ↦ some (deferred what) | none ↦ none ]

  -- Run: the disk, the result to report, and whether to restart.
  unfoldable pub run : Disk → Disk × Report × Bool
  run disk = elim refusal [ some r ↦ (disk, r, false) | none ↦ obtain disk ]
