-- ===== src/Update/Files.antt =====
-- The files that the self-update touches, and the calls of the operating system that it makes of
-- them (copyFile and writeFileSync of internal/provider/update/probation.go). Any call may fail: which
-- ones do is a function of the call.
use fog_agent.Prelude.{
  ℕ, ◌≡◌, refl, Bool, true, false, Option, none, some, [], ◌==◌, ==_iff, if◌then◌else◌, Text, Time,
  arith,
}
use fog_agent.Prelude.Int.{ℤ}

-- cfg.ExePath with its suffixes, the files of cfg.StateDir, and the files that CreateTemp makes.
pub data Name : Type 0 where
  exe exe_prev exe_bad : Name
  config config_prev probation_file sequence_file reverted_file : Name
  staged : ℕ → Name

-- A name, or the name with ".tmp" behind it.
pub data File : Type 0 where
  main temp : Name → File

abbrev pub same_name : Name → Name → Bool
same_name exe exe = true
same_name exe_prev exe_prev = true
same_name exe_bad exe_bad = true
same_name config config = true
same_name config_prev config_prev = true
same_name probation_file probation_file = true
same_name sequence_file sequence_file = true
same_name reverted_file reverted_file = true
same_name (staged m) (staged n) = m == n
same_name m n = false

abbrev pub same_file : File → File → Bool
same_file (main m) (main n) = same_name m n
same_file (temp m) (temp n) = same_name m n
same_file f g = false

pub same_name_refl : (n : Name) → same_name n n ≡ true
same_name_refl exe = refl
same_name_refl exe_prev = refl
same_name_refl exe_bad = refl
same_name_refl config = refl
same_name_refl config_prev = refl
same_name_refl probation_file = refl
same_name_refl sequence_file = refl
same_name_refl reverted_file = refl
same_name_refl (staged n) = (==_iff n n).1 refl

pub record Probation : Type 0 where
  pub from : Text
  pub to : Text
  pub sequence : ℤ
  pub deadline : Time

pub record Reverted : Type 0 where
  pub from : Text
  pub to : Text
  pub at : Time
  pub reason : Text

-- What a file holds: bytes, or a JSON document that the agent wrote, as the value that it encodes.
pub data Content : Type 0 where
  bytes : Text → Content
  probation_json : Probation → Content
  sequence_json : ℤ → Content
  reverted_json : Reverted → Content

-- A file that is not there holds nothing.
abbrev pub Disk : Type 0
Disk = File → Option Content

abbrev pub store : Disk → File → Option Content → Disk
store d f o g = if same_file f g then o else d g

pub data Call : Type 0 where
  reading opening writing syncing closing removing statting changing_mode : File → Call
  renaming : File → File → Call
  creating : ℕ → Call

pub data Failure : Type 0 where
  not_exist : Failure
  refused : Call → Failure
  malformed : Failure
  -- fmt.Errorf with %w, one constructor for each message
  keeping_config restoring_config previous_gone moving_failed_aside restoring_binary :
      Failure → Failure
  moving_running_aside installing : Failure → Failure
  record_not_survived nothing_to_revert : Failure
  restoring_and_putting_back installing_and_putting_back : Failure → Failure → Failure

-- The calls that the operating system refuses.
abbrev pub Faults : Type 0
Faults = Call → Bool

-- errors.Is(err, os.ErrNotExist)
abbrev pub is_not_exist : Failure → Bool
is_not_exist not_exist = true
is_not_exist e = false

pub data Read : Type 0 where
  holds : Content → Read
  fails : Failure → Read

module _ (faults : Faults) where
  -- os.ReadFile, and os.Open with io.Copy
  unfoldable pub read_file : Disk → File → Read
  read_file d f =
      if faults (reading f)
      then fails (refused (reading f))
      else elim (d f) [ none ↦ fails not_exist | some c ↦ holds c ]

  -- os.Stat, as far as it errs.
  unfoldable pub stat : Disk → File → Option Failure
  stat d f =
      if faults (statting f)
      then some (refused (statting f))
      else elim (d f) [ none ↦ some not_exist | some c ↦ none ]

  -- os.Remove
  unfoldable pub remove : Disk → File → Disk × Option Failure
  remove d f =
      if faults (removing f)
      then (d, some (refused (removing f)))
      else elim (d f) [ none ↦ (d, some not_exist) | some c ↦ (store d f none, none) ]

  -- os.Rename: replaces what the second name held.
  unfoldable pub rename : Disk → File → File → Disk × Option Failure
  rename d f g = if faults (renaming f g) then (d, some (refused (renaming f g))) else elim (d f) [
    | none ↦ (d, some not_exist)
    | some c ↦ (store (store d f none) g (some c), none)
  ]

  -- writeFileSync: into the ".tmp" file, flushed and closed, then renamed over the name.
  unfoldable pub write_file_sync : Disk → Name → Content → Disk × Option Failure
  unfolding remove rename
  write_file_sync d n c =
      if faults (opening (temp n))
      then (d, some (refused (opening (temp n))))
      else if faults (writing (temp n))
      then (
        (remove (store d (temp n) (some (bytes []))) (temp n)).0,
        some (refused (writing (temp n))),
      )
      else if faults (syncing (temp n))
      then ((remove (store d (temp n) (some c)) (temp n)).0, some (refused (syncing (temp n))))
      else if faults (closing (temp n))
      then ((remove (store d (temp n) (some c)) (temp n)).0, some (refused (closing (temp n))))
      else rename (store d (temp n) (some c)) (temp n) (main n)

  -- copyFile
  unfoldable pub copy_file : Disk → Name → Name → Disk × Option Failure
  copy_file d src dst = elim (read_file d (main src)) [
    | fails e ↦ (d, some e)
    | holds c ↦ write_file_sync d dst c
  ]

  -- A write that fails leaves every file but the temporary one as it was; one that succeeds leaves
  -- the content under the name, and changes no third file.
  pub write_file_sync_atomic :
      (d : Disk) (n : Name) (c : Content) (f : File)
      → same_file (temp n) f ≡ false
      → (write_file_sync d n c).0 f ≡ elim (write_file_sync d n c).1 [
        | none ↦ if same_file (main n) f then some c else d f
        | some e ↦ d f
      ]
  unfolding write_file_sync
  write_file_sync_atomic d n c f h = ground (arith, same_name_refl n)

  pub rename_at :
      (d : Disk) (f g h : File)
      → (rename d f g).0 h ≡ elim (rename d f g).1 [
        | none ↦ if same_file g h then d f else if same_file f h then none else d h
        | some e ↦ d h
      ]
  unfolding rename
  rename_at d f g h = ground arith

  -- A removal changes no other file, whatever it answers.
  pub remove_other : (d : Disk) (f g : File) → same_file f g ≡ false → (remove d f).0 g ≡ d g
  unfolding remove
  remove_other d f g h = ground arith

  -- A write never reports a file that is not there.
  pub write_file_sync_exists :
      (d : Disk) (n : Name) (c : Content)
      → elim (write_file_sync d n c).1 [ none ↦ false | some e ↦ is_not_exist e ] ≡ false
  unfolding write_file_sync
  write_file_sync_exists d n c = ground (arith, same_name_refl n)
