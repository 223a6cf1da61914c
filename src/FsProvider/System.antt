-- ===== src/FsProvider/System.antt =====
-- What the provider uses of the operating system and of llmtools-go. Both are arguments of the model.
use agentskills_go.Base.{ℕ, Bytes, Bool, List, Option}
use agentskills_go.Spec.{Result, RunScriptOut}

-- the kind of file that `os.Lstat` finds
pub data FileKind : Type 0 where
  symlink regular other_file : FileKind

pub data EntryInfo : Type 0 where
  found : Bool → EntryInfo
  failed : Bytes → EntryInfo

-- What `fs.DirEntry` tells: `info` is whether `Info` finds a regular file, or its error.
pub record DirEntry : Type 0 where
  pub is_symlink : Bool
  pub is_dir : Bool
  pub info : EntryInfo

-- A call that `filepath.WalkDir` makes of its callback. `none` is a nil entry and no error.
pub record WalkCall : Type 0 where
  pub path : Bytes
  pub entry : Option DirEntry
  pub walk_err : Option Bytes

-- `none` is an error. `walk` lists the calls for a callback that skips the directories it is told to be
-- unreadable; `read_limited` is `io.ReadAll` of `io.LimitReader` on the opened file.
pub record FileSystem : Type 0 where
  pub is_windows : Bool
  pub clean : Bytes → Bytes
  pub has_volume : Bytes → Bool
  pub is_abs : Bytes → Bool
  pub absolute : Bytes → Option Bytes
  pub eval_symlinks : Bytes → Option Bytes
  pub stat_is_dir : Bytes → Option Bool
  pub lstat : Bytes → Option FileKind
  pub read_limited : ℕ → Bytes → Option Bytes
  pub join : Bytes → Bytes → Bytes
  pub base : Bytes → Bytes
  pub rel : Bytes → Bytes → Option Bytes
  pub to_slash : Bytes → Bytes
  pub walk : Bytes → List WalkCall

-- `fstool` and `exectool`. The tools are made for one root, which is their only allowed root and their
-- working directory. A nil result of the script tool is `none`.
pub record Tools (Policy Exec Out : Type 0) : Type 0 where
  pub to_lower : Bytes → Bytes
  pub default_execution_policy : Exec
  pub default_run_script_policy : Policy
  pub normalize_policy : Policy → Result Policy
  pub allowed_extensions : Policy → List Bytes
  pub set_allowed_extensions : List Bytes → Policy → Policy
  pub read_file : Bytes → Bytes → Bytes → Result Out
  pub run_script :
      Exec
      → Policy
      → Bytes
      → Bytes
      → List Bytes
      → List (Bytes × Bytes)
      → Bytes
      → Result (Option RunScriptOut)
