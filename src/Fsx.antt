-- ===== src/Fsx.antt =====
-- internal/fsx/fsx.go: `WriteFileAtomic`, over a directory whose files are synced or not. The operating
-- system is a choice of which operation fails. The name of the temporary file is a parameter, since its
-- end is random.
pub mod Atomic
mod Tests
use ferry_cli.Base.{
  ℕ, String, ◌==◌, Bool, true, false, ◌&&◌, ◌||◌, not, Option, none, some, List, [], ◌∷◌, ◌++◌,
  if◌then◌else◌, is_some, lookup,
}
use ferry_cli.Api.Target.{Bytes}

pub record File : Type 0 where
  pub content : Bytes
  pub synced : Bool

-- A directory: its files by name.
abbrev pub Files : Type 0
Files = List (String × File)

-- The file of that name is taken away.
unfoldable pub remove_file : String → Files → Files
remove_file name [] = []
remove_file name ((n, f) ∷ fs) =
    let rest = remove_file name fs in if n == name then rest else (n, f) ∷ rest

-- A file is created, or takes the place of another.
abbrev pub put_file : String → File → Files → Files
put_file name f fs = (name, f) ∷ remove_file name fs

-- The operations, as the log names them.
pub data FsOp : Type 0 where
  create write sync close rename sync_dir remove : FsOp

-- Which operations succeed, and how much of the data a failed write leaves in the file.
pub record Faults : Type 0 where
  pub succeeds : FsOp → Bool
  pub partial : Bytes

-- What a call leaves: the directory, the operation that failed, and the directories on the way, the
-- last one first.
pub record Written : Type 0 where
  pub files : Files
  pub error : Option FsOp
  pub passed : List Files

-- The deferred removal of the temporary file.
abbrev pub cleaned : Faults → String → FsOp → Files → List Files → Written
cleaned w tmp why fs passed =
    if w.succeeds FsOp.remove
    then record { files = remove_file tmp fs; error = some why; passed = fs ∷ passed }
    else record { files = fs; error = some why; passed = passed }

-- The file of the first name, if there is one, takes the place of the second.
unfoldable pub renamed : String → String → Files → Files
unfolding remove_file
renamed tmp path fs = elim (lookup tmp fs) [
  | none ↦ fs
  | some f ↦ put_file path f (remove_file tmp fs)
]

-- The directory once the temporary file holds that much, synced or not.
abbrev pub with_temp : String → Bytes → Bool → Files → Files
with_temp tmp content synced fs = put_file tmp (record { content = content; synced = synced }) fs

-- From the rename on; `fs` is the directory with the closed temporary file.
abbrev pub rename_temp : Faults → String → String → Files → List Files → Written
rename_temp w path tmp fs passed =
    let moved = renamed tmp path fs in
    if not (w.succeeds FsOp.rename)
    then cleaned w tmp FsOp.rename fs passed
    else if not (w.succeeds FsOp.sync_dir)
    then cleaned w tmp FsOp.sync_dir moved (fs ∷ passed)
    else record { files = moved; error = none; passed = fs ∷ passed }

-- From the write on; `fs` is the directory before the temporary file was created.
abbrev pub fill_temp : Faults → String → String → Bytes → Files → Written
fill_temp w path tmp bytes fs =
    let empty = with_temp tmp [] false fs in
    let full = with_temp tmp bytes false empty in
    let synced = with_temp tmp bytes true full in
    if not (w.succeeds FsOp.write)
    then cleaned w tmp FsOp.write (with_temp tmp w.partial false empty) (empty ∷ fs ∷ [])
    else if not (w.succeeds FsOp.sync)
    then cleaned w tmp FsOp.sync full (empty ∷ fs ∷ [])
    else if not (w.succeeds FsOp.close)
    then cleaned w tmp FsOp.close synced (full ∷ empty ∷ fs ∷ [])
    else rename_temp w path tmp synced (full ∷ empty ∷ fs ∷ [])

-- `WriteFileAtomic`. The file is created exclusively: a name that is taken is an error.
unfoldable pub write_file_atomic : Faults → String → String → Bytes → Files → Written
unfolding remove_file
write_file_atomic w path tmp bytes fs =
    if not (w.succeeds FsOp.create) || is_some (lookup tmp fs)
    then record { files = fs; error = some FsOp.create; passed = [] }
    else fill_temp w path tmp bytes fs
