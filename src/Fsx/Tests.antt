-- ===== src/Fsx/Tests.antt =====
-- A run with a failing rename, and the property at a concrete input.
use ferry_cli.Base.{String, ◌≡◌, ◌≢◌, refl, Bool, true, false, some, [], ◌∷◌, arith, eq_iff, lookup}
use ferry_cli.Fsx.{Files, FsOp, Faults, write_file_atomic}
use ferry_cli.Fsx.Atomic.{IsAtomic, write_file_atomic-IsAtomic}

abbrev all_but : FsOp → Bool
all_but FsOp.rename = false
all_but _ = true

abbrev faults : Faults
faults = record { succeeds = all_but; partial = 1 ∷ [] }

abbrev directory : Files
directory = ("01.json", record { content = 7 ∷ []; synced = true }) ∷ []

write_fails :
    (write_file_atomic faults "01.json" ".01.json.tmp" (8 ∷ 9 ∷ []) directory).error
    ≡ some FsOp.rename
unfolding write_file_atomic lookup
write_fails = refl

names_differ : ◌≢◌ {A = String} "01.json" ".01.json.tmp"
names_differ e = ground (arith, eq_iff "01.json" ".01.json.tmp")

write_file_atomic-IsAtomic_example :
    IsAtomic faults "01.json" ".01.json.tmp"
      (8 ∷ 9 ∷ [])
      directory
      (write_file_atomic faults "01.json" ".01.json.tmp" (8 ∷ 9 ∷ []) directory)
write_file_atomic-IsAtomic_example =
    write_file_atomic-IsAtomic faults "01.json" ".01.json.tmp" (8 ∷ 9 ∷ []) directory names_differ
