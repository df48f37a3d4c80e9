-- ===== src/Fsx/Atomic.antt =====
-- The file that is written is the old one or the new one, whole and synced, at every point.
use ferry_cli.Base.{
  String, eq_iff, ==_self, ◌≡◌, ◌≢◌, refl, Bool, true, false, ◌||◌, not, none, some, List, [], ◌∷◌,
  if◌then◌else◌, is_some, lookup, arith, All, Bool-cases, inl, inr, ◌⊎◌, ap, sym, ◌∙◌,
}
use ferry_cli.Api.Target.{Bytes}
use ferry_cli.Fsx.{
  File, Files, remove_file, put_file, FsOp, Faults, Written, cleaned, renamed, with_temp,
  rename_temp, fill_temp, write_file_atomic,
}

lookup-remove_file : (name : String) (fs : Files) → lookup name (remove_file name fs) ≡ none
unfolding lookup remove_file
lookup-remove_file name [] = refl
lookup-remove_file name ((n, f) ∷ fs) = ground (arith, lookup-remove_file name fs)

lookup-remove_other :
    (name p : String) (fs : Files) → p ≢ name → lookup p (remove_file name fs) ≡ lookup p fs
unfolding lookup remove_file
lookup-remove_other name p [] h = refl
lookup-remove_other name p ((n, f) ∷ fs) h =
    ground (arith, lookup-remove_other name p fs h, eq_iff n name, eq_iff n p)

lookup-put_file :
    (name : String) (f : File) (fs : Files) → lookup name (put_file name f fs) ≡ some f
unfolding lookup
lookup-put_file name f fs = ground (arith, ==_self name)

lookup-put_other :
    (name p : String) (f : File) (fs : Files)
    → p ≢ name
    → lookup p (put_file name f fs) ≡ lookup p fs
unfolding lookup
lookup-put_other name p f fs h = ground (arith, lookup-remove_other name p fs h, eq_iff name p)

-- A directory in which the file of that name is the old one, or the new one whole and synced.
abbrev pub IsWhole : String → Bytes → Files → Files → Type 0
IsWhole path bytes old fs =
    (lookup path fs ≡ lookup path old)
    ⊎ (lookup path fs ≡ some (record { content = bytes; synced = true }))

-- A directory in which no file has changed but for these two.
abbrev pub AreKept : String → String → Files → Files → Type 0
AreKept path tmp old fs = (p : String) → p ≢ path → p ≢ tmp → lookup p fs ≡ lookup p old

-- What a call makes of a directory `old`.
pub record IsAtomic (w : Faults) (path tmp : String) (bytes : Bytes) (old : Files) (r : Written)
    : Type 0 where
  pub on_success :
      r.error ≡ none
      → (lookup path r.files ≡ some (record { content = bytes; synced = true }))
        × (lookup tmp r.files ≡ none)
  pub on_sync_dir :
      r.error ≡ some FsOp.sync_dir
      → lookup path r.files ≡ some (record { content = bytes; synced = true })
  pub on_failure :
      (op : FsOp) → r.error ≡ some op → op ≢ FsOp.sync_dir → lookup path r.files ≡ lookup path old
  pub others : AreKept path tmp old r.files
  pub on_the_way : All (IsWhole path bytes old) r.passed
  pub cleaned_up :
      (op : FsOp)
      → r.error ≡ some op
      → op ≢ FsOp.create
      → w.succeeds FsOp.remove ≡ true
      → lookup tmp r.files ≡ none

module _ (w : Faults) (path tmp : String) (bytes : Bytes) (old : Files) (apart : path ≢ tmp) where
  pick :
      (b : Bool) (x y : Written)
      → IsAtomic w path tmp bytes old x
      → IsAtomic w path tmp bytes old y
      → IsAtomic w path tmp bytes old (if b then x else y)
  pick true x y a c = a
  pick false x y a c = c

  -- A failure before the rename.
  cleaned-IsAtomic :
      (why : FsOp) (fs : Files) (passed : List Files)
      → why ≢ FsOp.sync_dir
      → lookup path fs ≡ lookup path old
      → AreKept path tmp old fs
      → All (IsWhole path bytes old) passed
      → IsAtomic w path tmp bytes old (cleaned w tmp why fs passed)
  cleaned-IsAtomic why fs passed early same kept a = elim (Bool-cases (w.succeeds FsOp.remove)) [
    | inl e ↦ rw e (record {
      on_success = λ f. ground arith;
      on_sync_dir = λ f. ground arith;
      on_failure = λ op f g. ground (arith, lookup-remove_other tmp path fs apart);
      others = λ p n m. ground (arith, lookup-remove_other tmp p fs m, kept p n m);
      on_the_way = (inl same, a);
      cleaned_up = λ op f g h. lookup-remove_file tmp fs;
    })
    | inr e ↦ rw e (record {
      on_success = λ f. ground arith;
      on_sync_dir = λ f. ground arith;
      on_failure = λ op f g. same;
      others = kept;
      on_the_way = a;
      cleaned_up = λ op f g h. ground arith;
    })
  ]

  -- The temporary file holds the data, synced.
  abbrev IsFilled : Files → Type 0
  IsFilled fs = lookup tmp fs ≡ some (record { content = bytes; synced = true })

  moved :
      (fs : Files)
      → IsFilled fs
      → renamed tmp path fs
        ≡ put_file path (record { content = bytes; synced = true }) (remove_file tmp fs)
  unfolding renamed
  moved fs temp = rw (temp, renamed) refl

  moved_path :
      (fs : Files)
      → IsFilled fs
      → lookup path (renamed tmp path fs) ≡ some (record { content = bytes; synced = true })
  moved_path fs temp =
      ap (lookup path) (moved fs temp) ∙ lookup-put_file path _ (remove_file tmp fs)

  moved_temp : (fs : Files) → IsFilled fs → lookup tmp (renamed tmp path fs) ≡ none
  moved_temp fs temp =
      ap (lookup tmp) (moved fs temp)
      ∙ (lookup-put_other path tmp _ (remove_file tmp fs) (λ e. apart (sym e))
          ∙ lookup-remove_file tmp fs)

  moved_others :
      (fs : Files)
      → IsFilled fs
      → AreKept path tmp old fs
      → AreKept path tmp old (renamed tmp path fs)
  moved_others fs temp kept p n m =
      ap (lookup p) (moved fs temp)
      ∙ (lookup-put_other path p _ (remove_file tmp fs) n
          ∙ (lookup-remove_other tmp p fs m ∙ kept p n m))

  -- A failure of the last operation: the new file is in place.
  unsynced-IsAtomic :
      (fs : Files) (passed : List Files)
      → IsFilled fs
      → AreKept path tmp old fs
      → All (IsWhole path bytes old) passed
      → IsAtomic w path tmp bytes old (cleaned w tmp FsOp.sync_dir (renamed tmp path fs) passed)
  unsynced-IsAtomic fs passed temp kept a = elim (Bool-cases (w.succeeds FsOp.remove)) [
    | inl e ↦ rw e (record {
      on_success = λ f. ground arith;
      on_sync_dir =
          λ f. lookup-remove_other tmp path (renamed tmp path fs) apart ∙ moved_path fs temp;
      on_failure = λ op f g. ground arith;
      others = λ p n m.
          lookup-remove_other tmp p (renamed tmp path fs) m ∙ moved_others fs temp kept p n m;
      on_the_way = (inr (moved_path fs temp), a);
      cleaned_up = λ op f g h. lookup-remove_file tmp (renamed tmp path fs);
    })
    | inr e ↦ rw e (record {
      on_success = λ f. ground arith;
      on_sync_dir = λ f. moved_path fs temp;
      on_failure = λ op f g. ground arith;
      others = moved_others fs temp kept;
      on_the_way = a;
      cleaned_up = λ op f g h. ground arith;
    })
  ]

  rename_temp-IsAtomic :
      (fs : Files) (passed : List Files)
      → IsFilled fs
      → lookup path fs ≡ lookup path old
      → AreKept path tmp old fs
      → All (IsWhole path bytes old) passed
      → IsAtomic w path tmp bytes old (rename_temp w path tmp fs passed)
  rename_temp-IsAtomic fs passed temp same kept a =
      pick (not (w.succeeds FsOp.rename)) _ _
        (cleaned-IsAtomic FsOp.rename fs passed (λ e. ground arith) same kept a)
        (pick (not (w.succeeds FsOp.sync_dir)) _ _
          (unsynced-IsAtomic fs (fs ∷ passed) temp kept (inl same, a))
          (record {
            on_success = λ f. (moved_path fs temp, moved_temp fs temp);
            on_sync_dir = λ f. ground arith;
            on_failure = λ op f g. ground arith;
            others = moved_others fs temp kept;
            on_the_way = (inl same, a);
            cleaned_up = λ op f g h. ground arith;
          }))

  temp_path :
      (content : Bytes) (synced : Bool) (fs : Files)
      → lookup path fs ≡ lookup path old
      → lookup path (with_temp tmp content synced fs) ≡ lookup path old
  temp_path content synced fs same = lookup-put_other tmp path _ fs apart ∙ same

  temp_others :
      (content : Bytes) (synced : Bool) (fs : Files)
      → AreKept path tmp old fs
      → AreKept path tmp old (with_temp tmp content synced fs)
  temp_others content synced fs kept p n m = lookup-put_other tmp p _ fs m ∙ kept p n m

  fill_temp-IsAtomic : IsAtomic w path tmp bytes old (fill_temp w path tmp bytes old)
  fill_temp-IsAtomic =
      let empty = with_temp tmp [] false old in
      let full = with_temp tmp bytes false empty in
      let synced = with_temp tmp bytes true full in
      let short = with_temp tmp w.partial false empty in
      let at_empty = temp_path [] false old refl in
      let at_full = temp_path bytes false empty at_empty in
      let at_synced = temp_path bytes true full at_full in
      let by_empty = temp_others [] false old (λ p n m. refl) in
      let by_full = temp_others bytes false empty by_empty in
      let by_synced = temp_others bytes true full by_full in
      let way : All (IsWhole path bytes old) (empty ∷ old ∷ []) = (inl at_empty, (inl refl, tt)) in
      pick (not (w.succeeds FsOp.write)) _ _
        (cleaned-IsAtomic FsOp.write short _ (λ e. ground arith)
          (temp_path w.partial false empty at_empty) (temp_others w.partial false empty by_empty)
          way)
        (pick (not (w.succeeds FsOp.sync)) _ _
          (cleaned-IsAtomic FsOp.sync full _ (λ e. ground arith) at_full by_full way)
          (pick (not (w.succeeds FsOp.close)) _ _
            (cleaned-IsAtomic FsOp.close synced _ (λ e. ground arith) at_synced by_synced
              (inl at_full, way))
            (rename_temp-IsAtomic synced _ (lookup-put_file tmp _ full) at_synced by_synced
              (inl at_full, way))))

-- `WriteFileAtomic` on a path that is not its temporary file, whatever operation fails: without an
-- error the path holds the data, synced, and no temporary file is left; with an error of any
-- operation but the last sync the path holds what it held, and with an error of that sync the data. No
-- other file changes, the path holds the old file or the data, whole and synced, at every point
-- between, and the temporary file that was created is gone, if removing succeeds.
pub write_file_atomic-IsAtomic :
    (w : Faults) (path tmp : String) (bytes : Bytes) (old : Files)
    → path ≢ tmp
    → IsAtomic w path tmp bytes old (write_file_atomic w path tmp bytes old)
unfolding write_file_atomic
write_file_atomic-IsAtomic w path tmp bytes old apart =
    pick w path tmp bytes old apart (not (w.succeeds FsOp.create) || is_some (lookup tmp old)) _ _
      (record {
        on_success = λ f. ground arith;
        on_sync_dir = λ f. ground arith;
        on_failure = λ op f g. refl;
        others = λ p n m. refl;
        on_the_way = tt;
        cleaned_up = λ op f g h. ground arith;
      })
      (fill_temp-IsAtomic w path tmp bytes old apart)
