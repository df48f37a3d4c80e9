-- ===== src/Runs/Create/Reads.antt =====
-- What is created, and changed by any calls, is read back.
use ferry_cli.Base.{
  ℕ, String, eq_iff, ==_self, ◌≡◌, ◌≤◌, refl, Bool, true, Option, none, some, List, [], ◌∷◌, All,
  arith, Option-cases, inl, inr, if◌then◌else◌, subst, eqb,
}
use ferry_cli.Api.Target.{Bytes}
use ferry_cli.Runs.Step.{State, Step, Run, valid_key}
use ferry_cli.Runs.Ledger.{Env, Write, Handle, LedgerOp, calls}
use ferry_cli.Runs.Ledger.Guards.{AllSteps, calls-All}
use ferry_cli.Runs.Ledger.Digests.{HasDigest, change_of-HasDigest}
use ferry_cli.Runs.Ledger.Header.{HasHeader, calls-HasHeader}
use ferry_cli.Runs.Create.{
  NewStep, bad_step, good_step, validate_step, Validated, invalid, valid, and_steps, validate_steps,
  validate_new, with_steps, opened, stamped, created, create_run, verify_digests, digest_holds,
  decode_record, record_schema, with_digest, new_state,
}

-- A step that was made without a digest.
abbrev pub IsUndigested : Step → Type 0
IsUndigested s = s.body_sha256 ≡ none

-- A step that a new record may hold.
pub record IsNew (sha256 : Bytes → String) (s : Step) : Type 0 where
  pub not_started : s.state ≡ State.not_started
  pub key_valid : valid_key s.idempotency_key ≡ true
  pub digested : HasDigest sha256 s

with_digest-HasDigest :
    (sha256 : Bytes → String) (s : Step) (o : Option Bytes)
    → s.body ≡ o
    → s.body_sha256 ≡ none
    → HasDigest sha256 (with_digest sha256 s o)
with_digest-HasDigest sha256 s none e u = ground arith
with_digest-HasDigest sha256 s (some b) e u = ground arith

validate_step-IsNew :
    (sha256 : Bytes → String) (names keys : List String) (s t : Step)
    → validate_step sha256 names keys s ≡ good_step t
    → IsUndigested s
    → IsNew sha256 t
unfolding validate_step
validate_step-IsNew sha256 names keys s t e u = record {
  not_started = ground arith;
  key_valid = ground arith;
  digested =
      let is : with_digest sha256 (record s { state = new_state s.state }) s.body ≡ t =
        ground arith in
      subst (HasDigest sha256) is (with_digest-HasDigest sha256 _ s.body refl u);
}

holds :
    (sha256 : Bytes → String) (s : Step)
    → HasDigest sha256 s
    → digest_holds sha256 s.body s.body_sha256 ≡ true
holds sha256 s h = elim (Option-cases s.body) [
  | inl e ↦ ground arith
  | inr (b, e) ↦ ground (arith, ==_self (sha256 b))
]

verify_digests-All :
    (sha256 : Bytes → String) (ss : List Step)
    → All (HasDigest sha256) ss
    → verify_digests sha256 ss ≡ true
unfolding verify_digests
verify_digests-All sha256 [] a = refl
verify_digests-All sha256 (s ∷ ss) (h, a) =
    ground (arith, verify_digests-All sha256 ss a, holds sha256 s h)

nil_valid : (ts : List Step) → valid [] ≡ valid ts → [] ≡ ts
nil_valid ts e = ground arith

pub and_steps-valid :
    (a : NewStep) (r : Validated (List Step)) (ts : List Step)
    → and_steps a r ≡ valid ts
    → (t : Step) × (rest : List Step) × (a ≡ good_step t) × (r ≡ valid rest) × (t ∷ rest ≡ ts)
and_steps-valid (bad_step why) r ts e = absurd (ground arith)
and_steps-valid (good_step t) (invalid why) ts e = absurd (ground arith)
and_steps-valid (good_step t) (valid rest) ts e = (t, rest, refl, refl, ground arith)

validate_steps-IsNew :
    (sha256 : Bytes → String) (names keys : List String) (ss ts : List Step)
    → validate_steps sha256 names keys ss ≡ valid ts
    → All IsUndigested ss
    → All (IsNew sha256) ts
unfolding validate_steps
validate_steps-IsNew sha256 names keys [] ts e u = subst (All (IsNew sha256)) (nil_valid ts e) tt
validate_steps-IsNew sha256 names keys (s ∷ ss) ts e (u, us) =
    let (t, rest, a, r, is) = and_steps-valid _ _ ts e in
    subst (All (IsNew sha256)) is (
      validate_step-IsNew sha256 names keys s t a u,
      validate_steps-IsNew sha256 (s.name ∷ names) (s.idempotency_key ∷ keys) ss rest r us,
    )

pub with_steps-valid :
    (run made : Run) (r : Validated (List Step))
    → with_steps run r ≡ valid made
    → (ss : List Step) × (r ≡ valid ss) × (record run { steps = ss } ≡ made)
with_steps-valid run made (invalid why) e = absurd (ground arith)
with_steps-valid run made (valid ss) e = (ss, refl, ground arith)

pub validate_new-steps :
    (sha256 : Bytes → String) (valid_id : String → Bool) (run made : Run)
    → validate_new sha256 valid_id run ≡ valid made
    → with_steps run (validate_steps sha256 [] [] run.steps) ≡ valid made
unfolding validate_new
validate_new-steps sha256 valid_id run made e = ground arith

pub created-valid :
    (now : ℕ) (v : Validated Run) (h : Handle)
    → created now v ≡ valid h
    → (made : Run) × (v ≡ valid made) × (opened (stamped now made) ≡ h)
created-valid now (invalid why) h e = absurd (ground arith)
created-valid now (valid made) h e = (made, refl, ground arith)

-- What `Create` leaves: a run of new steps with their digests, under its id, with this schema.
record IsCreated (env : Env) (id : String) (schema : ℕ) (h : Handle) : Type 0 where
  steps_new : AllSteps (IsNew env.sha256) h
  header : HasHeader id schema h

abbrev schema_of : Run → ℕ
schema_of run = if eqb run.schema 0 then record_schema else run.schema

create_run-IsCreated :
    (env : Env) (valid_id : String → Bool) (run : Run) (h : Handle)
    → create_run env valid_id run ≡ valid h
    → All IsUndigested run.steps
    → IsCreated env run.run_id (schema_of run) h
unfolding create_run
create_run-IsCreated env valid_id run h e u =
    let (made, v, is) = created-valid env.now _ h e in
    let (ss, r, same) =
      with_steps-valid run made _ (validate_new-steps env.sha256 valid_id run made v) in
    let new = validate_steps-IsNew env.sha256 [] [] run.steps ss r u in
    subst (IsCreated env run.run_id (schema_of run)) is (
      subst (λ m. IsCreated env run.run_id (schema_of run) (opened (stamped env.now m))) same
        (record {
          steps_new = (new, new);
          header = record { run_id = refl; disk_id = refl; run_schema = refl; disk_schema = refl };
        }))

All-digested :
    (sha256 : Bytes → String) (ss : List Step) → All (IsNew sha256) ss → All (HasDigest sha256) ss
All-digested sha256 [] a = tt
All-digested sha256 (s ∷ ss) (n, a) = (n.digested, All-digested sha256 ss a)

digested_handle :
    (env : Env) (h : Handle) → AllSteps (IsNew env.sha256) h → AllSteps (HasDigest env.sha256) h
digested_handle env h (a, d) = (All-digested env.sha256 _ a, All-digested env.sha256 _ d)

decode_ok :
    (sha256 : Bytes → String) (id : String) (r : Run)
    → r.schema ≤ record_schema
    → r.run_id ≡ id
    → verify_digests sha256 r.steps ≡ true
    → decode_record sha256 id (some r) ≡ (none, some r)
unfolding decode_record
decode_ok sha256 id r s e v = ground (arith, eq_iff r.run_id id)

-- A run that `Create` accepts, made without digests and under a schema that the program knows, is
-- read back: whatever is called and whatever the writes do, the record on disk passes the checks of
-- `Open` (schema, id, and the digest of every body) under the run's id.
pub create_run-decode_record :
    (env : Env) (valid_id : String → Bool) (run : Run) (h : Handle)
    (ops : List (String × LedgerOp × Write))
    → create_run env valid_id run ≡ valid h
    → All IsUndigested run.steps
    → run.schema ≤ record_schema
    → decode_record env.sha256 run.run_id (some (calls env h ops).disk)
      ≡ (none, some (calls env h ops).disk)
create_run-decode_record env valid_id run h ops e u known =
    let c = create_run-IsCreated env valid_id run h e u in
    let head = calls-HasHeader run.run_id (schema_of run) env h ops c.header in
    let dig =
      calls-All (HasDigest env.sha256) env (change_of-HasDigest env) h ops
        (digested_handle env h c.steps_new) in
    decode_ok env.sha256 run.run_id _ (ground (arith, head.disk_schema)) head.disk_id
      (verify_digests-All env.sha256 _ dig.1)

-- What `Create` accepts, made without digests, has steps that are not started, each with a key that
-- the server takes and the digest of its body, and it is on disk as it is in memory.
pub create_run-IsNew :
    (env : Env) (valid_id : String → Bool) (run : Run) (h : Handle)
    → create_run env valid_id run ≡ valid h
    → All IsUndigested run.steps
    → All (IsNew env.sha256) h.disk.steps
create_run-IsNew env valid_id run h e u = (create_run-IsCreated env valid_id run h e u).steps_new.1
