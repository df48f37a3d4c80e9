-- ===== src/Runs/Create.antt =====
-- internal/runs/ledger.go: what a new record must be, and the checks of a record that is read.
pub mod Reads
pub mod First
use ferry_cli.Base.{
  ℕ, String, ◌==◌, Bool, true, false, ◌&&◌, ◌||◌, not, Option, none, some, List, [], ◌∷◌, ltb,
  if◌then◌else◌, is_some, contains, eqb,
}
use ferry_cli.Api.Target.{Bytes}
use ferry_cli.Runs.Step.{State, Step, Run, valid_key, check_body}
use ferry_cli.Runs.Ledger.{Env, Handle}

pub data CreateError : Type 0 where
  bad_run_id no_steps duplicate_step invalid_key shared_key not_new body_not_utf8 : CreateError

-- A step's state, where the empty one reads as not started.
abbrev pub new_state : State → State
new_state (State.other s) = if s == "" then State.not_started else State.other s
new_state s = s

abbrev is_not_started : State → Bool
is_not_started State.not_started = true
is_not_started _ = false

abbrev pub digest_if_none : Option String → String → Option String
digest_if_none none d = some d
digest_if_none (some x) d = some x

-- The digest of a body that has none yet.
abbrev pub with_digest : (Bytes → String) → Step → Option Bytes → Step
with_digest sha256 s none = s
with_digest sha256 s (some b) = record s { body_sha256 = digest_if_none s.body_sha256 (sha256 b) }

abbrev bad_body : Option Bytes → Bool
bad_body none = false
bad_body (some b) = not (check_body b)

-- What the checks make of one step: an error, or the step that they leave.
pub data NewStep : Type 0 where
  bad_step : CreateError → NewStep
  good_step : Step → NewStep

unfoldable pub validate_step : (Bytes → String) → List String → List String → Step → NewStep
validate_step sha256 names keys s =
    if contains s.name names
    then bad_step CreateError.duplicate_step
    else if not (valid_key s.idempotency_key)
    then bad_step CreateError.invalid_key
    else if contains s.idempotency_key keys
    then bad_step CreateError.shared_key
    else if not (is_not_started (new_state s.state))
    then bad_step CreateError.not_new
    else if bad_body s.body
    then bad_step CreateError.body_not_utf8
    else good_step (with_digest sha256 (record s { state = new_state s.state }) s.body)

-- What the checks make of a run.
pub data Validated (A : Type 0) : Type 0 where
  invalid : CreateError → Validated A
  valid : A → Validated A

abbrev pub and_steps : NewStep → Validated (List Step) → Validated (List Step)
and_steps (bad_step why) rest = invalid why
and_steps (good_step t) (invalid why) = invalid why
and_steps (good_step t) (valid ts) = valid (t ∷ ts)

-- The loop of `validateNew`, with the names and the keys that it has seen.
unfoldable pub validate_steps :
    (Bytes → String) → List String → List String → List Step → Validated (List Step)
validate_steps sha256 names keys [] = valid []
validate_steps sha256 names keys (s ∷ ss) =
    and_steps (validate_step sha256 names keys s)
      (validate_steps sha256 (s.name ∷ names) (s.idempotency_key ∷ keys) ss)

abbrev is_empty_list : List Step → Bool
is_empty_list [] = true
is_empty_list _ = false

abbrev pub with_steps : Run → Validated (List Step) → Validated Run
with_steps run (invalid why) = invalid why
with_steps run (valid ss) = valid (record run { steps = ss })

-- `validateNew`; `valid_id` is `ulid.Valid`.
unfoldable pub validate_new : (Bytes → String) → (String → Bool) → Run → Validated Run
validate_new sha256 valid_id run =
    if not (valid_id run.run_id)
    then invalid CreateError.bad_run_id
    else if is_empty_list run.steps
    then invalid CreateError.no_steps
    else with_steps run (validate_steps sha256 [] [] run.steps)

abbrev pub record_schema : ℕ
record_schema = 2

-- `Create` from the checks on, where no record has this id and the lock is free: the handle once the
-- first write has landed. `now` is the ledger's clock.
abbrev pub stamped : ℕ → Run → Run
stamped now run = record run {
  schema = if eqb run.schema 0 then record_schema else run.schema;
  created_at = elim run.created_at [ none ↦ some now | some t ↦ some t ];
}

abbrev pub opened : Run → Handle
opened run = record { run = run; disk = run; closed = false }

abbrev created : ℕ → Validated Run → Validated Handle
created now (invalid why) = invalid why
created now (valid run) = valid (opened (stamped now run))

unfoldable pub create_run : Env → (String → Bool) → Run → Validated Handle
create_run env valid_id run = created env.now (validate_new env.sha256 valid_id run)

-- One step of `verifyDigests`.
abbrev pub digest_holds : (Bytes → String) → Option Bytes → Option String → Bool
digest_holds sha256 none none = true
digest_holds sha256 none (some d) = false
digest_holds sha256 (some b) none = false
digest_holds sha256 (some b) (some d) = sha256 b == d

-- `verifyDigests`.
unfoldable pub verify_digests : (Bytes → String) → List Step → Bool
verify_digests sha256 [] = true
verify_digests sha256 (s ∷ ss) =
    digest_holds sha256 s.body s.body_sha256 && verify_digests sha256 ss

pub data ReadError : Type 0 where
  corrupt unsupported_schema : ReadError

-- `decode`, from what `json.Unmarshal` reads, or nothing.
unfoldable pub decode_record :
    (Bytes → String) → String → Option Run → Option ReadError × Option Run
decode_record sha256 id none = (some ReadError.corrupt, none)
decode_record sha256 id (some run) =
    if ltb record_schema run.schema
    then (some ReadError.unsupported_schema, none)
    else if not (run.run_id == id)
    then (some ReadError.corrupt, none)
    else if not (verify_digests sha256 run.steps)
    then (some ReadError.corrupt, none)
    else (none, some run)
