-- ===== src/Runs/Ledger.antt =====
-- internal/runs/ledger.go: a run held under its lock, and the operations that change it. Every write of
-- the record replaces the whole file, as `fsx.WriteFileAtomic` does.
pub mod Guards
pub mod Sent
pub mod Digests
pub mod Tokens
pub mod Swept
pub mod Begins
pub mod Header
use ferry_cli.Base.{
  ℕ, ◌+◌, String, ◌==◌, Bool, true, false, ◌&&◌, not, Option, none, some, List, [], ◌∷◌,
  if◌then◌else◌, is_some,
}
use ferry_cli.Api.Target.{Bytes}
use ferry_cli.Runs.Step.{
  State, is_terminal, may_have_sent, Plan, Response, RunOutcome, resumable, Step, Run, find_step,
  scrub_step, check_body,
}

-- What the ledger uses of other code: SHA-256 in hex, the removal of plan tokens from a response, and
-- its clock.
pub record Env : Type 0 where
  pub sha256 : Bytes → String
  pub strip_plan_token : Bytes → Bytes
  pub now : ℕ

-- What a write does: it lands; it fails with the old record in place; or the new record is in place,
-- and the sync of its directory fails.
pub data Write : Type 0 where
  lands fails unsynced : Write

pub data LedgerError : Type 0 where
  no_such_step bad_transition body_mismatch not_utf8 no_body step_may_have_sent : LedgerError
  handle_closed write_failed : LedgerError

-- `Handle`, with the record that is on disk.
pub record Handle : Type 0 where
  pub run : Run
  pub disk : Run
  pub closed : Bool

-- What an operation does with its step: it refuses, it has nothing to do, or it saves the step, and
-- leaves another in memory when the save fails.
pub data Change : Type 0 where
  refuse : LedgerError → Change
  nothing : Change
  save_step : Step → Step → Change

-- A step that stays in memory whether the save fails or not.
abbrev pub save_same : Step → Change
save_same s = save_step s s

-- The first step of that name is replaced.
unfoldable pub put_step : String → Step → List Step → List Step
put_step name t [] = []
put_step name t (s ∷ ss) = if s.name == name then t ∷ ss else s ∷ put_step name t ss

abbrev pub with_step : Handle → String → Step → Run
with_step h name s = record h.run { steps = put_step name s h.run.steps }

-- The write of a handle that is open.
abbrev pub open_save : Handle → String → Step → Step → Write → Handle × Option LedgerError
open_save h name new back Write.lands =
    (record h { run = with_step h name new; disk = with_step h name new }, none)
open_save h name new back Write.fails =
    (record h { run = with_step h name back }, some LedgerError.write_failed)
open_save h name new back Write.unsynced = (
  record h { run = with_step h name back; disk = with_step h name new },
  some LedgerError.write_failed,
)

-- `Handle.save` with the step put into the record, or the other one into memory if it fails.
unfoldable pub save : Handle → String → Step → Step → Write → Handle × Option LedgerError
save h name new back w =
    if h.closed
    then (record h { run = with_step h name back }, some LedgerError.handle_closed)
    else open_save h name new back w

abbrev pub perform : Handle → String → Write → Change → Handle × Option LedgerError
perform h name w (refuse why) = (h, some why)
perform h name w nothing = (h, none)
perform h name w (save_step new back) = save h name new back w

abbrev pub on_found :
    (Step → Change) → Handle → String → Write → Option Step → Handle × Option LedgerError
on_found f h name w none = (h, some LedgerError.no_such_step)
on_found f h name w (some s) = perform h name w (f s)

-- An operation on the step of that name.
unfoldable pub on_step : (Step → Change) → Handle → String → Write → Handle × Option LedgerError
on_step f h name w = on_found f h name w (find_step name h.run.steps)

-- `Begin`: the states that it refuses.
abbrev begin_refused : State → Bool
begin_refused s = is_terminal s

-- The step in memory once the body was taken in: a failed save takes back the state and the attempts.
abbrev pub begun : Step → Change
begun s =
    if is_some s.body
    then save_step (record s { state = State.pending; attempts = s.attempts + 1 }) s
    else refuse LedgerError.no_body

abbrev pub other_digest : Option String → String → Bool
other_digest none digest = false
other_digest (some d) digest = not (d == digest)

abbrev begin_body : Env → Option Bytes → Step → Change
begin_body env none s = begun s
begin_body env (some b) s =
    if not (check_body b)
    then refuse LedgerError.not_utf8
    else if other_digest s.body_sha256 (env.sha256 b)
    then refuse LedgerError.body_mismatch
    else begun (record s { body = some b; body_sha256 = some (env.sha256 b) })

unfoldable pub begin_step : Env → Option Bytes → Step → Change
begin_step env body s =
    if begin_refused s.state then refuse LedgerError.bad_transition else begin_body env body s

abbrev may_await : State → Bool
may_await State.not_started = true
may_await State.awaiting_confirmation = true
may_await _ = false

-- `AwaitConfirmation`.
unfoldable pub await_step : Step → Change
await_step s =
    if may_await s.state
    then save_same (record s { state = State.awaiting_confirmation })
    else refuse LedgerError.bad_transition

-- `SetPlan`.
unfoldable pub set_plan_step : Option Plan → String → Step → Change
set_plan_step plan token s =
    if is_terminal s.state
    then refuse LedgerError.bad_transition
    else save_same (record s { plan = plan; plan_token = if token == "" then none else some token })

-- A response as it is stored.
abbrev stored : Env → Response → Response
stored env r = record r {
  body = env.strip_plan_token r.body;
  received_at = elim r.received_at [ none ↦ some env.now | some t ↦ some t ];
}

abbrev with_response : Env → Option Response → Step → Step
with_response env none s = s
with_response env (some r) s = record s { response = some (stored env r) }

-- The state that an outcome leads to.
abbrev recorded_state : Option RunOutcome → State
recorded_state none = State.answered
recorded_state (some o) = if resumable (some o) then State.answered else State.terminal

abbrev pub scrub_if_terminal : Step → Step
scrub_if_terminal s = elim s.state [ State.terminal ↦ (scrub_step s).0 | _ ↦ s ]

-- `Record`.
unfoldable pub record_step : Env → Option Response → Option RunOutcome → Step → Change
record_step env r o s =
    save_same
      (scrub_if_terminal (record (with_response env r s) { outcome = o; state = recorded_state o }))

abbrev pub declined_step : Step → Step
declined_step s = (scrub_step (record s { state = State.declined })).0

abbrev decline_in : State → Step → Change
decline_in State.declined s = nothing
decline_in State.unreachable s = nothing
decline_in State.not_started s = save_same (declined_step s)
decline_in State.awaiting_confirmation s = save_same (declined_step s)
decline_in _ s = refuse LedgerError.step_may_have_sent

-- `Decline`.
unfoldable pub decline_step : Step → Change
decline_step s = decline_in s.state s

-- `Unreachable`.
unfoldable pub unreachable_step : Step → Change
unreachable_step s =
    if may_have_sent s.state
    then refuse LedgerError.step_may_have_sent
    else save_same (scrub_step (record s { state = State.unreachable })).0

-- The operations of a handle.
pub data LedgerOp : Type 0 where
  begin : Option Bytes → LedgerOp
  await_confirmation decline unreachable : LedgerOp
  set_plan : Option Plan → String → LedgerOp
  record_answer : Option Response → Option RunOutcome → LedgerOp

abbrev pub change_of : Env → LedgerOp → Step → Change
change_of env (begin body) = begin_step env body
change_of env await_confirmation = await_step
change_of env decline = decline_step
change_of env unreachable = unreachable_step
change_of env (set_plan plan token) = set_plan_step plan token
change_of env (record_answer r o) = record_step env r o

-- One call of a method of `Handle`, with what its write does.
unfoldable pub call : Env → Handle → String → LedgerOp → Write → Handle × Option LedgerError
call env h name op w = on_step (change_of env op) h name w

-- The calls of one invocation, errors ignored.
unfoldable pub calls : Env → Handle → List (String × LedgerOp × Write) → Handle
calls env h [] = h
calls env h ((name, op, w) ∷ rest) = calls env (call env h name op w).0 rest
