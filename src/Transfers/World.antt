-- ===== src/Transfers/World.antt =====
-- internal/noun/transfers/money.go: the answer of a money step, how it is recorded, and what a step
-- meets. JSON is read by `encoding/json`, and texts are printed by `fmt`: both are functions of the
-- world.
use ferry_cli.Base.{
  ℕ, String, ◌==◌, Bool, Option, none, some, List, [], ◌∷◌, ◌++◌, if◌then◌else◌, ℤ, pos, Text,
  lookup,
}
use ferry_cli.Outcome.Class.{Class, Money, Outcome}
use ferry_cli.Outcome.Input.{string_or_empty}
use ferry_cli.Api.Target.{Bytes}
use ferry_cli.Api.Meta.{Meta}
use ferry_cli.Api.Client.{Result}
use ferry_cli.Poll.Body.{Command}
use ferry_cli.Poll.Watch.{Reply}
use ferry_cli.Consent.{Request, Terminal}
use ferry_cli.Cli.{Flag}
use ferry_cli.Runs.Step.{Response, RunOutcome}
use ferry_cli.Runs.Ledger.{Write, LedgerError, Handle}

abbrev pub step_simulate : String
step_simulate = "simulate"

abbrev pub step_execute : String
step_execute = "execute"

-- `api.Simulation`, as far as it is read: `expires_at` is what `parseTime` makes of the text.
pub record Simulation : Type 0 where
  pub object : String
  pub plan_id : String
  pub plan_token : Option String
  pub expires_at : Option ℕ

-- `api.Transaction`, as far as it is read.
pub record Transaction : Type 0 where
  pub object : String
  pub status : String

-- What `encoding/json` makes of a body.
pub record Readers : Type 0 where
  pub command : Bytes → Option Command
  pub simulation : Bytes → Option Simulation
  pub transaction : Bytes → Option Transaction

-- How `fmt` prints.
pub record Printer : Type 0 where
  pub text : Text → String
  pub integer : ℤ → String

-- What one step meets: the terminal, a signal before the record is written and one after the answer,
-- what each write of the record does, the reply, and the clock. There is no reply where the invocation
-- holds no session for the operation, and the call of `Do` on it panics.
pub record StepWorld : Type 0 where
  pub request : Request
  pub terminal : Terminal
  pub signal_before_send : Bool
  pub signal_after_send : Bool
  pub await_write : Write
  pub decline_write : Write
  pub begin_write : Write
  pub record_write : Write
  pub close_write : Write
  pub reply : Option Reply
  pub readers : Readers
  pub printer : Printer
  pub now : ℕ

-- `answer`: what one step came back with. `polled` is the command of `poll`.
pub record Answer : Type 0 where
  pub res : Result
  pub last : Result
  pub out : Outcome
  pub simulation : Option Simulation
  pub transaction : Option Transaction
  pub polled : Option Command
  pub warnings : List Text

-- Why a step, or the flow around it, ends.
pub data Ended : Type 0 where
  no_step consent_failed refused_by_human not_consented sent_before interrupted : Ended
  begin_failed : LedgerError → Ended
  request_refused unrecorded unclosed decline_unrecorded : Ended
  answered : Answer → Ended
  unfollowed poll_unrecorded still_polling unencoded : Ended
  usage key_held orphaned uncreated plan_unrecorded nothing_to_resume stranded_plan : Ended
  wrong_credential unopened panicked : Ended

-- The answer that a step came back with, if it did.
abbrev pub answer_of : Ended → Option Answer
answer_of (Ended.answered a) = some a
answer_of _ = none

-- The record, the flag, the requests that left with their bodies and keys, and how the step ended.
pub record Performed : Type 0 where
  pub handle : Handle
  pub flag : Flag
  pub sends : List (Option Bytes × String)
  pub ended : Ended

abbrev pub class_name : Class → String
class_name Class.done = "done"
class_name Class.accepted_upstream = "accepted_upstream"
class_name Class.cli_fault = "cli_fault"
class_name Class.usage = "usage"
class_name Class.refused_fix = "refused_fix"
class_name Class.refused_resimulate = "refused_resimulate"
class_name Class.transient = "transient"
class_name Class.pending = "pending"
class_name Class.escalate = "escalate"
class_name Class.upstream_failed = "upstream_failed"

abbrev pub money_name : Money → String
money_name Money.no = "no"
money_name Money.unknown = "unknown"
money_name Money.accepted_upstream = "accepted_upstream"
money_name Money.see_upstream = "see_upstream"

-- `ledgerOutcome`.
unfoldable pub ledger_outcome : Printer → Outcome → RunOutcome
ledger_outcome p o = record {
  class = class_name o.class;
  exit_code = pos o.exit;
  money = money_name o.money;
  same_key_safe = o.same_key_safe;
  next = p.text o.next;
}

abbrev header : String → String → List (String × String)
header name value = if value == "" then [] else (name, value) ∷ []

-- `responseHeaders`.
unfoldable pub response_headers : Printer → Meta → List (String × String)
response_headers p m =
    header "Ferry-Command-Id" m.command_id
    ++ (header "Idempotency-Key" m.idempotency_key
        ++ (header "Ferry-Environment" m.environment
            ++ ((if m.replayed then ("Idempotency-Replayed", "true") ∷ [] else [])
                ++ elim m.retry_after [ none ↦ [] | some n ↦ ("Retry-After", p.integer n) ∷ [] ])))

-- The response that `record` and `recordPoll` store.
unfoldable pub stored_response : Printer → ℕ → Result → Response
stored_response p now r = record {
  status = r.meta.status;
  headers = response_headers p r.meta;
  body = r.body;
  received_at = some now;
}

-- `commandID`.
unfoldable pub command_id : Result → String
unfolding lookup
command_id r =
    if r.meta.command_id == ""
    then elim r.envelope [ none ↦ "" | some e ↦ string_or_empty (lookup "command_id" e.details) ]
    else r.meta.command_id
