-- ===== src/Poll/Body.antt =====
-- internal/poll/command.go: the command body as the loop reads it, and what the decision table is told
-- of it. internal/api/command_body.go: the body of a stored result. JSON is read by `encoding/json`:
-- the model starts from the values that it finds.
use ferry_cli.Base.{
  ℕ, String, ◌==◌, Bool, ◌&&◌, not, Option, none, some, List, ltb, if◌then◌else◌, is_some, ℤ, pos,
  negsuc,
}
use ferry_cli.Outcome.Input.{Any}
use ferry_cli.Outcome.Command.{CommandInput}
use ferry_cli.Outcome.Command as Table

-- `api.CommandResultBody`: the status is the one field of a transaction that is read.
pub data ResultBody : Type 0 where
  transaction : String → ResultBody
  simulation : ResultBody

-- `CommandResultBody.UnmarshalJSON`: `object` is what the probe found, `status` and `stored` are
-- what reading the value as a transaction and as a simulation gives.
unfoldable pub decode_result_body : Option String → Option String → Bool → Option ResultBody
decode_result_body none status stored = none
decode_result_body (some object) status stored =
    if object == "transaction"
    then elim status [ none ↦ none | some s ↦ some (ResultBody.transaction s) ]
    else if object == "simulation"
    then if stored then some ResultBody.simulation else none
    else none

pub record CommandResult : Type 0 where
  pub status : ℕ
  pub body : Option ResultBody

pub record LastError : Type 0 where
  pub code : String
  pub rest : List (String × Any)

pub record Contradiction : Type 0 where
  pub kind : String
  pub transaction_oms_id : String
  pub detected_by : String
  pub prior_state : String
  pub detected_at : String
  pub transaction_oms_ids : List String

pub record Command : Type 0 where
  pub object : String
  pub id : String
  pub operation : String
  pub state : String
  pub created_at : Option String
  pub state_changed_at : Option String
  pub attempts : ℤ
  pub poll : String
  pub retry_after_seconds : Option ℤ
  pub result : Option CommandResult
  pub last_error : Option LastError
  pub contradiction : Option Contradiction
  pub transaction_id : Option String
  pub idempotency_key : Option String

abbrev text_or_empty : Option String → String
text_or_empty none = ""
text_or_empty (some s) = s

abbrev code_or_empty : Option LastError → String
code_or_empty none = ""
code_or_empty (some e) = e.code

abbrev status_of : Option ResultBody → String
status_of (some (ResultBody.transaction s)) = s
status_of _ = ""

abbrev result_of : Option CommandResult → Option Table.CommandResult
result_of none = none
result_of (some r) = some (record { status = r.status; transaction_status = status_of r.body })

-- `Command.Input`.
unfoldable pub command_input : Command → CommandInput
command_input c = record {
  operation = c.operation;
  state = c.state;
  contradiction = is_some c.contradiction;
  command_id = c.id;
  transaction_id = text_or_empty c.transaction_id;
  result = result_of c.result;
  last_error_code = code_or_empty c.last_error;
}

abbrev command_delay : Option ℤ → ℕ
command_delay none = 5
command_delay (some (pos n)) = if ltb n 1 then 1 else n
command_delay (some (negsuc n)) = 1

-- `Command.RetryDelaySeconds`.
unfoldable pub command_delay_seconds : Command → ℕ
command_delay_seconds c = command_delay c.retry_after_seconds

-- The guard of the decoder.
abbrev is_command : Command → Bool
is_command c = c.object == "command" && not (c.id == "")

-- `DecodeCommand`, after `json.Unmarshal`.
unfoldable pub decode_command : Option Command → Option Command
decode_command none = none
decode_command (some c) = if is_command c then some c else none
