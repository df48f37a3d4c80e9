-- ===== src/Transfers/Broadcast.antt =====
-- internal/noun/transfers/create.go: `broadcast`, the second half of a run under --broadcast, with the
-- token that it may execute.
pub mod Executes
use ferry_cli.Base.{
  String, ◌==◌, Bool, true, ◌||◌, not, Option, none, some, List, [], ◌∷◌, ◌++◌, eqb, if◌then◌else◌,
  is_some, str, Text,
}
use ferry_cli.Outcome.Class.{Class, new_outcome}
use ferry_cli.Api.Target.{Bytes}
use ferry_cli.Cli.{Flag}
use ferry_cli.Runs.Step.{Plan, Step, find_step, is_terminal, may_have_sent}
use ferry_cli.Runs.Ledger.{Env, Write, LedgerError, Handle, call}
use ferry_cli.Runs.Ledger.LedgerOp.{unreachable, set_plan}
use ferry_cli.Transfers.World.{step_execute, Simulation, StepWorld, Answer, Ended, Performed}
use ferry_cli.Transfers.Follow.{FollowWorld, perform}

-- What the steps of an invocation meet, the writes around them, and the body that `api.Marshal` makes
-- of a plan token.
pub record FlowWorld : Type 0 where
  pub simulate : StepWorld
  pub execute : StepWorld
  pub follow_simulate : FollowWorld
  pub follow_execute : FollowWorld
  pub execute_body : String → Option Bytes
  pub plan_write : Write
  pub shut_write : Write

-- The requests that left, and how the invocation ends.
abbrev pub ended : Handle → Flag → List (Option Bytes × String) → Ended → Performed
ended h f sends why = record { handle = h; flag = f; sends = sends; ended = why }

-- The argument `commandIsConsent` of `perform`.
abbrev pub consenting : Bool → StepWorld → StepWorld
consenting c w = record w { request = record w.request { command_is_consent = c } }

abbrev close_found : Env → FlowWorld → Handle → Option Step → Handle
close_found env w h none = h
close_found env w h (some s) =
    if is_terminal s.state || may_have_sent s.state
    then h
    else (call env h step_execute unreachable w.shut_write).0

-- `closeExecute`.
unfoldable pub close_execute : Env → FlowWorld → Handle → Handle
close_execute env w h = close_found env w h (find_step step_execute h.run.steps)

abbrev token_of : Option Simulation → String
token_of none = ""
token_of (some s) = elim s.plan_token [ none ↦ "" | some t ↦ t ]

-- `freshPlanToken`.
unfoldable pub fresh_plan_token : Answer → String
fresh_plan_token a = if a.res.meta.replayed then "" else token_of a.simulation

-- `planRecord`.
abbrev pub plan_record : Option Simulation → Option Plan
plan_record none = none
plan_record (some s) = some (record { id = s.plan_id; expires_at = s.expires_at })

-- `planID`.
abbrev plan_id_of : Option Simulation → String
plan_id_of none = "(unknown)"
plan_id_of (some s) = s.plan_id

-- `simulateGaveNoToken`.
abbrev no_token_warning : Answer → Text
no_token_warning a =
    if a.res.meta.replayed
    then str
        "the simulate was answered from the idempotency store, and a stored simulation carries no plan token"
      ∷ []
    else if is_some a.polled
    then str
        "the simulate was completed asynchronously, and a command's stored result carries no plan token"
      ∷ []
    else str "the simulate answered without a plan token" ∷ []

abbrev tokenless : String → Answer → Answer
tokenless run_id a = record a {
  out =
      new_outcome Class.refused_resimulate
        (str
            "The plan token was never handed to this invocation, so there is nothing to execute and nothing was sent. Simulate again under a new key: `ferry transfers create --broadcast …`. Run "
          ∷ str run_id
          ∷ str " records what happened."
          ∷ [])
        [];
  warnings = a.warnings ++ no_token_warning a ∷ [];
}

abbrev key_of : Option Step → String
key_of none = ""
key_of (some s) = s.idempotency_key

abbrev executed_warning : Option Simulation → Handle → Text
executed_warning s h =
    str "the plan "
    ∷ str (plan_id_of s)
    ∷ str " was priced by this invocation's simulate and executed under key "
    ∷ str (key_of (find_step step_execute h.run.steps))
    ∷ []

abbrev warned : Option Simulation → Handle → Ended → Ended
warned s h (Ended.answered a) =
    Ended.answered (record a { warnings = a.warnings ++ executed_warning s h ∷ [] })
warned s h why = why

-- The execute, after the requests that had left before it.
abbrev pub executed : Option Simulation → List (Option Bytes × String) → Performed → Performed
executed s sends p = ended p.handle p.flag (sends ++ p.sends) (warned s p.handle p.ended)

abbrev pub with_body :
    Env
    → FlowWorld
    → Flag
    → List (Option Bytes × String)
    → Answer
    → Handle
    → Option Bytes
    → Performed
with_body env w f sends a h none = ended h f sends Ended.unencoded
with_body env w f sends a h (some b) =
    executed a.simulation sends
      (perform env (consenting true w.execute) w.follow_execute true step_execute (some b) h f)

abbrev pub with_plan :
    Env
    → FlowWorld
    → Flag
    → List (Option Bytes × String)
    → Answer
    → String
    → Handle × Option LedgerError
    → Performed
with_plan env w f sends a token (h, some why) = ended h f sends Ended.plan_unrecorded
with_plan env w f sends a token (h, none) = with_body env w f sends a h (w.execute_body token)

abbrev pub with_token :
    Env → FlowWorld → Handle → Flag → List (Option Bytes × String) → Answer → String → Performed
with_token env w h f sends a token =
    if token == ""
    then ended (close_execute env w h) f sends (Ended.answered (tokenless h.run.run_id a))
    else with_plan env w f sends a token
        (call env h step_execute (set_plan (plan_record a.simulation) token) w.plan_write)

-- `broadcast`, after a simulate that came back with an answer.
unfoldable pub broadcast :
    Env → FlowWorld → Handle → Flag → List (Option Bytes × String) → Answer → Performed
broadcast env w h f sends a =
    if not (eqb a.out.exit 0)
    then ended (close_execute env w h) f sends (Ended.answered a)
    else with_token env w h f sends a (fresh_plan_token a)
