-- ===== src/Transfers/Create.antt =====
-- internal/noun/transfers/money.go: what an invocation holds, and its checks before the first request:
-- `route`, `orphanCheck` and `create`.
use ferry_cli.Base.{
  ℕ, String, ◌==◌, Bool, true, false, ◌&&◌, ◌||◌, not, Option, none, some, List, [], ◌∷◌,
  if◌then◌else◌, length, eqb,
}
use Prim.Native.String.{◌++◌}
use ferry_cli.Outcome.Operation.{Operation, op_simulate_transfer, op_execute_transfer}
use ferry_cli.Api.Target.{Bytes}
use ferry_cli.Api.Routes.{Route, route_for}
use ferry_cli.Cli.{Flag}
use ferry_cli.Runs.Step.{State, Step, Run, valid_key}
use ferry_cli.Runs.Ledger.{Env, Handle}
use ferry_cli.Runs.Create.{invalid, valid, create_run}
use ferry_cli.Runs.Sweep.{Entry, Orphan, orphans, KeyMatch, find_by_key}
use ferry_cli.Transfers.World.{step_simulate, step_execute, Ended, Performed}
use ferry_cli.Transfers.Resume.{Holder}

-- What an invocation holds once `begin` has returned: its options, the records, the profile and its
-- credential, what it notes of itself, a run id or none, and whether the lock of a new run and its
-- first write succeed.
pub record Invocation : Type 0 where
  pub broadcast : Bool
  pub key : String
  pub allow_pending : Bool
  pub directory : List Entry
  pub profile : String
  pub environment : String
  pub api_url : String
  pub credential_class : String
  pub holder : Holder
  pub cli_version : String
  pub argv : List String
  pub now : ℕ
  pub run_id : Option String
  pub valid_id : String → Bool
  pub created : Bool

-- How an invocation ends, with the run that it holds, if it holds one.
pub record Invoked : Type 0 where
  pub handle : Option Handle
  pub flag : Flag
  pub sends : List (Option Bytes × String)
  pub ended : Ended

abbrev pub refused : Flag → Ended → Invoked
refused f why = record { handle = none; flag = f; sends = []; ended = why }

abbrev pub held : Performed → Invoked
held p = record { handle = some p.handle; flag = p.flag; sends = p.sends; ended = p.ended }

-- `route`: refused, a run that holds the key against the same body, or none.
pub data Routed : Type 0 where
  route_refused : Ended → Routed
  matched : KeyMatch → Routed
  unmatched : Routed

abbrev same_digest : String → Option String → Bool
same_digest digest none = false
same_digest digest (some d) = d == digest

abbrev pub route_match : String → Option KeyMatch → Routed
route_match digest none = unmatched
route_match digest (some k) =
    if same_digest digest k.step.body_sha256 then matched k else route_refused Ended.key_held

unfoldable pub route : (Bytes → String) → List Entry → String → Bytes → Routed
route sha256 es key body =
    if key == ""
    then unmatched
    else if not (valid_key key)
    then route_refused Ended.usage
    else route_match (sha256 body) (find_by_key key es)

abbrev is_none : List Orphan → Bool
is_none [] = true
is_none (o ∷ os) = false

-- `orphanCheck`, as whether it lets the invocation go on.
unfoldable pub orphan_check : Invocation → List String → Bool
orphan_check i exempt =
    i.allow_pending || is_none (orphans i.profile i.environment exempt i.directory)

-- `stepPlan`.
abbrev pub StepPlan : Type 0
StepPlan = String × Operation

abbrev pub simulate_step : StepPlan
simulate_step = (step_simulate, op_simulate_transfer)

abbrev pub execute_step : StepPlan
execute_step = (step_execute, op_execute_transfer)

-- `StepKey`.
abbrev pub step_key : String → String → String
step_key run_id name = run_id ++ ("-" ++ name)

abbrev pub planned_key : String → String → Bool → String → String
planned_key run_id key single name = if not (key == "") && single then key else step_key run_id name

abbrev pub new_step : String → String → Bool → Option Bytes → StepPlan → Route → Step
new_step run_id key single body p r = record {
  name = p.0;
  operation = p.1;
  method = r.method;
  path = r.path;
  idempotency_key = planned_key run_id key single p.0;
  body_sha256 = none;
  body = body;
  plan = none;
  plan_token = none;
  state = State.not_started;
  attempts = 0;
  response = none;
  outcome = none;
}

abbrev pub and_step : Option Step → Option (List Step) → Option (List Step)
and_step none rest = none
and_step (some s) none = none
and_step (some s) (some ss) = some (s ∷ ss)

abbrev pub planned_step : String → String → Bool → Option Bytes → StepPlan → Option Step
planned_step run_id key single body p = elim (route_for p.1) [
  | none ↦ none
  | some r ↦ some (new_step run_id key single body p r)
]

abbrev pub is_first : String → StepPlan → Bool
is_first first p = p.0 == first

-- The loop of `create`: the body is that of the steps named like the first one.
unfoldable pub new_steps :
    String → String → Bool → Bytes → String → List StepPlan → Option (List Step)
new_steps run_id key single body first [] = some []
new_steps run_id key single body first (p ∷ ps) =
    and_step (planned_step run_id key single (if is_first first p then some body else none) p)
      (new_steps run_id key single body first ps)

abbrev pub first_name : List StepPlan → String
first_name [] = ""
first_name (p ∷ ps) = p.0

abbrev pub run_of : Invocation → String → List Step → Run
run_of i run_id ss = record {
  schema = 0;
  run_id = run_id;
  created_at = some i.now;
  cli_version = i.cli_version;
  profile = i.profile;
  api_url = i.api_url;
  environment = i.environment;
  credential_class = i.credential_class;
  token_prefix = i.holder.token_prefix;
  principal_id = i.holder.principal_id;
  argv = i.argv;
  steps = ss;
}

abbrev pub created_run : Env → Invocation → Run → Option Handle
created_run env i run = elim (create_run env i.valid_id run) [
  | invalid why ↦ none
  | valid h ↦ if i.created then some h else none
]

abbrev pub create_steps : Env → Invocation → String → Option (List Step) → Option Handle
create_steps env i run_id none = none
create_steps env i run_id (some ss) = created_run env i (run_of i run_id ss)

-- `create`.
unfoldable pub create : Env → Invocation → List StepPlan → Bytes → Option Handle
unfolding new_steps
create env i plans body = elim i.run_id [
  | none ↦ none
  | some id ↦
      create_steps env i id
        (new_steps id i.key (eqb (length plans) 1) body (first_name plans) plans)
]
