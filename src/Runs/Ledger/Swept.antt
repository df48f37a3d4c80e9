-- ===== src/Runs/Ledger/Swept.antt =====
-- The responses that the ledger stores.
use ferry_cli.Base.{String, ◌≡◌, Bool, false, Option, none, some, List, arith}
use ferry_cli.Api.Target.{Bytes}
use ferry_cli.Runs.Step.{Response, Step, scrub_step}
use ferry_cli.Runs.Ledger.{
  Env, Write, Handle, LedgerOp, change_of, calls, begin_step, await_step, set_plan_step,
  record_step, decline_step, unreachable_step,
}
use ferry_cli.Runs.Ledger.LedgerOp.{
  begin, await_confirmation, decline, unreachable, set_plan, record_answer,
}
use ferry_cli.Runs.Ledger.Guards.{Keeps, AllSteps, calls-All}
use ferry_cli.Runs.Token.{contains_plan_token, strip_plan_token}
use ferry_cli.Runs.Token.Swept.{strip_plan_token-contains}

abbrev pub holds_token : Option Response → Bool
holds_token none = false
holds_token (some r) = contains_plan_token r.body

-- The response of the step contains no plan token.
abbrev pub IsSwept : Step → Type 0
IsSwept s = holds_token s.response ≡ false

-- The surroundings of the ledger, with the function of token.go.
abbrev pub stripping : (Bytes → Option Bytes) → Env → Env
stripping structural env = record env { strip_plan_token = strip_plan_token structural }

change_of-IsSwept :
    (structural : Bytes → Option Bytes) (env : Env) (op : LedgerOp) (s : Step)
    → IsSwept s
    → Keeps IsSwept (change_of (stripping structural env) op s)
unfolding begin_step await_step set_plan_step record_step decline_step unreachable_step scrub_step
change_of-IsSwept structural env (begin none) s h = ground arith
change_of-IsSwept structural env (begin (some b)) s h = ground arith
change_of-IsSwept structural env await_confirmation s h = ground arith
change_of-IsSwept structural env decline s h = ground arith
change_of-IsSwept structural env unreachable s h = ground arith
change_of-IsSwept structural env (set_plan plan token) s h = ground arith
change_of-IsSwept structural env (record_answer none o) s h = ground arith
change_of-IsSwept structural env (record_answer (some r) o) s h =
    ground (arith, strip_plan_token-contains structural r.body)

-- Whatever is called, whatever the answers hold and whatever the writes do, if no response that a step
-- holds contains a plan token, in memory or on disk, then none does after any calls.
pub calls-IsSwept :
    (structural : Bytes → Option Bytes) (env : Env) (h : Handle)
    (ops : List (String × LedgerOp × Write))
    → AllSteps IsSwept h
    → AllSteps IsSwept (calls (stripping structural env) h ops)
calls-IsSwept structural env h ops start =
    calls-All IsSwept (stripping structural env) (change_of-IsSwept structural env) h ops start
