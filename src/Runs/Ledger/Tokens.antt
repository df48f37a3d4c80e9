-- ===== src/Runs/Ledger/Tokens.antt =====
-- No plan token outlives its use.
use ferry_cli.Base.{String, ◌≡◌, true, false, none, some, List, arith}
use ferry_cli.Runs.Step.{Step, has_plan_token, is_terminal, scrub_step}
use ferry_cli.Runs.Ledger.{
  Env, Write, Handle, LedgerOp, change_of, calls, begin_step, await_step, set_plan_step,
  record_step, decline_step, unreachable_step,
}
use ferry_cli.Runs.Ledger.LedgerOp.{
  begin, await_confirmation, decline, unreachable, set_plan, record_answer,
}
use ferry_cli.Runs.Ledger.Guards.{Keeps, AllSteps, calls-All}

-- A step in a terminal state holds no live plan token.
abbrev pub IsSpent : Step → Type 0
IsSpent s = is_terminal s.state ≡ true → has_plan_token s ≡ false

change_of-IsSpent :
    (env : Env) (op : LedgerOp) (s : Step) → IsSpent s → Keeps IsSpent (change_of env op s)
unfolding begin_step await_step set_plan_step record_step decline_step unreachable_step scrub_step
    is_terminal has_plan_token
change_of-IsSpent env (begin none) s h = ground arith
change_of-IsSpent env (begin (some b)) s h = ground arith
change_of-IsSpent env await_confirmation s h = ground arith
change_of-IsSpent env decline s h = ground arith
change_of-IsSpent env unreachable s h = ground arith
change_of-IsSpent env (set_plan plan token) s h = ground arith
change_of-IsSpent env (record_answer r o) s h = ground arith

-- Whatever is called and whatever the writes do, if no terminal step holds a live plan token, in
-- memory or on disk, then none does after any calls.
pub calls-IsSpent :
    (env : Env) (h : Handle) (ops : List (String × LedgerOp × Write))
    → AllSteps IsSpent h
    → AllSteps IsSpent (calls env h ops)
calls-IsSpent env h ops start = calls-All IsSpent env (change_of-IsSpent env) h ops start
