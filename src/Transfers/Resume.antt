-- ===== src/Transfers/Resume.antt =====
-- internal/noun/transfers/resume.go: the step that a resume acts on, and what it sends.
pub mod Resends
pub mod Unasked
use ferry_cli.Base.{
  String, ◌==◌, Bool, true, false, ◌&&◌, ◌||◌, not, Option, none, some, List, [], ◌∷◌,
  if◌then◌else◌, is_some,
}
use ferry_cli.Api.Target.{Bytes}
use ferry_cli.Cli.{Flag}
use ferry_cli.Runs.Step.{State, Step, Run, find_step, has_plan_token, unresolved}
use ferry_cli.Runs.Ledger.{Env, Handle}
use ferry_cli.Runs.Create.{opened}
use ferry_cli.Runs.Sweep.{Entry}
use ferry_cli.Transfers.World.{
  answer_of, Answer, step_simulate, step_execute, StepWorld, Ended, Performed,
}
use ferry_cli.Transfers.Follow.{FollowWorld, perform}
use ferry_cli.Transfers.Broadcast.{FlowWorld, ended, consenting, broadcast}

abbrev not_begun : State → Bool
not_begun State.not_started = true
not_begun _ = false

-- `resumable`; the Boolean says that a step came before.
unfoldable pub resumable_step : Bool → List Step → Option Step
resumable_step later [] = none
resumable_step later (s ∷ ss) =
    if unresolved s || (not_begun s.state && (later && has_plan_token s))
    then some s
    else resumable_step true ss

-- `planFor`, with what the step meets.
abbrev pub world_of : FlowWorld → String → StepWorld
world_of w name = if name == step_execute then w.execute else w.simulate

abbrev pub follow_of : FlowWorld → String → FollowWorld
follow_of w name = if name == step_execute then w.follow_execute else w.follow_simulate

-- A resume is not consent, and sends what is recorded unless a body is given.
abbrev pub resend : Env → FlowWorld → String → Option Bytes → Handle → Flag → Performed
resend env w name body h f =
    perform env (consenting false (world_of w name)) (follow_of w name) false name body h f

abbrev send_body : Env → FlowWorld → Handle → Flag → Option Bytes → Performed
send_body env w h f none = ended h f [] Ended.unencoded
send_body env w h f (some b) = resend env w step_execute (some b) h f

abbrev send_token : Env → FlowWorld → Handle → Flag → Option String → Performed
send_token env w h f none = ended h f [] Ended.stranded_plan
send_token env w h f (some t) = send_body env w h f (w.execute_body t)

-- `resumeStep`.
unfoldable pub resume_step : Env → FlowWorld → Step → Handle → Flag → Performed
resume_step env w s h f =
    if s.name == step_execute && not (is_some s.body)
    then if has_plan_token s
      then send_token env w h f s.plan_token
      else ended h f [] Ended.stranded_plan
    else resend env w (if s.name == step_execute then step_execute else step_simulate) none h f

-- A resumed simulate of a run with an execute step goes on into the execute.
abbrev pub continues : String → Handle → Bool
continues name h = name == step_simulate && is_some (find_step step_execute h.run.steps)

abbrev pub after_resumed : Env → FlowWorld → String → Performed → Option Answer → Performed
after_resumed env w name p none = p
after_resumed env w name p (some a) =
    if continues name p.handle then broadcast env w p.handle p.flag p.sends a else p

abbrev pub resume_found : Env → FlowWorld → Handle → Flag → Option Step → Performed
resume_found env w h f none = ended h f [] Ended.nothing_to_resume
resume_found env w h f (some s) =
    let p = resume_step env w s h f in after_resumed env w s.name p (answer_of p.ended)

-- `resume`.
unfoldable pub resume : Env → FlowWorld → Handle → Flag → Performed
resume env w h f = resume_found env w h f (resumable_step false h.run.steps)

-- The credential that the profile holds, as far as a run remembers it.
pub record Holder : Type 0 where
  pub token_prefix : String
  pub principal_id : String

-- What `checkCredential` refuses.
unfoldable pub is_other_holder : Run → Holder → Bool
is_other_holder run c =
    (not (run.token_prefix == "") && not (run.token_prefix == c.token_prefix))
    || (not (run.principal_id == "")
        && (not (c.principal_id == "") && not (run.principal_id == c.principal_id)))

-- `Ledger.Open`, on a directory whose records are readable.
pub data Opened : Type 0 where
  not_found locked : Opened
  held_by_us : Handle → Opened

unfoldable pub open_run : String → List Entry → Opened
open_run id [] = not_found
open_run id (e ∷ es) =
    if e.id == id then (if e.held then locked else held_by_us (opened e.run)) else open_run id es
