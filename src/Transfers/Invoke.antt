-- ===== src/Transfers/Invoke.antt =====
-- internal/noun/transfers: `runCreate` (create.go), `runExecute` (execute.go), `Resume` and
-- `resumeMatched` (resume.go), once `begin` has returned and the body is built.
pub mod Minted
pub mod Gates
use ferry_cli.Base.{
  String, ◌==◌, Bool, true, false, ◌&&◌, ◌||◌, not, Option, none, some, List, [], ◌∷◌,
  if◌then◌else◌,
}
use ferry_cli.Api.Target.{Bytes}
use ferry_cli.Cli.{Flag, on_flag, note_run}
use ferry_cli.Runs.Ledger.{Env, Handle}
use ferry_cli.Runs.Sweep.{KeyMatch}
use ferry_cli.Runs.Step.{Step}
use ferry_cli.Transfers.World.{
  step_simulate, step_execute, answer_of, Answer, StepWorld, Ended, Performed,
}
use ferry_cli.Transfers.Follow.{FollowWorld, perform}
use ferry_cli.Transfers.Broadcast.{FlowWorld, consenting, broadcast}
use ferry_cli.Transfers.Resume.{
  is_other_holder, Opened, not_found, locked, held_by_us, open_run, resume,
}
use ferry_cli.Transfers.Create.{
  Invocation, Invoked, refused, held, Routed, route_refused, matched, unmatched, route,
  orphan_check, StepPlan, simulate_step, execute_step, create,
}

-- The flag once a run is noted.
abbrev pub noted : Handle → Flag → Flag
noted h f = on_flag (note_run h.run.run_id) f

abbrev stopped : Handle → Flag → Ended → Invoked
stopped h f why = record { handle = some h; flag = f; sends = []; ended = why }

-- `planFor`.
abbrev pub plan_for : String → StepPlan
plan_for name = if name == step_execute then execute_step else simulate_step

-- Whether `begin` opened a session for the operation of the step: `session` is nil otherwise. The plans
-- stand for the operations that it was given.
unfoldable pub holds_session : List StepPlan → String → Bool
holds_session [] name = false
holds_session (p ∷ plans) name = p.0 == (plan_for name).0 || holds_session plans name

-- A request through a session that is nil does not return.
abbrev pub with_session : Bool → StepWorld → StepWorld
with_session held w = if held then w else record w { reply = none }

abbrev pub with_sessions : List StepPlan → FlowWorld → FlowWorld
with_sessions plans w = record w {
  simulate = with_session (holds_session plans step_simulate) w.simulate;
  execute = with_session (holds_session plans step_execute) w.execute;
}

-- Whether `checkCredential` finds the session of the run's first step.
abbrev pub holds_first : List StepPlan → List Step → Bool
holds_first plans [] = false
holds_first plans (s ∷ ss) = holds_session plans s.name

-- `checkCredential`, which panics on a session that is nil, then the orphans where they are looked for,
-- then `resume`.
abbrev pub resume_held :
    Env → FlowWorld → List StepPlan → Invocation → Bool → Handle → Flag → Invoked
resume_held env w plans i checked h f =
    if not (holds_first plans h.run.steps)
    then stopped h f Ended.panicked
    else if is_other_holder h.run i.holder
    then stopped h f Ended.wrong_credential
    else if not checked
    then stopped h f Ended.orphaned
    else held (resume env (with_sessions plans w) h f)

abbrev pub resume_opened :
    Env → FlowWorld → List StepPlan → Invocation → Bool → Flag → Opened → Invoked
resume_opened env w plans i checked f not_found = refused f Ended.usage
resume_opened env w plans i checked f locked = refused f Ended.unopened
resume_opened env w plans i checked f (held_by_us h) =
    resume_held env w plans i checked h (noted h f)

abbrev pub both_steps : List StepPlan
both_steps = simulate_step ∷ execute_step ∷ []

-- `Resume`.
unfoldable pub resume_run : Env → FlowWorld → Invocation → String → Flag → Invoked
unfolding holds_session
resume_run env w i id f = resume_opened env w both_steps i true f (open_run id i.directory)

-- `resumeMatched`, in an invocation that holds the sessions of the plans.
unfoldable pub resume_matched :
    Env → FlowWorld → List StepPlan → Invocation → KeyMatch → Flag → Invoked
unfolding holds_session
resume_matched env w plans i k f =
    resume_opened env w plans i (orphan_check i (k.run.run_id ∷ [])) f
      (open_run k.run.run_id i.directory)

-- The first step of a new run: its body is given, and the command is consent.
abbrev pub start_step :
    Env → StepWorld → FollowWorld → Bool → StepPlan → Bytes → Handle → Flag → Performed
start_step env w fw broadcasts p body h f =
    perform env (consenting true w) fw broadcasts p.0 (some body) h f

abbrev pub after_simulate : Env → FlowWorld → Bool → Performed → Option Answer → Performed
after_simulate env w broadcasts p none = p
after_simulate env w broadcasts p (some a) =
    if broadcasts then broadcast env w p.handle p.flag p.sends a else p

abbrev pub simulated : Env → FlowWorld → Bool → Performed → Performed
simulated env w broadcasts p = after_simulate env w broadcasts p (answer_of p.ended)

abbrev pub create_created : Env → FlowWorld → Invocation → Bytes → Flag → Option Handle → Invoked
create_created env w i body f none = refused f Ended.uncreated
create_created env w i body f (some h) = held (
    simulated env w i.broadcast
      (start_step env w.simulate w.follow_simulate i.broadcast simulate_step body h (noted h f)))

abbrev pub plans_of : Bool → List StepPlan
plans_of broadcasts = if broadcasts then both_steps else simulate_step ∷ []

abbrev pub create_routed : Env → FlowWorld → Invocation → Bytes → Flag → Routed → Invoked
create_routed env w i body f (route_refused why) = refused f why
create_routed env w i body f (matched k) = resume_matched env w (plans_of i.broadcast) i k f
create_routed env w i body f unmatched =
    if orphan_check i []
    then create_created env w i body f (create env i (plans_of i.broadcast) body)
    else refused f Ended.orphaned

-- `runCreate`.
unfoldable pub run_create : Env → FlowWorld → Invocation → Bytes → Flag → Invoked
run_create env w i body f =
    if i.broadcast && not (i.key == "")
    then refused f Ended.usage
    else create_routed env w i body f (route env.sha256 i.directory i.key body)

abbrev pub execute_created : Env → FlowWorld → Invocation → Bytes → Flag → Option Handle → Invoked
execute_created env w i body f none = refused f Ended.uncreated
execute_created env w i body f (some h) =
    held (start_step env w.execute w.follow_execute false execute_step body h (noted h f))

abbrev pub execute_routed : Env → FlowWorld → Invocation → Bytes → Flag → Routed → Invoked
execute_routed env w i body f (route_refused why) = refused f why
execute_routed env w i body f (matched k) = resume_matched env w (execute_step ∷ []) i k f
execute_routed env w i body f unmatched =
    if orphan_check i []
    then execute_created env w i body f (create env i (execute_step ∷ []) body)
    else refused f Ended.orphaned

abbrev pub execute_body : Env → FlowWorld → Invocation → Flag → Option Bytes → Invoked
execute_body env w i f none = refused f Ended.unencoded
execute_body env w i f (some body) =
    execute_routed env w i body f (route env.sha256 i.directory i.key body)

-- `runExecute`, with the token that `planToken` gives.
unfoldable pub run_execute : Env → FlowWorld → Invocation → String → Flag → Invoked
run_execute env w i token f = execute_body env w i f (w.execute_body token)
