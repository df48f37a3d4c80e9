-- ===== src/Transfers/FlowTests.antt =====
-- Runs of a broadcast, of a resume and of `transfers create`, and each property at a concrete input.
use ferry_cli.Base.{
  eq_iff, String, ◌≡◌, ◌≢◌, refl, true, false, Option, none, some, [], ◌∷◌, arith, pos, inl,
  is_some, subst, sym,
}
use ferry_cli.Outcome.Operation.{op_simulate_transfer, op_execute_transfer, class_of}
use ferry_cli.Api.Envelope.{Outer}
use ferry_cli.Api.Client.{Result, attempt, answer, to_input}
use ferry_cli.Api.Target.{Bytes}
use ferry_cli.Poll.Watch.{got}
use ferry_cli.Consent.{Heard, ask}
use ferry_cli.Cli.{new_flag}
use ferry_cli.Runs.Step.{
  State, Step, find_step, unresolved, is_terminal, resumable, scrub_step, has_plan_token,
  check_body,
}
use ferry_cli.Runs.Ledger.{
  Env, Write, Handle, call, on_step, begin_step, save, put_step, record_step, set_plan_step,
}
use ferry_cli.Runs.Ledger.LedgerOp.{begin}
use ferry_cli.Runs.Create.{opened}
use ferry_cli.Transfers.World.{
  answer_of, step_execute, StepWorld, Answer, Performed, Ended, command_id, ledger_outcome,
  stored_response,
}
use ferry_cli.Transfers.Perform.{classify_step, perform_step}
use ferry_cli.Transfers.Follow.{FollowWorld, perform, follow_up, poll_target}
use ferry_cli.Transfers.Broadcast.{FlowWorld, fresh_plan_token, broadcast}
use ferry_cli.Transfers.Broadcast.Executes.{
  IsBroadcast, IsExecuted, plan_call, broadcast-IsBroadcast,
}
use ferry_cli.Transfers.Resume.{resumable_step, resume_step, resume}
use ferry_cli.Transfers.Resume.Resends.{IsResumed, resume-IsResumed}
use ferry_cli.Transfers.Resume.Unasked.{LetsThrough, resume-IsExecuted}
use ferry_cli.Transfers.Create.{Invocation, simulate_step}
use ferry_cli.Transfers.Invoke.{run_create, with_sessions, holds_session}
use ferry_cli.Transfers.Invoke.Gates.{IsInvoked, run_create-IsInvoked}
use ferry_cli.Outcome.Classify.{annotate, classify}
use ferry_cli.Api.Meta.{read_meta}
use ferry_cli.Outcome.Answers.{classify_success}
use ferry_cli.Outcome.Class.{new_outcome, properties}

abbrev env : Env
env = record { sha256 = λ _. "digest"; strip_plan_token = λ b. b; now = 1 }

abbrev body : Bytes
body = 123 ∷ 125 ∷ []

abbrev step : String → Option Bytes → State → Step
step name b state = record {
  name = name;
  operation = name;
  method = "POST";
  path = "/v1/transfers";
  idempotency_key = name;
  body_sha256 = none;
  body = b;
  plan = none;
  plan_token = none;
  state = state;
  attempts = 0;
  response = none;
  outcome = none;
}

abbrev sent_simulate : Step
sent_simulate = step "simulate" (some body) State.pending

-- A run that was killed while its simulate was on the wire.
abbrev killed : Handle
killed = opened (record {
  schema = 2;
  run_id = "01";
  created_at = some 5;
  cli_version = "1";
  profile = "live";
  api_url = "";
  environment = "live";
  credential_class = "";
  token_prefix = "";
  principal_id = "";
  argv = [];
  steps = sent_simulate ∷ step "execute" none State.not_started ∷ [];
})

abbrev priced : Result
priced = attempt op_simulate_transfer "" (answer 201 (λ _. "") [] Outer.unreadable)

abbrev accepted : Result
accepted = attempt op_execute_transfer "" (answer 201 (λ _. "") [] Outer.unreadable)

-- Nobody is asked, and nothing fails.
abbrev headless : Result → StepWorld
headless r = record {
  request = record { yes = false; tty = false; command_is_consent = false };
  terminal = record { writes = true; interrupted = false; heard = Heard.unread };
  signal_before_send = false;
  signal_after_send = false;
  await_write = Write.lands;
  decline_write = Write.lands;
  begin_write = Write.lands;
  record_write = Write.lands;
  close_write = Write.lands;
  reply = some (got r);
  readers = record {
    command = λ _. none;
    simulation = λ _. some (record {
      object = "simulation";
      plan_id = "p";
      plan_token = some "tok";
      expires_at = none;
    });
    transaction = λ _. some (record { object = "transaction"; status = "pending" });
  };
  printer = record { text = λ _. ""; integer = λ _. "" };
  now = 7;
}

abbrev patient : FollowWorld
patient = record {
  no_wait = false;
  timeout = pos 0;
  started = 0;
  recorded_at = 9;
  polls = record {
    reply = λ _. got accepted;
    lapse = λ _. 0;
    signal = λ _ _. false;
    parse = λ _. none;
  };
  fuel = 9;
  poll_write = Write.lands;
}

abbrev flow : FlowWorld
flow = record {
  simulate = headless priced;
  execute = headless accepted;
  follow_simulate = patient;
  follow_execute = patient;
  execute_body = λ t. some body;
  plan_write = Write.lands;
  shut_write = Write.lands;
}

abbrev price : Answer
price = classify_step flow.simulate "simulate" priced

broadcast-IsBroadcast_example :
    IsBroadcast env flow killed
      ((some body, "simulate") ∷ [])
      price
      (broadcast env flow killed new_flag ((some body, "simulate") ∷ []) price)
broadcast-IsBroadcast_example =
    broadcast-IsBroadcast env flow killed new_flag ((some body, "simulate") ∷ []) price

resumes : resumable_step false killed.run.steps ≡ some sent_simulate
unfolding resumable_step unresolved
resumes = refl

finds : find_step "simulate" killed.run.steps ≡ some sent_simulate
unfolding find_step
finds = refl

resume-IsResumed_example :
    IsResumed env flow killed new_flag sent_simulate body (resume env flow killed new_flag)
resume-IsResumed_example =
    resume-IsResumed env flow killed new_flag sent_simulate body resumes finds (inl refl) refl

abbrev resumed : Performed
resumed = resume_step env flow sent_simulate killed new_flag

answered : answer_of resumed.ended ≡ some price
unfolding resume_step perform perform_step find_step call on_step begin_step is_terminal save
    put_step record_step follow_up poll_target command_id classify_step attempt read_meta classify
    class_of to_input annotate classify_success new_outcome properties ledger_outcome resumable
    stored_response scrub_step has_plan_token set_plan_step fresh_plan_token
answered = refl

keeps_execute : is_some (find_step step_execute resumed.handle.run.steps) ≡ true
unfolding resume_step perform perform_step find_step call on_step begin_step is_terminal save
    put_step record_step follow_up poll_target command_id classify_step attempt read_meta classify
    class_of to_input annotate classify_success new_outcome properties ledger_outcome resumable
    stored_response scrub_step has_plan_token set_plan_step fresh_plan_token
keeps_execute = refl

abbrev planned : Handle
planned = (plan_call env flow resumed.handle price).0

abbrev executing : Handle
executing = (call env planned step_execute (begin (some body)) Write.lands).0

exits_0 : price.out.exit ≡ 0
unfolding classify_step classify class_of to_input attempt read_meta annotate classify_success
exits_0 = refl

is_fresh : fresh_plan_token price ≡ "tok"
unfolding fresh_plan_token classify_step attempt read_meta
is_fresh = refl

plans : plan_call env flow resumed.handle price ≡ (planned, none)
unfolding resume_step perform perform_step find_step call on_step begin_step is_terminal save
    put_step record_step follow_up poll_target command_id classify_step attempt read_meta classify
    class_of to_input annotate classify_success new_outcome properties ledger_outcome resumable
    stored_response scrub_step has_plan_token set_plan_step fresh_plan_token
plans = refl

begins : call env planned step_execute (begin (some body)) Write.lands ≡ (executing, none)
unfolding resume_step perform perform_step find_step call on_step begin_step is_terminal save
    put_step record_step follow_up poll_target command_id classify_step attempt read_meta classify
    class_of to_input annotate classify_success new_outcome properties ledger_outcome resumable
    stored_response scrub_step has_plan_token set_plan_step fresh_plan_token check_body
begins = refl

abbrev token : String
token = "tok"

not_empty : token ≢ ""
not_empty e = ground (arith, eq_iff token "")

lets_through : LetsThrough env flow resumed.handle price
lets_through = record {
  no_terminal = refl;
  priced = exits_0;
  fresh = subst (λ t. t ≢ "") (sym is_fresh) not_empty;
  planned = planned;
  plan_recorded = plans;
  body = body;
  is_encoded = refl;
  quiet = refl;
  begun = executing;
  has_begun = begins;
  reply = accepted;
  is_answered = refl;
}

resume-IsExecuted_example :
    IsExecuted env flow resumed.handle resumed.sends price (resume env flow killed new_flag)
resume-IsExecuted_example =
    resume-IsExecuted env flow killed new_flag sent_simulate price refl resumes refl answered
      keeps_execute lets_through

-- `transfers create --broadcast` in a directory without records.
abbrev invocation : Invocation
invocation = record {
  broadcast = true;
  key = "";
  allow_pending = false;
  directory = [];
  profile = "live";
  environment = "live";
  api_url = "";
  credential_class = "";
  holder = record { token_prefix = "ferry_live_a"; principal_id = "" };
  cli_version = "1";
  argv = [];
  now = 5;
  run_id = some "01";
  valid_id = λ id. true;
  created = true;
}

run_create-IsInvoked_example :
    IsInvoked env flow invocation body new_flag (run_create env flow invocation body new_flag)
run_create-IsInvoked_example = run_create-IsInvoked env flow invocation body new_flag

-- `transfers create` without `--broadcast` holds no session for an execute.
abbrev state_of : Option Step → Option State
state_of none = none
state_of (some s) = some s.state

abbrev resumed_simulate : Performed
resumed_simulate = resume env (with_sessions (simulate_step ∷ []) flow) killed new_flag

-- Its resume of the run sends the simulate, leaves the execute pending on disk, and panics.
panics :
    (resumed_simulate.ended ≡ Ended.panicked)
    × (resumed_simulate.sends ≡ (some body, "simulate") ∷ [])
    × (state_of (find_step step_execute resumed_simulate.handle.disk.steps) ≡ some State.pending)
unfolding resume resume_step perform perform_step find_step call on_step begin_step is_terminal save
    put_step record_step follow_up poll_target command_id classify_step attempt read_meta classify
    class_of to_input annotate classify_success new_outcome properties ledger_outcome resumable
    stored_response scrub_step has_plan_token set_plan_step fresh_plan_token holds_session broadcast
    resumable_step unresolved ask check_body
panics = (refl, refl, refl)
