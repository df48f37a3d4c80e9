-- ===== src/Transfers/Tests.antt =====
-- Runs of a money step, of the consent and of the wrapper, and each property at a concrete input.
use ferry_cli.Base.{
  ℕ, ◌≡◌, ◌≢◌, refl, Bool, true, false, none, some, List, [], ◌∷◌, arith, ◌⊎◌, ◌↔◌, ◌||◌, not,
}
use ferry_cli.Outcome.Operation.{op_execute_transfer}
use ferry_cli.Api.Envelope.{Outer}
use ferry_cli.Api.Client.{Result, attempt, answer}
use ferry_cli.Api.Target.{Bytes}
use ferry_cli.Poll.Watch.{got}
use ferry_cli.Consent.{
  Request, Heard, Terminal, granted, verdict, ask, affirmative, trim_start, trim_end,
}
use ferry_cli.Consent.Grants.{SaidYes, ask_granted}
use ferry_cli.Cli.{Flag, note_command, new_flag, on_flags, classify_failure}
use ferry_cli.Cli.Honest.{IsHonest, classify_failure_sent}
use ferry_cli.Runs.Step.{State, Step, Run, find_step, is_terminal, check_body}
use ferry_cli.Runs.Ledger.{
  Env, Write, Handle, call, on_step, begin_step, save, put_step, record_step,
}
use ferry_cli.Transfers.World.{StepWorld, step_execute}
use ferry_cli.Transfers.Perform.{before_prompt, perform_step}
use ferry_cli.Runs.Ledger.LedgerOp.{begin}
use ferry_cli.Transfers.Forward.{perform_step-WriteAhead}
use ferry_cli.Transfers.Sends.{Sound, WriteAhead, perform_step-Sound}

abbrev env : Env
env = record { sha256 = λ _. "digest"; strip_plan_token = λ b. b; now = 1 }

abbrev execute : Step
execute = record {
  name = "execute";
  operation = "transfers_execute";
  method = "POST";
  path = "/v1/transfers/execute";
  idempotency_key = "01-execute";
  body_sha256 = none;
  body = none;
  plan = none;
  plan_token = none;
  state = State.not_started;
  attempts = 0;
  response = none;
  outcome = none;
}

abbrev run : Run
run = record {
  schema = 2;
  run_id = "01";
  created_at = some 5;
  cli_version = "1";
  profile = "live";
  api_url = "";
  environment = "live";
  credential_class = "";
  token_prefix = "";
  principal_id = "";
  argv = [];
  steps = execute ∷ [];
}

abbrev held : Handle
held = record { run = run; disk = run; closed = false }

-- A terminal at which a human answers.
abbrev typing : List ℕ → Terminal
typing words = record { writes = true; interrupted = false; heard = Heard.line words }

abbrev reply : Result
reply = attempt op_execute_transfer "" (answer 201 (λ _. "") [] Outer.unreadable)

abbrev world : Request → List ℕ → StepWorld
world request words = record {
  request = request;
  terminal = typing words;
  signal_before_send = false;
  signal_after_send = false;
  await_write = Write.lands;
  decline_write = Write.lands;
  begin_write = Write.lands;
  record_write = Write.fails;
  close_write = Write.lands;
  reply = some (got reply);
  readers = record {
    command = λ _. none;
    simulation = λ _. none;
    transaction = λ _. some (record { object = "transaction"; status = "pending" });
  };
  printer = record { text = λ _. ""; integer = λ _. "" };
  now = 7;
}

abbrev asked_with : Bool → Bool → Request
asked_with flagged tty = record { yes = flagged; tty = tty; command_is_consent = false }

abbrev agreed : StepWorld
agreed = world (asked_with true false) []

abbrev body : Bytes
body = 123 ∷ 125 ∷ []

sends_once :
    (perform_step env
      (world (asked_with true false) [])
      false
      "execute"
      (some body)
      held
      new_flag).sends
    ≡ (some body, "01-execute") ∷ []
unfolding perform_step ask find_step call on_step begin_step is_terminal check_body save put_step
    record_step
sends_once = refl

perform_step-Sound_example :
    Sound env (world (asked_with true false) []) false "execute" (some body) held (
      perform_step env (world (asked_with true false) []) false "execute" (some body) held new_flag)
perform_step-Sound_example =
    perform_step-Sound env (world (asked_with true false) []) false "execute" (some body) held
      new_flag

without_terminal :
    (ask
      (asked_with false false)
      (typing [])
      (before_prompt env (world (asked_with false false) []) step_execute)
      held).1
    ≢ verdict granted
unfolding ask
without_terminal e = ground arith

-- ` Yes` is a yes, `n` is none.
says_yes : affirmative (32 ∷ 89 ∷ 101 ∷ 115 ∷ 10 ∷ []) ≡ true
unfolding affirmative trim_start trim_end
says_yes = refl

abbrev always : ℕ → ℕ × Bool
always n = (n, true)

ask_granted_example :
    (((ask (asked_with false true) (typing (110 ∷ [])) always 0).1 ≡ verdict granted) ↔ (
      (false ≡ true)
      ⊎ ((false ≡ false)
          × (((true ≡ false) × (false ≡ true))
              ⊎ ((true ≡ true) × SaidYes (typing (110 ∷ [])) always 0)))))
    × ((false || not true) ≡ true
        → (ask (asked_with false true) (typing (110 ∷ [])) always 0).0 ≡ 0)
ask_granted_example = ask_granted (asked_with false true) (typing (110 ∷ [])) always 0

abbrev sent_flag : Flag
sent_flag = record new_flag { sent = true }

classify_failure_sent_example :
    IsHonest true false none
      (classify_failure (on_flags (note_command "c" ∷ []) sent_flag) true false none)
classify_failure_sent_example =
    classify_failure_sent sent_flag (note_command "c" ∷ []) true false none refl

abbrev started : Handle
started = (call env held "execute" (begin (some body)) Write.lands).0

begin_runs : call env held "execute" (begin (some body)) Write.lands ≡ (started, none)
unfolding call on_step find_step begin_step is_terminal check_body save put_step
begin_runs = refl

perform_step-WriteAhead_example :
    WriteAhead env agreed false "execute"
      (some body)
      held
      (perform_step env agreed false "execute" (some body) held new_flag)
perform_step-WriteAhead_example =
    perform_step-WriteAhead env agreed false "execute" (some body) held started new_flag reply refl
      refl begin_runs refl
