-- ===== src/Poll/Tests.antt =====
-- Runs of the loop, and each property at a concrete input.
use ferry_cli.Base.{
  ℕ, zero, suc, ◌≡◌, refl, false, Option, none, some, [], ◌∷◌, arith, pos, String, if◌then◌else◌,
  eqb,
}
use ferry_cli.Outcome.Class.{Class}
use ferry_cli.Outcome.Operation.{op_get_command, op_execute_transfer}
use ferry_cli.Api.Envelope.{Outer}
use ferry_cli.Api.Target.{Bytes}
use ferry_cli.Api.Client.{Result, answer, attempt}
use ferry_cli.Poll.Body.{ResultBody, CommandResult, Command, command_delay_seconds}
use ferry_cli.Poll.Watch.{
  got, PollWorld, Watched, stopped, watching, Loop, again, round, start, watch, decode_reply,
}
use ferry_cli.Outcome.Class.{new_outcome, properties}
use ferry_cli.Outcome.Operation.{known_state}
use ferry_cli.Outcome.Command.{classify_command, classify_completed, command_outcome}
use ferry_cli.Api.Meta.{read_meta, atoi}
use ferry_cli.Api.Duration.{before, sleep, seconds}
use ferry_cli.Base.{contains, eq_iff, ◌≢◌}
use ferry_cli.Poll.Body.{command_input, decode_command}
use ferry_cli.Poll.Watch.{follow, timed_out_outcome}
use ferry_cli.Poll.Watch.Overflow.{IsBusyForever, watch-overflow}

abbrev execute_in : String → Option ℕ → Option CommandResult → Command
execute_in state wait result = record {
  object = "command";
  id = "cmd_1";
  operation = op_execute_transfer;
  state = state;
  created_at = none;
  state_changed_at = none;
  attempts = pos 1;
  poll = "/v1/commands/cmd_1";
  retry_after_seconds = elim wait [ none ↦ none | some n ↦ some (pos n) ];
  result = result;
  last_error = none;
  contradiction = none;
  transaction_id = some "txn_1";
  idempotency_key = some "run-execute";
}

abbrev settled : Command
settled =
    execute_in "completed" none
      (some (record { status = 201; body = some (ResultBody.transaction "pending") }))

-- The test bodies: [1] is in flight, [2] is completed, [3] asks for a wait past the durations.
abbrev parse_test : Bytes → Option Command
parse_test [] = none
parse_test (tag ∷ _) =
    if eqb tag 1
    then some (execute_in "inflight" (some 2) none)
    else if eqb tag 2
    then some settled
    else some (execute_in "inflight" (some 9_223_372_037) none)

abbrev replied : ℕ → Result
replied tag = attempt op_get_command "" (answer 200 (λ _. "") (tag ∷ []) Outer.unreadable)

abbrev tags : ℕ → ℕ
tags zero = 1
tags (suc n) = 2

abbrev polled : PollWorld
polled = record {
  reply = λ n. got (replied (tags n));
  lapse = λ _. 1;
  signal = λ _ _. false;
  parse = parse_test;
}

-- What a run says of itself.
abbrev summary : Watched → Option (ℕ × Option Class)
summary (stopped s) = some (s.polls, elim s.outcome [ none ↦ none | some o ↦ some o.class ])
summary _ = none

watch_runs :
    summary (watch polled "cmd_1" (pos 3) 100_000_000_000 0 5)
    ≡ some (2, some Class.accepted_upstream)
unfolding watch follow round before sleep seconds decode_reply decode_command classify_command
    command_input command_delay_seconds attempt read_meta known_state contains classify_completed
    command_outcome new_outcome properties timed_out_outcome atoi
watch_runs = refl

watch_times_out :
    summary (watch polled "cmd_1" (pos 3) 4_000_000_000 0 5) ≡ some (1, some Class.pending)
unfolding watch follow round before sleep seconds decode_reply decode_command classify_command
    command_input command_delay_seconds attempt read_meta known_state contains classify_completed
    command_outcome new_outcome properties timed_out_outcome atoi
watch_times_out = refl

abbrev first : Loop
first = start (pos 3) 0

abbrev second : Loop
second = elim (round polled "cmd_1" 100_000_000_000 first) [ again l ↦ l | _ ↦ first ]

abbrev endless : PollWorld
endless = record {
  reply = λ _. got (replied 3);
  lapse = λ _. 0;
  signal = λ _ _. false;
  parse = parse_test;
}

endless_busy : IsBusyForever endless (replied 3) (execute_in "inflight" (some 9_223_372_037) none)
unfolding decode_reply decode_command classify_command command_input command_delay_seconds attempt
    read_meta known_state contains command_outcome new_outcome properties atoi
endless_busy = record {
  replies = λ _. refl;
  decodes = refl;
  pending = refl;
  at_once = λ _. refl;
  quiet = λ _ _. refl;
  long = omega arith;
  short = omega arith;
}

named : ◌≢◌ {A = String} "cmd_1" ""
named e = ground (arith, eq_iff "cmd_1" "")

watch-overflow_example : watch endless "cmd_1" (pos 9_223_372_037) 600_000_000_000 0 1000 ≡ watching
watch-overflow_example =
    watch-overflow endless "cmd_1" (replied 3) (execute_in "inflight" (some 9_223_372_037) none)
      9_223_372_037 600_000_000_000 0 1000 endless_busy named (omega arith) (omega arith)
      (omega arith)
