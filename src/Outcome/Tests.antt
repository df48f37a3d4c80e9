-- ===== src/Outcome/Tests.antt =====
-- Runs of the decision table, and the theorems about it at concrete answers.
use ferry_cli.Base.{◌≡◌, ◌↔◌, refl, false, true, none, some, [], ◌∷◌, contains, ◌≢◌}
use ferry_cli.Outcome.Class.{Class, Money, properties}
use ferry_cli.Outcome.Operation.{
  OpClass, class_of, op_execute_transfer, op_simulate_transfer, known_state,
}
use ferry_cli.Outcome.Input.{Any, Envelope, Input, TransportPhase}
use ferry_cli.Outcome.Table.{find_rule, refine_key_reused}
use ferry_cli.Outcome.Answers.{classify_transport, classify_success}
use ferry_cli.Outcome.Classify.{classify, classify_code, verdict_of, annotate}
use ferry_cli.Outcome.Classify.Execute.{
  IsAccepted, NothingMoved, exit-classify_execute, money-classify_execute,
}
use ferry_cli.Outcome.Classify.FailClosed.{IsOpen, classify_pending}
use ferry_cli.Outcome.Command.{CommandInput, classify_command, classify_completed}
use ferry_cli.Outcome.Command.Terminal.{
  moving_states, IsSettledWell, classify_command_pending, exit-classify_command,
}

-- A 201 of an execute.
abbrev accepted : Input
accepted = record {
  op = op_execute_transfer;
  status = 201;
  transport = none;
  envelope = none;
  success = some (record { parsed = true; transaction_status = "pending" });
  command_id = "cmd_1";
  replayed = false;
}

-- A connection of an execute that was never established.
abbrev unreached : Input
unreached = record accepted {
  status = 0;
  transport = some (record { phase = TransportPhase.dial });
  success = none;
}

-- A simulate whose key is held by another credential.
abbrev reused_envelope : Envelope
reused_envelope = record {
  code = "IDEMPOTENCY_KEY_REUSED";
  details = ("reason", Any.string "different_credential") ∷ [];
}

abbrev reused : Input
reused = record accepted {
  op = op_simulate_transfer;
  status = 409;
  success = none;
  envelope = some reused_envelope;
}

-- A command that is still running, and one that completed.
abbrev moving : CommandInput
moving = record {
  operation = op_execute_transfer;
  state = "inflight";
  contradiction = false;
  command_id = "cmd_1";
  transaction_id = "";
  result = none;
  last_error_code = "";
}

abbrev aged_out : CommandInput
aged_out = record moving { state = "completed" }

exits :
    ((classify accepted).exit ≡ 0)
    × ((classify unreached).exit ≡ 5)
    × ((classify reused).exit ≡ 7)
    × ((classify_command moving).exit ≡ 6)
    × ((classify_command aged_out).exit ≡ 0)
unfolding classify classify_transport classify_success classify_code find_rule verdict_of
    refine_key_reused annotate properties classify_command classify_completed known_state class_of
exits = (refl, refl, refl, refl, refl)

exit-classify_execute_example : ((classify accepted).exit ≡ 0) ↔ IsAccepted accepted
unfolding class_of
exit-classify_execute_example = exit-classify_execute accepted refl

money_of_unreached : (classify unreached).money ≡ Money.no
unfolding classify classify_transport annotate properties class_of
money_of_unreached = refl

money-classify_execute_example : NothingMoved unreached
unfolding class_of
money-classify_execute_example = money-classify_execute unreached refl money_of_unreached

classify_pending_example : ((classify reused).class ≡ Class.pending) ↔ IsOpen reused
unfolding class_of
classify_pending_example = classify_pending reused OpClass.money_simulate refl refl

classify_command_pending_example :
    ((classify_command moving).class ≢ Class.transient)
    × (((classify_command moving).class ≡ Class.pending)
        ↔ ((moving.contradiction ≡ false) × (contains moving.state moving_states ≡ true)))
classify_command_pending_example = classify_command_pending moving

exit-classify_command_example : ((classify_command aged_out).exit ≡ 0) ↔ IsSettledWell aged_out
exit-classify_command_example = exit-classify_command aged_out
