-- ===== src/Outcome/Command.antt =====
-- internal/outcome/command.go: `ClassifyCommand`, the terminal rule for a command body.
pub mod Terminal
use ferry_cli.Base.{
  ℕ, String, ◌==◌, Bool, true, false, Option, none, some, List, [], ◌∷◌, ◌++◌, if◌then◌else◌, str,
  quoted, Text,
}
use ferry_cli.Outcome.Class.{Class, Outcome, new_outcome}
use ferry_cli.Outcome.Operation.{
  OpClass, op_execute_transfer, op_simulate_transfer, class_of, known_state,
}
use ferry_cli.Outcome.Table.{Verdict, Rule, verdict_for, find_rule}
use ferry_cli.Outcome.Classify.{spaced, with_command}

pub record CommandResult : Type 0 where
  pub status : ℕ
  pub transaction_status : String

pub record CommandInput : Type 0 where
  pub operation : String
  pub state : String
  pub contradiction : Bool
  pub command_id : String
  pub transaction_id : String
  pub result : Option CommandResult
  pub last_error_code : String

abbrev with_transaction : String → Text → Text
with_transaction id t =
    if id == "" then t else spaced t ++ str "Transaction id " ∷ str id ∷ str "." ∷ []

-- `commandOutcome`.
unfoldable pub command_outcome : CommandInput → Class → Text → List String → Outcome
unfolding new_outcome
command_outcome i class next warnings =
    let out = new_outcome class next warnings in
    record out { next = with_transaction i.transaction_id (with_command i.command_id out.next) }

abbrev accepted_next : Text
accepted_next =
    str "Accepted upstream, not settled. Read `status` and `subStatus`, and reconcile later." ∷ []

abbrev completed_execute : CommandInput → Option CommandResult → Outcome
completed_execute i none =
    command_outcome i Class.accepted_upstream
      (str
          "This transfer completed, but its stored result is no longer replayable. Reconcile against the upstream using the transaction id."
        ∷ [])
      []
completed_execute i (some r) =
    if r.transaction_status == "failed"
    then command_outcome i Class.upstream_failed
        (str
            "FERRY accepted this transfer upstream and the upstream then failed it. Reconcile against the upstream before simulating a replacement."
          ∷ [])
        []
    else if r.transaction_status == ""
    then command_outcome i Class.accepted_upstream accepted_next (
        "the stored transaction body carried no `status`, so acceptance could not be qualified"
        ∷ [])
    else command_outcome i Class.accepted_upstream accepted_next []

-- `classifyCompleted`.
unfoldable pub classify_completed : CommandInput → Outcome
unfolding command_outcome
classify_completed i =
    if i.operation == op_execute_transfer
    then completed_execute i i.result
    else if i.operation == op_simulate_transfer
    then command_outcome i Class.refused_resimulate
        (str
            "FERRY completed this simulation after the request ended; the plan token was never issued — simulate again under a new key."
          ∷ [])
        []
    else command_outcome i Class.escalate
        (str "This command completed under the operation "
          ∷ quoted i.operation
          ∷ str ", which this CLI does not perform, so it cannot say what the result means."
          ∷ [])
        []

-- The classes whose remedy is to come back.
abbrev pub comes_back : Class → Bool
comes_back Class.transient = true
comes_back Class.pending = true
comes_back _ = false

abbrev failed_verdict : CommandInput → Verdict → Outcome
failed_verdict i v =
    if comes_back v.class
    then command_outcome i Class.escalate
        (str "This command failed terminally, and the code "
          ∷ quoted i.last_error_code
          ∷ str
              " it failed with means \"try again\" — which a command that has stopped cannot do. This CLI will not say whether money moved. A human must read this command."
          ∷ [])
        []
    else command_outcome i v.class (str v.next ∷ []) []

abbrev pub failed_code : CommandInput → OpClass → Option Rule → Outcome
failed_code i class none =
    command_outcome i Class.escalate
      (str "This command failed terminally with the code "
        ∷ quoted i.last_error_code
        ∷ str ", which this CLI does not know."
        ∷ [])
      []
failed_code i class (some r) = failed_verdict i (verdict_for r class)

abbrev failed_operation : CommandInput → Option OpClass → Outcome
failed_operation i none =
    command_outcome i Class.escalate
      (str "This command failed terminally under the operation "
        ∷ quoted i.operation
        ∷ str ", which this CLI does not perform."
        ∷ [])
      []
failed_operation i (some class) = failed_code i class (find_rule i.last_error_code)

-- `classifyFailedTerminal`.
unfoldable pub classify_failed_terminal : CommandInput → Outcome
unfolding command_outcome
classify_failed_terminal i = failed_operation i (class_of i.operation)

-- `ClassifyCommand`.
unfoldable pub classify_command : CommandInput → Outcome
unfolding command_outcome
classify_command i =
    if i.contradiction
    then command_outcome i Class.escalate
        (str
            "FERRY found a transaction it cannot account for against this command. Stop and escalate whatever `state` says; on a live environment execution is already frozen."
          ∷ [])
        []
    else if known_state i.state
    then (if i.state == "needs_operator"
        then command_outcome i Class.escalate
            (str
                "This command could not be resolved automatically and is with an operator. Stop polling; a human must resolve it."
              ∷ [])
            []
        else if i.state == "completed"
        then classify_completed i
        else if i.state == "failed_terminal"
        then classify_failed_terminal i
        else command_outcome i Class.pending
            (str "This command is "
              ∷ str i.state
              ∷ str ": the outcome is not established. Keep polling; do not resend under a new key."
              ∷ [])
            [])
    else command_outcome i Class.escalate
        (str "This command is in state "
          ∷ quoted i.state
          ∷ str ", which is not in the contract's enum. This CLI cannot say what it means."
          ∷ [])
        []
