-- ===== src/Outcome/Command/Terminal.antt =====
-- When the loop on a command goes on, and when a command is a success.
use ferry_cli.Base.{
  String, ◌==◌, eq_iff, ◌≡◌, ◌≢◌, ◌↔◌, refl, Bool, true, false, not, ◌&&◌, ◌||◌, contains-all,
  Option-cases, inl, inr, Option, none, some, List, [], ◌∷◌, contains, arith, all, eqb,
}
use ferry_cli.Outcome.Class.{Class, properties}
use ferry_cli.Outcome.Operation.{OpClass, op_execute_transfer, known_state, class_of}
use ferry_cli.Outcome.Table.{Rule, verdict_for, rules, find_rule}
use ferry_cli.Outcome.Classify.Facts.{find_rule-all}
use ferry_cli.Outcome.Command.{
  CommandResult, CommandInput, comes_back, classify_completed, classify_failed_terminal,
  classify_command, failed_code, command_outcome,
}

-- The states in which a command may still move.
abbrev pub moving_states : List String
moving_states = "reserved" ∷ "inflight" ∷ "upstream_unknown" ∷ "failed_retriable" ∷ []

completed_stops : (i : CommandInput) → comes_back (classify_completed i).class ≡ false
unfolding classify_completed
completed_stops i = ground arith

failed_stops : (i : CommandInput) → comes_back (classify_failed_terminal i).class ≡ false
unfolding classify_failed_terminal
failed_stops i = ground arith

abbrev stopped_states : List String
stopped_states = "needs_operator" ∷ "completed" ∷ "failed_terminal" ∷ []

abbrev not_stopped : String → Bool
not_stopped s = not (contains s stopped_states)

not_stopped-all : all not_stopped moving_states ≡ true
unfolding all contains
not_stopped-all = refl

-- The moving states are the known ones that are not stopped.
known_state-moving :
    (s : String) → contains s moving_states ≡ (known_state s && not (contains s stopped_states))
unfolding known_state contains
known_state-moving s = ground (arith, contains-all not_stopped s moving_states not_stopped-all)

stopped :
    (s : String)
    → contains s stopped_states
      ≡ (s == "needs_operator" || (s == "completed" || s == "failed_terminal"))
unfolding contains
stopped s = ground arith

-- The loop goes on exactly for a command without a contradiction in one of the moving states, and no
-- command is ever `transient`.
pub classify_command_pending :
    (i : CommandInput)
    → ((classify_command i).class ≢ Class.transient)
      × (((classify_command i).class ≡ Class.pending)
          ↔ ((i.contradiction ≡ false) × (contains i.state moving_states ≡ true)))
unfolding classify_command
classify_command_pending i =
    ground (arith, completed_stops i, failed_stops i, known_state-moving i.state, stopped i.state)

-- A completed execute that the upstream did not fail.
pub record IsSettledWell (i : CommandInput) : Type 0 where
  pub no_contradiction : i.contradiction ≡ false
  pub completed : i.state ≡ "completed"
  pub execute : i.operation ≡ op_execute_transfer
  pub not_failed : (r : CommandResult) → i.result ≡ some r → r.transaction_status ≢ "failed"

abbrev row_not_zero : OpClass → String × Rule → Bool
row_not_zero c (code, r) = not (eqb (properties (verdict_for r c).class).exit 0)

row_not_zero-all : (c : OpClass) → all (row_not_zero c) rules ≡ true
unfolding all rules properties
row_not_zero-all OpClass.read = refl
row_not_zero-all _ = refl

failed_not_zero :
    (i : CommandInput) (c : OpClass) (r : Rule)
    → find_rule i.last_error_code ≡ some r
    → (properties (verdict_for r c).class).exit ≢ 0
failed_not_zero i c r e =
    ground (arith, find_rule-all (row_not_zero c) i.last_error_code {r = r} (row_not_zero-all c) e)

failed_code_not_zero :
    (i : CommandInput) (c : OpClass) (o : Option Rule)
    → find_rule i.last_error_code ≡ o
    → (failed_code i c o).exit ≢ 0
unfolding command_outcome properties
failed_code_not_zero i c none e = ground arith
failed_code_not_zero i c (some r) e = ground (arith, failed_not_zero i c r e)

failed_terminal_not_zero : (i : CommandInput) → (classify_failed_terminal i).exit ≢ 0
unfolding classify_failed_terminal properties
failed_terminal_not_zero i = elim (Option-cases (class_of i.operation)) [
  | inl e ↦ ground arith
  | inr (c, e) ↦ ground (arith, failed_code_not_zero i c (find_rule i.last_error_code) refl)
]

completed_zero :
    (i : CommandInput)
    → ((classify_completed i).exit ≡ 0) ↔ (
        (i.operation ≡ op_execute_transfer)
        × ((r : CommandResult) → i.result ≡ some r → r.transaction_status ≢ "failed"))
unfolding classify_completed properties
completed_zero i = (
  λ z. (
    ground (arith, eq_iff i.operation op_execute_transfer),
    λ r e f. ground (arith, eq_iff r.transaction_status "failed"),
  ),
  λ h. elim (Option-cases i.result) [
    | inl e ↦ ground (arith, eq_iff i.operation op_execute_transfer)
    | inr (r, e) ↦ ground (
      arith,
      eq_iff i.operation op_execute_transfer,
      eq_iff r.transaction_status "failed",
      h.1 r e,
    )
  ],
)

command_zero :
    (i : CommandInput)
    → (classify_command i).exit ≡ 0
    → (i.contradiction ≡ false) × (i.state ≡ "completed") × ((classify_completed i).exit ≡ 0)
unfolding classify_command properties
command_zero i z = ground (arith, eq_iff i.state "completed", failed_terminal_not_zero i)

known_completed :
    (s : String)
    → s ≡ "completed"
    → (known_state s ≡ true) × ((s == "needs_operator") ≡ false) × ((s == "completed") ≡ true)
unfolding known_state contains
known_completed s e = (rw e, rw e, rw e)

completed_command :
    (i : CommandInput)
    → i.contradiction ≡ false
    → i.state ≡ "completed"
    → classify_command i ≡ classify_completed i
unfolding classify_command
completed_command i c s = ground (arith, known_completed i.state s)

-- A command is a success, exit code 0, exactly when it is a completed execute without a
-- contradiction whose stored transaction, if it is still there, did not fail.
pub exit-classify_command : (i : CommandInput) → ((classify_command i).exit ≡ 0) ↔ IsSettledWell i
exit-classify_command i = (
  λ z.
      let (clear, done, zero) = command_zero i z in
      let (execute, ok) = (completed_zero i).0 zero in
      record { no_contradiction = clear; completed = done; execute = execute; not_failed = ok },
  λ h.
      rw (completed_command i h.no_contradiction h.completed)
        ((completed_zero i).1 (h.execute, h.not_failed)),
)
