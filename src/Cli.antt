-- ===== src/Cli.antt =====
-- internal/cli/flight/flight.go: the in-flight flag. internal/cli/root.go: what the wrapper says of a
-- command that failed, panicked or was interrupted. The messages beside the outcome are left out.
pub mod Honest
use ferry_cli.Base.{
  String, ◌==◌, Bool, true, false, Option, none, some, List, [], ◌∷◌, ◌++◌, if◌then◌else◌, str,
  Text,
}
use ferry_cli.Outcome.Class.{Class, Outcome, new_outcome}

-- `Flag`.
pub record Flag : Type 0 where
  pub sent : Bool
  pub run_id : String
  pub command_id : String
  pub profile : String
  pub environment : String

abbrev pub new_flag : Flag
new_flag = record { sent = false; run_id = ""; command_id = ""; profile = ""; environment = "" }

-- `MarkSent`, `NoteRun`, `NoteCommand` and `NoteProfile`.
pub data FlagOp : Type 0 where
  mark_sent : FlagOp
  note_run note_command : String → FlagOp
  note_profile : String → String → FlagOp

unfoldable pub on_flag : FlagOp → Flag → Flag
on_flag mark_sent f = record f { sent = true }
on_flag (note_run id) f = record f { run_id = id }
on_flag (note_command id) f = if id == "" then f else record f { command_id = id }
on_flag (note_profile profile environment) f = record f {
  profile = profile;
  environment = environment;
}

unfoldable pub on_flags : List FlagOp → Flag → Flag
on_flags [] f = f
on_flags (op ∷ ops) f = on_flags ops (on_flag op f)

abbrev run_hint : String → Text
run_hint id =
    if id == ""
    then []
    else str " `ferry runs show "
      ∷ str id
      ∷ str "` reads what was recorded, and `ferry runs resume "
      ∷ str id
      ∷ str "` resends the identical request under the identical key."
      ∷ []

abbrev command_hint : String → Text
command_hint id =
    if id == ""
    then []
    else str " FERRY's own record is `ferry commands watch " ∷ str id ∷ str "`." ∷ []

-- `wrapper.pending`.
unfoldable pub wrapper_pending : Flag → String → Outcome
wrapper_pending f what =
    new_outcome Class.pending
      ((str "This invocation ended on "
          ∷ str what
          ∷ str
              " after a money request may have reached FERRY, so whether money moved is not established. Do not resend under a new key."
          ∷ [])
        ++ (run_hint f.run_id ++ command_hint f.command_id))
      []

abbrev cli_fault : String → Outcome
cli_fault next = new_outcome Class.cli_fault (str next ∷ []) []

abbrev pub is_cli_fault : Class → Bool
is_cli_fault Class.cli_fault = true
is_cli_fault _ = false

-- An error that carries an outcome.
abbrev known_outcome : Flag → Outcome → Outcome
known_outcome f out =
    if f.sent
    then if is_cli_fault out.class
      then wrapper_pending f "a local failure after the request left"
      else out
    else out

abbrev error_outcome : Flag → Option Outcome → Outcome
error_outcome f (some out) = known_outcome f out
error_outcome f none =
    if f.sent then wrapper_pending f "an unclassified failure" else cli_fault "Nothing was sent."

-- `wrapper.classify`: whether the command panicked, whether a signal was seen, and the outcome that
-- its error carries, if it carries one.
unfoldable pub classify_failure : Flag → Bool → Bool → Option Outcome → Outcome
classify_failure f panicked seen known =
    if panicked
    then (if f.sent
        then wrapper_pending f "a panic"
        else cli_fault "Nothing was sent. This is a bug in the CLI; the command can be run again.")
    else if seen
    then (if f.sent
        then wrapper_pending f "an interrupt"
        else cli_fault
            "Interrupted before anything was sent. Nothing happened; run the command again.")
    else error_outcome f known
