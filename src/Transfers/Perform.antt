-- ===== src/Transfers/Perform.antt =====
-- internal/noun/transfers/money.go: `perform`, `obtainConsent`, `noConsent`, `classify` and `record`, up
-- to the step that follows a command, which is the loop of internal/poll.
use ferry_cli.Base.{
  String, ◌==◌, Bool, true, false, ◌&&◌, ◌||◌, not, Option, none, some, List, [], ◌∷◌, eqb,
  if◌then◌else◌, is_some,
}
use ferry_cli.Outcome.Classify.{is_2xx, classify}
use ferry_cli.Api.Target.{Bytes}
use ferry_cli.Api.Client.{Result, to_input}
use ferry_cli.Poll.Body.{Command, decode_command}
use ferry_cli.Poll.Watch.{Reply, not_sent, got}
use ferry_cli.Transfers.World.{
  step_simulate, step_execute, Simulation, Transaction, StepWorld, Answer, Ended, Performed,
  ledger_outcome, stored_response, command_id,
}
use ferry_cli.Consent.{granted, declined, unavailable, Asked, verdict, error, ask}
use ferry_cli.Cli.{Flag, on_flag, mark_sent, note_command}
use ferry_cli.Runs.Step.{Step, find_step, may_have_sent}
use ferry_cli.Runs.Ledger.{Env, LedgerError, Handle, call}
use ferry_cli.Runs.Ledger.LedgerOp.{begin, await_confirmation, decline, unreachable, record_answer}

-- `BeforePrompt`: the step awaits confirmation before the prompt is shown.
abbrev pub before_prompt : Env → StepWorld → String → Handle → Handle × Bool
before_prompt env w name h =
    let done = call env h name await_confirmation w.await_write in (done.0, not (is_some done.1))

abbrev pub unsent : Handle → Flag → Ended → Performed
unsent h f why = record { handle = h; flag = f; sends = []; ended = why }

-- `noConsent`: without a terminal, a step that may have been sent is pending.
abbrev no_consent : Handle → Flag → Step → Performed
no_consent h f s =
    unsent h f (if may_have_sent s.state then Ended.sent_before else Ended.not_consented)

abbrev declined_by_human : Env → StepWorld → String → Handle → Flag → Performed
declined_by_human env w name h f =
    let done = call env h name decline w.decline_write in
    unsent done.0 f (if is_some done.1 then Ended.decline_unrecorded else Ended.refused_by_human)

-- What the body of a 2xx was read as.
pub record Reading : Type 0 where
  pub parsed : Bool
  pub simulation : Option Simulation
  pub transaction : Option Transaction
  pub command : Option Command

abbrev unread : Reading
unread = record { parsed = false; simulation = none; transaction = none; command = none }

abbrev read_command : Option Command → Reading
read_command none = unread
read_command (some c) = record unread { parsed = true; command = some c }

abbrev read_simulation : Option Simulation → Reading
read_simulation none = unread
read_simulation (some s) =
    if s.object == "simulation"
    then record unread { parsed = true; simulation = some s }
    else unread

abbrev read_transaction : Option Transaction → Reading
read_transaction none = unread
read_transaction (some t) =
    if t.object == "transaction"
    then record unread { parsed = true; transaction = some t }
    else unread

-- The switch of `r.classify`.
abbrev read_as : StepWorld → String → Result → Reading
read_as w name r =
    if is_some r.transport || not (is_2xx r.meta.status)
    then unread
    else if eqb r.meta.status 202
    then read_command (decode_command (w.readers.command r.body))
    else if name == step_simulate
    then read_simulation (w.readers.simulation r.body)
    else if name == step_execute
    then read_transaction (w.readers.transaction r.body)
    else unread

abbrev status_of : Option Transaction → String
status_of none = ""
status_of (some t) = t.status

-- `r.classify`.
unfoldable pub classify_step : StepWorld → String → Result → Answer
classify_step w name r =
    let read = read_as w name r in
    record {
      res = r;
      last = r;
      out = classify (to_input r read.parsed (status_of read.transaction));
      simulation = read.simulation;
      transaction = read.transaction;
      polled = read.command;
      warnings = [];
    }

-- A simulate under `--broadcast` that left as a command: the execute step can never start.
abbrev pub closes : Bool → String → Result → Bool
closes broadcast name r = broadcast && (name == step_simulate && eqb r.meta.status 202)

-- From the recorded answer on.
abbrev pub recorded :
    Env
    → StepWorld
    → Bool
    → String
    → Handle × Option LedgerError
    → Flag
    → List (Option Bytes × String)
    → Result
    → Performed
recorded env w broadcast name (h, some why) f sends r = record {
  handle = h;
  flag = f;
  sends = sends;
  ended = Ended.unrecorded;
}
recorded env w broadcast name (h, none) f sends r =
    let a = classify_step w name r in
    let closed = call env h step_execute unreachable w.close_write in
    if closes broadcast name r
    then record {
      handle = closed.0;
      flag = f;
      sends = sends;
      ended = if is_some closed.1 then Ended.unclosed else Ended.answered a;
    }
    else record { handle = h; flag = f; sends = sends; ended = Ended.answered a }

-- From the reply on.
abbrev pub replied :
    Env
    → StepWorld
    → Bool
    → String
    → Handle
    → Flag
    → List (Option Bytes × String)
    → Option Reply
    → Performed
replied env w broadcast name h f sends none = record {
  handle = h;
  flag = f;
  sends = [];
  ended = Ended.panicked;
}
replied env w broadcast name h f sends (some (not_sent why)) = record {
  handle = h;
  flag = f;
  sends = [];
  ended = Ended.request_refused;
}
replied env w broadcast name h f sends (some (got r)) =
    if w.signal_after_send
    then record { handle = h; flag = f; sends = sends; ended = Ended.interrupted }
    else recorded env w broadcast name
        (call env h name
          (record_answer (some (stored_response w.printer w.now r))
            (some (ledger_outcome w.printer (classify_step w name r).out)))
          w.record_write)
        (on_flag (note_command (command_id r)) f) sends r

-- What is sent is what the step in memory holds after `Begin`.
abbrev pub sends_of : Option Step → List (Option Bytes × String)
sends_of none = []
sends_of (some s) = (s.body, s.idempotency_key) ∷ []

-- From the outcome of `Begin` on: nothing is sent until it returned without an error.
abbrev pub after_begin :
    Env → StepWorld → Bool → String → Flag → Handle × Option LedgerError → Performed
after_begin env w broadcast name f (h, some why) = unsent h f (Ended.begin_failed why)
after_begin env w broadcast name f (h, none) =
    replied env w broadcast name h (on_flag mark_sent f) (sends_of (find_step name h.run.steps))
      w.reply

-- From the consent on.
abbrev pub send_step : Env → StepWorld → Bool → String → Option Bytes → Handle → Flag → Performed
send_step env w broadcast name body h f =
    if w.signal_before_send
    then unsent h f Ended.interrupted
    else after_begin env w broadcast name f (call env h name (begin body) w.begin_write)

abbrev pub on_asked :
    Env → StepWorld → Bool → String → Option Bytes → Flag → Step → Handle × Asked → Performed
on_asked env w broadcast name body f s (h, error) = unsent h f Ended.consent_failed
on_asked env w broadcast name body f s (h, verdict granted) =
    send_step env w broadcast name body h f
on_asked env w broadcast name body f s (h, verdict declined) = declined_by_human env w name h f
on_asked env w broadcast name body f s (h, verdict unavailable) = no_consent h f s

abbrev pub on_step_found :
    Env → StepWorld → Bool → String → Option Bytes → Handle → Flag → Option Step → Performed
on_step_found env w broadcast name body h f none = unsent h f Ended.no_step
on_step_found env w broadcast name body h f (some s) =
    if name == step_execute
    then on_asked env w broadcast name body f s
        (ask w.request w.terminal (before_prompt env w name) h)
    else send_step env w broadcast name body h f

-- `perform`, up to `followUp`.
unfoldable pub perform_step :
    Env → StepWorld → Bool → String → Option Bytes → Handle → Flag → Performed
perform_step env w broadcast name body h f =
    on_step_found env w broadcast name body h f (find_step name h.run.steps)
