-- ===== src/Transfers/Follow.antt =====
-- internal/noun/transfers/money.go: `followUp`, `pollTarget` and `recordPoll`, and `perform` as a whole.
pub mod Keeps
use ferry_cli.Base.{
  ℕ, ◌+◌, ◌*◌, String, ◌==◌, Bool, ◌||◌, not, Option, none, some, [], ◌∷◌, ◌++◌, eqb, ltb,
  if◌then◌else◌, is_some, ℤ, pos, negsuc, str,
}
use ferry_cli.Outcome.Class.{Class, Outcome, new_outcome}
use ferry_cli.Api.Duration.{nanosecond}
use ferry_cli.Api.Target.{Bytes}
use ferry_cli.Api.Meta.{retry_delay_seconds}
use ferry_cli.Api.Envelope.{ApiEnvelope}
use ferry_cli.Api.Client.{Result}
use ferry_cli.Poll.Body.{Command, ResultBody, command_delay_seconds}
use ferry_cli.Poll.Watch.{
  PollWorld, Seen, Watched, no_command_id, stopped, interrupted, failed, watching, watch,
}
use ferry_cli.Cli.{Flag}
use ferry_cli.Runs.Ledger.{Env, Write, LedgerError, Handle, call}
use ferry_cli.Runs.Ledger.LedgerOp.{record_answer}
use ferry_cli.Transfers.World.{
  Transaction, answer_of, Printer, StepWorld, Answer, Ended, Performed, ledger_outcome,
  stored_response, command_id,
}
use ferry_cli.Transfers.Perform.{perform_step}

-- What following a command meets: the options, the instants at which the loop starts and its end is
-- recorded, the replies to the polls with the fuel for them, and what the write of the record does.
pub record FollowWorld : Type 0 where
  pub no_wait : Bool
  pub timeout : ℤ
  pub started : ℕ
  pub recorded_at : ℕ
  pub polls : PollWorld
  pub fuel : ℕ
  pub poll_write : Write

-- `DefaultTimeout`.
abbrev default_timeout : ℕ
default_timeout = 120 * nanosecond

-- A timeout that is not positive is the default one.
abbrev pub timeout_of : ℤ → ℕ
timeout_of (pos n) = if ltb 0 n then n else default_timeout
timeout_of (negsuc n) = default_timeout

abbrev polled_delay : Option Command → ℕ
polled_delay none = 5
polled_delay (some c) = command_delay_seconds c

abbrev target_delay : Answer → ℕ
target_delay a = elim a.res.meta.retry_after [
  | none ↦ polled_delay a.polled
  | some n ↦ retry_delay_seconds a.res.meta
]

abbrev is_busy : String → Bool
is_busy code = code == "UPSTREAM_BUSY" || code == "IDEMPOTENCY_KEY_IN_PROGRESS"

abbrev busy_target : String → ℕ → Option ApiEnvelope → Option (String × ℕ)
busy_target id delay none = none
busy_target id delay (some e) = if is_busy e.code then some (id, delay) else none

-- `pollTarget`.
unfoldable pub poll_target : Answer → Option (String × ℕ)
poll_target a =
    let id = command_id a.res in
    if id == ""
    then none
    else if eqb a.res.meta.status 202
    then some (id, target_delay a)
    else busy_target id (target_delay a) a.res.envelope

-- The outcome of a command that could not be read.
abbrev unread_outcome : String → Outcome
unread_outcome id =
    new_outcome Class.pending
      (str
          "The command could not be read while it was being followed, so its outcome is not established. Follow it with `ferry commands watch "
        ∷ str id
        ∷ str "`."
        ∷ [])
      []

-- `a.out`, where a loop that stopped has always seen an outcome.
abbrev followed_outcome : String → Seen → Outcome → Outcome
followed_outcome id seen out =
    if seen.unreadable then unread_outcome id else elim seen.outcome [ none ↦ out | some o ↦ o ]

-- `a.last`.
abbrev followed_last : Option Result → Result → Result
followed_last none last = last
followed_last (some r) last = if not (eqb r.meta.status 0) || is_some r.transport then r else last

abbrev body_transaction : Option ResultBody → Option Transaction → Option Transaction
body_transaction none t = t
body_transaction (some (ResultBody.transaction s)) t =
    some (record { object = "transaction"; status = s })
body_transaction (some ResultBody.simulation) t = none

-- `a.txn`.
abbrev followed_transaction : Option Command → Option Transaction → Option Transaction
followed_transaction none t = t
followed_transaction (some c) t = elim c.result [ none ↦ t | some r ↦ body_transaction r.body t ]

-- The answer with what the loop saw.
unfoldable pub followed : String → Seen → Answer → Answer
followed id seen a = record a {
  out = followed_outcome id seen a.out;
  last = followed_last seen.last a.last;
  transaction = followed_transaction seen.command a.transaction;
  polled = seen.command;
}

abbrev on_recorded : Answer → Handle × Option LedgerError → Handle × Ended
on_recorded a (h, none) = (h, Ended.answered a)
on_recorded a (h, some why) = (h, Ended.poll_unrecorded)

-- `recordPoll`.
unfoldable pub record_poll : Env → Printer → FollowWorld → String → Handle → Answer → Handle × Ended
record_poll env p w name h a =
    if is_some a.polled
    then on_recorded a (
        call env h name
          (record_answer (some (stored_response p w.recorded_at a.last))
            (some (ledger_outcome p a.out)))
          w.poll_write)
    else (h, Ended.answered a)

abbrev on_watched :
    Env → Printer → FollowWorld → String → Handle → Answer → String → Watched → Handle × Ended
on_watched env p w name h a id no_command_id = (h, Ended.unfollowed)
on_watched env p w name h a id (stopped seen) = record_poll env p w name h (followed id seen a)
on_watched env p w name h a id (interrupted seen) = (h, Ended.interrupted)
on_watched env p w name h a id (failed seen why) = (h, Ended.unfollowed)
on_watched env p w name h a id watching = (h, Ended.still_polling)

-- The answer of an invocation that does not wait.
abbrev unwaited : String → Answer → Answer
unwaited id a = record a {
  warnings =
      a.warnings
      ++ (str "--no-wait: command " ∷ str id ∷ str " was not followed to a terminal state" ∷ [])
        ∷ [];
}

-- The loop, called with the delay and the deadline that `followUp` gives it.
unfoldable pub watch_target : FollowWorld → String → ℕ → Watched
watch_target w id delay =
    watch w.polls id (pos delay) (w.started + timeout_of w.timeout) w.started w.fuel

abbrev pub on_target :
    Env → Printer → FollowWorld → String → Handle → Answer → Option (String × ℕ) → Handle × Ended
on_target env p w name h a none = (h, Ended.answered a)
on_target env p w name h a (some (id, delay)) =
    if w.no_wait
    then (h, Ended.answered (unwaited id a))
    else on_watched env p w name h a id (watch_target w id delay)

-- `followUp`.
unfoldable pub follow_up : Env → Printer → FollowWorld → String → Handle → Answer → Handle × Ended
follow_up env p w name h a = on_target env p w name h a (poll_target a)

abbrev pub after_step : Env → Printer → FollowWorld → String → Performed → Option Answer → Performed
after_step env p w name done none = done
after_step env p w name done (some a) =
    let next = follow_up env p w name done.handle a in
    record done { handle = next.0; ended = next.1 }

-- `perform`, the following of its command included.
unfoldable pub perform :
    Env → StepWorld → FollowWorld → Bool → String → Option Bytes → Handle → Flag → Performed
perform env w fw broadcast name body h f =
    let done = perform_step env w broadcast name body h f in
    after_step env w.printer fw name done (answer_of done.ended)
