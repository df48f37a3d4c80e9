-- ===== src/Poll/Watch.antt =====
-- internal/poll/poll.go: `Watch`, the loop that follows a command until it stops moving.
pub mod Rounds
pub mod Ends
pub mod Overflow
use ferry_cli.Base.{
  ℕ, zero, suc, ◌+◌, String, ◌==◌, Bool, true, false, ◌&&◌, not, Option, none, some, List, [], ◌∷◌,
  ◌++◌, ltb, if◌then◌else◌, is_some, ℤ, pos, negsuc, str, int, Text,
}
use ferry_cli.Outcome.Class.{Class, Outcome, new_outcome}
use ferry_cli.Outcome.Classify.{is_2xx, classify}
use ferry_cli.Outcome.Command.{classify_command}
use ferry_cli.Api.Duration.{seconds, before, sleep}
use ferry_cli.Api.Target.{Bytes}
use ferry_cli.Api.Client.{Result, Refusal, to_input}
use ferry_cli.Poll.Body.{Command, command_input, command_delay_seconds, decode_command}

-- What one `Client.Do` comes back with.
pub data Reply : Type 0 where
  not_sent : Refusal → Reply
  got : Result → Reply

-- Where a round looks for a signal.
pub data Check : Type 0 where
  before_wait before_send after_send : Check

-- What the loop meets: the reply to the n-th poll and how long it took, whether a signal is there at
-- each check of the n-th round, and what `encoding/json` makes of a body.
pub record PollWorld : Type 0 where
  pub reply : ℕ → Reply
  pub lapse : ℕ → ℕ
  pub signal : ℕ → Check → Bool
  pub parse : Bytes → Option Command

-- `Result` of the package: what the loop saw.
pub record Seen : Type 0 where
  pub command : Option Command
  pub body : Bytes
  pub last : Option Result
  pub outcome : Option Outcome
  pub polls : ℕ
  pub timed_out : Bool
  pub unreadable : Bool

abbrev pub nothing_seen : Seen
nothing_seen = record {
  command = none;
  body = [];
  last = none;
  outcome = none;
  polls = 0;
  timed_out = false;
  unreadable = false;
}

-- How `Watch` returns: with what it saw and no error, with an error, or not yet.
pub data Watched : Type 0 where
  no_command_id : Watched
  stopped : Seen → Watched
  interrupted : Seen → Watched
  failed : Seen → Refusal → Watched
  watching : Watched

-- The variables of the loop, with the lines it has reported.
pub record Loop : Type 0 where
  pub seen : Seen
  pub delay : ℕ
  pub previous_state : String
  pub now : ℕ
  pub progress : List Text

-- One round: the loop returns, or goes round again.
pub data Round : Type 0 where
  stop : Watched → Round
  again : Loop → Round

-- `timedOut`.
unfoldable pub timed_out_outcome : String → Outcome
timed_out_outcome id =
    new_outcome Class.pending
      (str
          "The command did not reach a terminal state before this invocation's timeout, so its outcome is not established. Money may or may not have moved — do not resend under a new key. Follow it with `ferry commands watch "
        ∷ str id
        ∷ str "`."
        ∷ [])
      []

-- `decode`.
unfoldable pub decode_reply : (Bytes → Option Command) → Result → Option Command
decode_reply parse r =
    if is_some r.transport
    then none
    else if is_2xx r.meta.status
    then decode_command (parse r.body)
    else none

-- The line on a new state.
abbrev state_line : Command → String → List Text
state_line c previous =
    if c.state == previous then [] else (str c.id ∷ str " is " ∷ str c.state ∷ []) ∷ []

abbrev pub is_class_pending : Outcome → Bool
is_class_pending o = elim o.class [ Class.pending ↦ true | _ ↦ false ]

-- The rest of a round, once a reply was decoded or was not.
abbrev pub after_decode : Loop → Result → Option Command → Round
after_decode l r none =
    stop (
      stopped
        (record l.seen { unreadable = true; outcome = some (classify (to_input r false "")) }))
after_decode l r (some c) =
    let out = classify_command (command_input c) in
    let seen = record l.seen { command = some c; body = r.body; outcome = some out } in
    if is_class_pending out
    then again (record {
      seen = seen;
      delay = command_delay_seconds c;
      previous_state = c.state;
      now = l.now;
      progress = l.progress ++ state_line c l.previous_state;
    })
    else stop (stopped seen)

-- The loop with a poll counted.
abbrev pub counted : PollWorld → Loop → Result → Loop
counted w l r = record l {
  seen = record l.seen { polls = l.seen.polls + 1; last = some r };
  now = l.now + w.lapse l.seen.polls;
}

-- The rest of a round from the reply on; `l` is the loop before the poll.
abbrev pub after_send_round : PollWorld → Loop → Reply → Round
after_send_round w l (not_sent why) = stop (failed l.seen why)
after_send_round w l (got r) =
    if w.signal l.seen.polls Check.after_send
    then stop (interrupted (counted w l r).seen)
    else after_decode (counted w l r) r (decode_reply w.parse r)

abbrev pub waited : String → Loop → Loop
waited id l =
    if ltb 0 l.delay
    then record l {
      now = sleep l.now (seconds l.delay);
      progress =
          l.progress ++ (str "waiting " ∷ int l.delay ∷ str "s before polling " ∷ str id ∷ []) ∷ [];
    }
    else l

-- One round of the loop.
unfoldable pub round : PollWorld → String → ℕ → Loop → Round
round w id deadline l =
    if ltb 0 l.delay && not (before l.now (seconds l.delay) deadline)
    then stop (stopped (record l.seen { timed_out = true; outcome = some (timed_out_outcome id) }))
    else if ltb 0 l.delay && w.signal l.seen.polls Check.before_wait
    then stop (interrupted l.seen)
    else if w.signal l.seen.polls Check.before_send
    then stop (interrupted l.seen)
    else after_send_round w (waited id l) (w.reply l.seen.polls)

unfoldable pub follow : PollWorld → String → ℕ → ℕ → Loop → Watched
follow w id deadline zero l = watching
follow w id deadline (suc fuel) l = elim (round w id deadline l) [
  | stop end ↦ end
  | again next ↦ follow w id deadline fuel next
]

-- A wait that is not positive is no wait.
abbrev pub initial_wait : ℤ → ℕ
initial_wait (pos n) = n
initial_wait (negsuc n) = 0

abbrev pub start : ℤ → ℕ → Loop
start initial_delay now = record {
  seen = nothing_seen;
  delay = initial_wait initial_delay;
  previous_state = "";
  now = now;
  progress = [];
}

-- `Watch`, called at the instant `now`.
unfoldable pub watch : PollWorld → String → ℤ → ℕ → ℕ → ℕ → Watched
watch w id initial_delay deadline now fuel =
    if id == "" then no_command_id else follow w id deadline fuel (start initial_delay now)
