-- ===== src/Poll/Watch/Rounds.antt =====
-- What one round of the loop is.
use ferry_cli.Base.{
  ℕ, ◌+◌, ◌≤◌, ◌<◌, String, ◌≡◌, ◌≢◌, refl, ap, sym, ◌∙◌, Bool, true, false, ◌&&◌, not, Option,
  none, some, ltb, arith, ◌⊎◌, inl, inr, Bool-cases, contains,
}
use ferry_cli.Outcome.Class.{Class}
use ferry_cli.Outcome.Classify.{classify}
use ferry_cli.Outcome.Command.{classify_command}
use ferry_cli.Outcome.Command.Terminal.{moving_states, classify_command_pending}
use ferry_cli.Api.Duration.{seconds, before}
use ferry_cli.Api.Client.{Result, to_input}
use ferry_cli.Poll.Body.{Command, command_input, command_delay_seconds}
use ferry_cli.Poll.Watch.{
  Reply, not_sent, got, Check, PollWorld, Seen, Watched, no_command_id, stopped, interrupted,
  failed, watching, Loop, Round, stop, again, timed_out_outcome, decode_reply, is_class_pending,
  after_decode, after_send_round, counted, waited, round,
}

-- The deadline stopped the loop: the wait that the loop `l` has before it would not end in time.
pub record IsTimedOut (id : String) (deadline : ℕ) (l : Loop) (s : Seen) : Type 0 where
  pub has_wait : 0 < l.delay
  pub too_late : before l.now (seconds l.delay) deadline ≡ false
  pub seen_is : s ≡ record l.seen { timed_out = true; outcome = some (timed_out_outcome id) }

-- The reply to the poll of the loop `l`, which is the last one seen.
pub record IsReplied (w : PollWorld) (l : Loop) (s : Seen) (reply : Result) : Type 0 where
  pub replied : w.reply l.seen.polls ≡ got reply
  pub last_is : s.last ≡ some reply
  pub counted : s.polls ≡ l.seen.polls + 1
  pub in_time : s.timed_out ≡ l.seen.timed_out

-- A reply that is no command stopped the loop: it is classified as a read without a body.
pub record IsUnreadable (w : PollWorld) (l : Loop) (s : Seen) : Type 0 where
  pub flagged : s.unreadable ≡ true
  pub reply : Result
  pub is_replied : IsReplied w l s reply
  pub undecoded : decode_reply w.parse reply ≡ none
  pub outcome_is : s.outcome ≡ some (classify (to_input reply false ""))

-- A command still moves: no contradiction, and a state in which it may move.
pub record IsMoving (c : Command) : Type 0 where
  pub no_contradiction : (command_input c).contradiction ≡ false
  pub moving : contains c.state moving_states ≡ true

-- The command of the last reply stopped the loop, since it does not move.
pub record IsSettled (w : PollWorld) (l : Loop) (s : Seen) : Type 0 where
  pub reply : Result
  pub command : Command
  pub is_replied : IsReplied w l s reply
  pub decoded : decode_reply w.parse reply ≡ some command
  pub command_is : s.command ≡ some command
  pub outcome_is : s.outcome ≡ some (classify_command (command_input command))
  pub not_pending : (classify_command (command_input command)).class ≢ Class.pending
  pub stands : ¬ (IsMoving command)

-- The wait of the loop `l`, if it has one, ends before the deadline.
abbrev pub IsInTime : ℕ → Loop → Type 0
IsInTime deadline l = 0 < l.delay → before l.now (seconds l.delay) deadline ≡ true

-- What holds of a return from the loop `l`.
abbrev pub IsStop : PollWorld → String → ℕ → Loop → Watched → Type 0
IsStop w id deadline l no_command_id = ⊥
IsStop w id deadline l (stopped s) =
    IsTimedOut id deadline l s ⊎ (IsInTime deadline l × (IsUnreadable w l s ⊎ IsSettled w l s))
IsStop w id deadline l (interrupted s) =
    IsInTime deadline l × (c : Check) × (w.signal l.seen.polls c ≡ true)
IsStop w id deadline l (failed s why) =
    IsInTime deadline l × (w.reply l.seen.polls ≡ not_sent why) × (s ≡ l.seen)
IsStop w id deadline l watching = ⊥

-- What holds when the loop goes round again.
pub record IsNext (w : PollWorld) (id : String) (deadline : ℕ) (l next : Loop) : Type 0 where
  pub reply : Result
  pub command : Command
  pub replied : w.reply l.seen.polls ≡ got reply
  pub decoded : decode_reply w.parse reply ≡ some command
  pub moving : IsMoving command
  pub in_time : IsInTime deadline l
  pub delay_is : next.delay ≡ command_delay_seconds command
  pub later : (waited id l).now ≤ next.now
  pub counted : next.seen.polls ≡ l.seen.polls + 1

-- The loops that rounds lead to, from the first to the second.
pub data IsReached (w : PollWorld) (id : String) (deadline : ℕ) : Loop → Loop → Type 0 where
  here : (l : Loop) → IsReached w id deadline l l
  next_round :
      (l next end : Loop)
      → IsNext w id deadline l next
      → IsReached w id deadline next end
      → IsReached w id deadline l end

abbrev pub IsRound : PollWorld → String → ℕ → Loop → Round → Type 0
IsRound w id deadline l (stop e) = IsStop w id deadline l e
IsRound w id deadline l (again next) = IsNext w id deadline l next

moves : (c : Command) → is_class_pending (classify_command (command_input c)) ≡ true → IsMoving c
unfolding command_input
moves c e =
    let (clear, moving) : ((command_input c).contradiction ≡ false)
        × (contains c.state moving_states ≡ true) =
      ground (arith, classify_command_pending (command_input c)) in
    record { no_contradiction = clear; moving = moving }

stands_still :
    (c : Command)
    → is_class_pending (classify_command (command_input c)) ≡ false
    → ((classify_command (command_input c)).class ≢ Class.pending) × ¬ (IsMoving c)
unfolding command_input
stands_still c e = (
  ground arith,
  λ m.
      let p : (classify_command (command_input c)).class ≡ Class.pending =
        (classify_command_pending (command_input c)).1.1 (m.no_contradiction, m.moving) in
      ground arith,
)

module _ (w : PollWorld) (id : String) (deadline : ℕ) (l : Loop)
    (in_time : IsInTime deadline l) where
  after_decode-IsRound :
      (r : Result) (m : Loop) (o : Option Command)
      → w.reply l.seen.polls ≡ got r
      → m.seen.last ≡ some r
      → m.seen.polls ≡ l.seen.polls + 1
      → m.seen.timed_out ≡ l.seen.timed_out
      → (waited id l).now ≤ m.now
      → decode_reply w.parse r ≡ o
      → IsRound w id deadline l (after_decode m r o)
  after_decode-IsRound r m none replied last count timed late e = inr (
    in_time,
    inl (record {
      flagged = refl;
      reply = r;
      is_replied = record { replied = replied; last_is = last; counted = count; in_time = timed };
      undecoded = e;
      outcome_is = refl;
    }),
  )
  after_decode-IsRound r m (some c) replied last count timed late e =
      elim (Bool-cases (is_class_pending (classify_command (command_input c)))) [
        | inl p ↦ rw p (record {
          reply = r;
          command = c;
          replied = replied;
          decoded = e;
          moving = moves c p;
          in_time = in_time;
          delay_is = refl;
          later = late;
          counted = count;
        })
        | inr p ↦ rw p (
            inr (
              in_time,
              inr (record {
                reply = r;
                command = c;
                is_replied = record {
                  replied = replied;
                  last_is = last;
                  counted = count;
                  in_time = timed;
                };
                decoded = e;
                command_is = refl;
                outcome_is = refl;
                not_pending = (stands_still c p).0;
                stands = (stands_still c p).1;
              }),
            ))
      ]

  after_send-IsRound :
      (m : Loop) (a : Reply)
      → m.seen ≡ l.seen
      → (waited id l).now ≤ m.now
      → w.reply l.seen.polls ≡ a
      → IsRound w id deadline l (after_send_round w m a)
  after_send-IsRound m (not_sent why) same late e = (in_time, e, same)
  after_send-IsRound m (got r) same late e =
      elim (Bool-cases (w.signal m.seen.polls Check.after_send)) [
        | inl sig ↦ rw sig (
          in_time,
          Check.after_send,
          ap (λ s. w.signal s.polls Check.after_send) (sym same) ∙ sig,
        )
        | inr quiet ↦ rw quiet (
            after_decode-IsRound r (counted w m r) (decode_reply w.parse r) e refl
              (ap (λ s. s.polls + 1) same) (ap (λ s. s.timed_out) same) (omega arith) refl)
      ]

waited-seen : (id : String) (l : Loop) → (waited id l).seen ≡ l.seen
waited-seen id l = elim (Bool-cases (ltb 0 l.delay)) [ inl e ↦ rw e refl | inr e ↦ rw e refl ]

waited_in_time : (b : Bool) (n : ℕ) → (ltb 0 n && not b) ≡ false → 0 < n → b ≡ true
waited_in_time b n = ground arith

round-IsRound :
    (w : PollWorld) (id : String) (deadline : ℕ) (l : Loop)
    → IsRound w id deadline l (round w id deadline l)
unfolding round
round-IsRound w id deadline l =
    elim (Bool-cases (ltb 0 l.delay && not (before l.now (seconds l.delay) deadline))) [
      | inl e ↦
          rw e (inl (record { has_wait = ground arith; too_late = ground arith; seen_is = refl }))
      | inr e ↦ rw e (elim (Bool-cases (ltb 0 l.delay && w.signal l.seen.polls Check.before_wait)) [
        | inl s ↦ rw s (waited_in_time _ l.delay e, Check.before_wait, ground arith)
        | inr s ↦ rw s (elim (Bool-cases (w.signal l.seen.polls Check.before_send)) [
          | inl t ↦ rw t (waited_in_time _ l.delay e, Check.before_send, t)
          | inr t ↦ rw t (
              after_send-IsRound w id deadline l (waited_in_time _ l.delay e) (waited id l) _
                (waited-seen id l) (omega arith) refl)
        ])
      ])
    ]

pub round_is :
    (w : PollWorld) (id : String) (deadline : ℕ) (l : Loop) (r : Round)
    → round w id deadline l ≡ r
    → IsRound w id deadline l r
round_is w id deadline l r e = rw (sym e) (round-IsRound w id deadline l)
