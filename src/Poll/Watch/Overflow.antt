-- ===== src/Poll/Watch/Overflow.antt =====
-- Where the wait that a command asks for does not fit a duration.
use ferry_cli.Base.{
  ℕ, zero, suc, ◌≤◌, ◌<◌, String, ◌≡◌, refl, true, false, some, arith, lt→ltb, ==_ne, ◌∙◌, pos, ◌≢◌,
}
use ferry_cli.Outcome.Command.{classify_command}
use ferry_cli.Api.Duration.{max_seconds, seconds, before, sleep}
use ferry_cli.Api.Client.{Result}
use ferry_cli.Api.Client.Overflow.{wraps_above}
use ferry_cli.Poll.Body.{Command, command_input, command_delay_seconds}
use ferry_cli.Poll.Watch.{
  got, Check, PollWorld, watching, Loop, again, decode_reply, is_class_pending, round, follow,
  start, watch,
}
use ferry_cli.Poll.Watch.Ends.{follow_again}

-- Every poll at once brings the same moving command, no signal comes, and the wait that the command
-- asks for is negative as a duration.
pub record IsBusyForever (w : PollWorld) (r : Result) (c : Command) : Type 0 where
  pub replies : (n : ℕ) → w.reply n ≡ got r
  pub decodes : decode_reply w.parse r ≡ some c
  pub pending : is_class_pending (classify_command (command_input c)) ≡ true
  pub at_once : (n : ℕ) → w.lapse n ≡ 0
  pub quiet : (n : ℕ) (k : Check) → w.signal n k ≡ false
  pub long : max_seconds < command_delay_seconds c
  pub short : command_delay_seconds c ≤ wraps_above

negative_wait :
    (n now deadline : ℕ)
    → now < deadline
    → max_seconds < n
    → n ≤ wraps_above
    → (before now (seconds n) deadline ≡ true) × (sleep now (seconds n) ≡ now)
unfolding seconds before sleep
negative_wait n now deadline t lo hi = ground arith

round_busy :
    (w : PollWorld) (id : String) (r : Result) (c : Command) (deadline : ℕ) (l : Loop)
    → IsBusyForever w r c
    → l.now < deadline
    → max_seconds < l.delay
    → l.delay ≤ wraps_above
    → (next : Loop) × (round w id deadline l ≡ again next)
      × (next.now ≡ l.now)
      × (next.delay ≡ command_delay_seconds c)
unfolding round
round_busy w id r c deadline l h t lo hi =
    let (early, still) = negative_wait l.delay l.now deadline t lo hi in
    rw
      (
        lt→ltb 0 l.delay (omega arith),
        early,
        h.quiet l.seen.polls Check.before_wait,
        h.quiet l.seen.polls Check.before_send,
        h.replies l.seen.polls,
        h.quiet l.seen.polls Check.after_send,
        h.decodes,
        h.pending,
      )
      (_, refl, omega (arith, still, h.at_once l.seen.polls), refl)

follow-overflow :
    (w : PollWorld) (id : String) (r : Result) (c : Command) (deadline : ℕ)
    → IsBusyForever w r c
    → (fuel : ℕ) (l : Loop) → l.now < deadline
    → max_seconds < l.delay
    → l.delay ≤ wraps_above
    → follow w id deadline fuel l ≡ watching
unfolding follow
follow-overflow w id r c deadline h zero l t lo hi = refl
follow-overflow w id r c deadline h (suc fuel) l t lo hi =
    let (next, is, now, delay) = round_busy w id r c deadline l h t lo hi in
    follow_again w id deadline fuel l next is
    ∙ follow-overflow w id r c deadline h fuel next (omega (arith, now))
        (omega (arith, delay, h.long)) (omega (arith, delay, h.short))

-- If every poll at once brings a moving command that asks for a wait of 9223372037 to 18446744073
-- seconds, and `Watch` was given such a wait too, it never returns and never waits before the
-- deadline: whatever the fuel, it is still watching.
pub watch-overflow :
    (w : PollWorld) (id : String) (r : Result) (c : Command) (n deadline now fuel : ℕ)
    → IsBusyForever w r c
    → id ≢ ""
    → now < deadline
    → max_seconds < n
    → n ≤ wraps_above
    → watch w id (pos n) deadline now fuel ≡ watching
unfolding watch
watch-overflow w id r c n deadline now fuel h named t lo hi =
    rw (==_ne id "" named) (follow-overflow w id r c deadline h fuel (start (pos n) now) t lo hi)
