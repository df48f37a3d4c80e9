-- ===== src/Api/Client/Overflow.antt =====
-- Where the wait does not fit a duration.
use ferry_cli.Base.{ℕ, zero, suc, ◌+◌, ◌≤◌, ◌<◌, ◌≡◌, refl, true, false, none, arith}
use ferry_cli.Outcome.Operation.{OpClass}
use ferry_cli.Api.Duration.{max_seconds, seconds, past, sleep}
use ferry_cli.Api.Meta.{retry_delay_seconds}
use ferry_cli.Api.Retry.{retryable}
use ferry_cli.Api.Client.{
  Request, Result, World, Client, running, budget_of, is_final, code_of, send_loop,
}
use ferry_cli.Api.Client.Budget.{answered}

-- A number of seconds whose nanoseconds, taken as 64 bits, are negative.
abbrev pub wraps_above : ℕ
wraps_above = 18_446_744_073

negative_wait :
    (n budget : ℕ)
    → max_seconds < n
    → n ≤ wraps_above
    → (past 0 (seconds n) budget ≡ false) × (sleep 0 (seconds n) ≡ 0)
unfolding seconds past sleep
negative_wait n budget lo hi = ground arith

-- An answer that may be resent, after a wait of that many seconds.
pub record IsNegativeWait (class : OpClass) (r : Result) : Type 0 where
  pub answered : r.transport ≡ none
  pub again : retryable class r.meta.status (code_of r.envelope) r.meta.command_id ≡ true
  pub long : max_seconds < retry_delay_seconds r.meta
  pub short : retry_delay_seconds r.meta ≤ wraps_above

negative_wait_final :
    (class : OpClass) (budget : ℕ) (r : Result)
    → IsNegativeWait class r
    → (is_final class budget 0 r ≡ false) × (sleep 0 (seconds (retry_delay_seconds r.meta)) ≡ 0)
unfolding is_final
negative_wait_final class budget r h =
    ground (arith, negative_wait (retry_delay_seconds r.meta) budget h.long h.short)

-- If every answer may be resent and asks for a wait of 9223372037 to 18446744073 seconds, and the
-- sends take no time, the loop never ends and never waits: whatever the fuel, it is still running.
pub send_loop-overflow :
    (w : World) (c : Client) (req : Request) (class : OpClass)
    → ((n : ℕ) → IsNegativeWait class (answered w c req n))
    → ((n : ℕ) → w.lapse n ≡ 0)
    → (fuel sent : ℕ) → send_loop w c req class fuel sent 0 ≡ running
unfolding send_loop
send_loop-overflow w c req class long instant zero sent = refl
send_loop-overflow w c req class long instant (suc fuel) sent =
    let now : 0 + w.lapse sent ≡ 0 = omega (arith, instant sent) in
    let (again, no_sleep) =
      negative_wait_final class (budget_of c) (answered w c req sent) (long sent) in
    rw (now, again, no_sleep) (send_loop-overflow w c req class long instant fuel (sent + 1))
