-- ===== src/Api/Duration.antt =====
-- `time.Duration`: a signed 64-bit count of nanoseconds, and the clock arithmetic of the two loops
-- that wait (internal/api/client.go, internal/poll/poll.go). Instants are nanoseconds from the start of
-- the loop.
use ferry_cli.Base.{
  ℕ, ◌+◌, ◌-◌, ◌*◌, ◌%◌, ◌^◌, ◌≤◌, ◌≡◌, Bool, arith, ltb, if◌then◌else◌, ℤ, pos, negsuc,
}

abbrev pub nanosecond : ℕ
nanosecond = 1_000_000_000

-- The signed value of a 64-bit pattern.
abbrev pub signed_64 : ℕ → ℤ
signed_64 v = if ltb v (2 ^ 63) then pos v else negsuc (2 ^ 64 - 1 - v)

-- `time.Duration(n) * time.Second`: the product wraps around.
unfoldable pub seconds : ℕ → ℤ
seconds n = signed_64 (n * nanosecond % 2 ^ 64)

-- The difference of two instants is held to the largest duration.
abbrev pub saturated : ℕ → ℕ
saturated n = if ltb n (2 ^ 63) then n else 2 ^ 63 - 1

-- `now.Add(d).Sub(started) > budget`, where `now` counts from `started`.
unfoldable pub past : ℕ → ℤ → ℕ → Bool
past now (pos d) budget = ltb budget (saturated (now + d))
past now (negsuc d) budget = ltb budget (saturated (now - (d + 1)))

-- `now.Add(d).Before(deadline)`.
unfoldable pub before : ℕ → ℤ → ℕ → Bool
before now (pos d) deadline = ltb (now + d) deadline
before now (negsuc d) deadline = ltb now (deadline + (d + 1))

-- The instant after `Sleep(d)`: a negative duration is no sleep.
unfoldable pub sleep : ℕ → ℤ → ℕ
sleep now (pos d) = now + d
sleep now (negsuc d) = now

-- The largest number of seconds that a duration holds.
abbrev pub max_seconds : ℕ
max_seconds = 9_223_372_036

pub seconds_small : (n : ℕ) → n ≤ max_seconds → seconds n ≡ pos (n * nanosecond)
unfolding seconds
seconds_small n h = ground arith
