-- ===== src/Keys/Lifetime.antt =====
-- The lifetimes that `--expires-in` names in days.
use ferry_cli.Base.{
  ℕ, ◌-◌, ◌*◌, ◌^◌, ◌≤◌, ◌<◌, ◌≡◌, ◌∙◌, ap, false, some, arith, leb, eqb, if◌then◌else◌, ℤ, pos,
  negsuc,
}
use ferry_cli.Api.Target.{Bytes}
use ferry_cli.Api.Meta.{signed}
use ferry_cli.Keys.{
  Formats, unsnoc, day, scaled, counted_units, lifetime_of, parse_lifetime, opened,
}

-- The days that a duration holds, and those whose product is less than 2^64 nanoseconds.
abbrev pub max_days : ℕ
max_days = 106_751

abbrev pub wraps_to : ℕ
wraps_to = 213_503

-- The duration that n days come to: beyond `max_days` it is negative.
abbrev pub of_days : ℕ → ℤ
of_days n = if leb n max_days then pos (n * day) else negsuc (2 ^ 64 - 1 - n * day)

scaled_days : (n : ℕ) → n ≤ wraps_to → scaled n day ≡ of_days n
scaled_days n h = ground arith

not_zero : (n : ℕ) → 0 < n → eqb n 0 ≡ false
not_zero n h = ground arith

counted_days :
    (n : ℕ) → 0 < n → n ≤ wraps_to → counted_units day (some (pos n)) ≡ opened (of_days n)
counted_days n h k = rw (not_zero n h) (ap opened (scaled_days n k))

-- A number of days up to 106751 is the duration that it says; from 106752 to 213503 days the product
-- does not fit a duration, and the lifetime is accepted as a negative one, which has passed.
pub parse_lifetime-days :
    (l : Formats) (raw before : Bytes) (n : ℕ)
    → unsnoc (l.trim raw) ≡ some (before, 100)
    → signed before ≡ some (pos n)
    → 0 < n
    → n ≤ wraps_to
    → parse_lifetime l raw ≡ opened (of_days n)
unfolding parse_lifetime
parse_lifetime-days l raw before n e f h k =
    ap (lifetime_of l (l.trim raw)) e ∙ (ap (counted_units day) f ∙ counted_days n h k)
