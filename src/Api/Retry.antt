-- ===== src/Api/Retry.antt =====
-- internal/api/retry.go: which answers may be resent, byte for byte, under the same key.
use ferry_cli.Base.{ℕ, String, ◌==◌, ◌*◌, Bool, true, false, ◌||◌, not, ltb, eqb, if◌then◌else◌}
use ferry_cli.Outcome.Operation.{OpClass, is_money}
use ferry_cli.Api.Duration.{nanosecond}

-- `DefaultRetryBudget`, in nanoseconds.
abbrev pub default_retry_budget : ℕ
default_retry_budget = 60 * nanosecond

abbrev pub fixture_unmatched : ℕ
fixture_unmatched = 599

abbrev is_create : OpClass → Bool
is_create OpClass.control_create = true
is_create _ = false

-- The switch on the code of a 5xx.
abbrev retryable_code : OpClass → String → String → Bool
retryable_code class code command_id =
    if code == "UPSTREAM_BUSY"
    then command_id == ""
    else if code == "SERVICE_UNAVAILABLE"
        || (code == "UPSTREAM_AUTH_UNAVAILABLE" || code == "INTERNAL_ERROR")
    then true
    else if code == "UPSTREAM_UNAVAILABLE"
        || (code == "UPSTREAM_NOT_CONFIGURED" || code == "UPSTREAM_CREDENTIALS_INVALID")
    then false
    else not (is_money class)

-- `Retryable`.
unfoldable pub retryable : OpClass → ℕ → String → String → Bool
retryable class status code command_id =
    if is_create class
    then false
    else if eqb status fixture_unmatched
    then false
    else if eqb status 429
    then true
    else if ltb status 500
    then false
    else retryable_code class code command_id
