-- ===== src/Cli/Honest.antt =====
-- The wrapper never says that nothing was sent once a request may have left.
use ferry_cli.Base.{
  ◌≡◌, ◌≢◌, Bool, true, false, Option, none, some, List, [], ◌∷◌, arith, ◌⊎◌, inl, inr, Bool-cases,
}
use ferry_cli.Outcome.Class.{Class, Money, Outcome, new_outcome, properties}
use ferry_cli.Cli.{Flag, FlagOp, on_flag, on_flags, wrapper_pending, classify_failure, is_cli_fault}

on_flag-sent : (op : FlagOp) (f : Flag) → f.sent ≡ true → (on_flag op f).sent ≡ true
unfolding on_flag
on_flag-sent op f e = ground arith

-- Whatever is noted afterwards, a flag that was set stays set.
sent-on_flags : (ops : List FlagOp) (f : Flag) → f.sent ≡ true → (on_flags ops f).sent ≡ true
unfolding on_flags
sent-on_flags [] f e = e
sent-on_flags (op ∷ ops) f e = sent-on_flags ops (on_flag op f) (on_flag-sent op f e)

-- A panic, a signal, an error without an outcome, or one whose outcome is `cli_fault`.
abbrev pub IsUnestablished : Bool → Bool → Option Outcome → Type 0
IsUnestablished panicked seen known =
    (panicked ≡ true)
    ⊎ ((seen ≡ true)
        ⊎ ((known ≡ none) ⊎ ((o : Outcome) × (known ≡ some o) × (o.class ≡ Class.cli_fault))))

-- What is said of a failure under a flag that is set.
abbrev pub IsHonest : Bool → Bool → Option Outcome → Outcome → Type 0
IsHonest panicked seen known out =
    (out.class ≢ Class.cli_fault)
    × ((((out.class ≡ Class.pending) × (out.exit ≡ 6) × (out.money ≡ Money.unknown))
          × IsUnestablished panicked seen known)
        ⊎ ((panicked ≡ false) × (seen ≡ false) × (known ≡ some out)))

IsHonest-sent :
    (f : Flag) (panicked seen : Bool) (known : Option Outcome)
    → f.sent ≡ true
    → IsHonest panicked seen known (classify_failure f panicked seen known)
unfolding classify_failure wrapper_pending new_outcome properties
IsHonest-sent f panicked seen none e = ground arith
IsHonest-sent f true seen (some out) e = ground arith
IsHonest-sent f false true (some out) e = ground arith
IsHonest-sent f false false (some out) e = elim (Bool-cases (is_cli_fault out.class)) [
  | inl is ↦ rw (e, is) (ground arith)
  | inr isnt ↦ rw (e, isnt) (ground arith)
]

-- Once a request may have left, whatever the flag was told since, a failure is never classified
-- `cli_fault`: a panic, a signal, an error without an outcome and one with `cli_fault` are pending,
-- exit code 6 with the money unknown, and the outcome of any other error stands.
pub classify_failure_sent :
    (f : Flag) (ops : List FlagOp) (panicked seen : Bool) (known : Option Outcome)
    → f.sent ≡ true
    → IsHonest panicked seen known (classify_failure (on_flags ops f) panicked seen known)
classify_failure_sent f ops panicked seen known e =
    IsHonest-sent (on_flags ops f) panicked seen known (sent-on_flags ops f e)

-- What is said of a failure under a flag that is not set.
abbrev pub IsTruthful : Bool → Bool → Option Outcome → Outcome → Type 0
IsTruthful panicked seen known out =
    ((out.class ≡ Class.cli_fault)
      × ((panicked ≡ true) ⊎ ((seen ≡ true) ⊎ ((known ≡ none) ⊎ (known ≡ some out)))))
    ⊎ ((out.class ≢ Class.cli_fault) × ((panicked ≡ false) × (seen ≡ false) × (known ≡ some out)))

-- Before anything was sent, the wrapper answers `cli_fault` exactly to a panic, a
-- signal, an error without an outcome and an error with `cli_fault`, in this order; any other error
-- keeps its outcome.
pub classify_failure_unsent :
    (f : Flag) (panicked seen : Bool) (known : Option Outcome)
    → f.sent ≡ false
    → IsTruthful panicked seen known (classify_failure f panicked seen known)
unfolding classify_failure new_outcome properties
classify_failure_unsent f panicked seen none e = ground arith
classify_failure_unsent f panicked seen (some out) e = ground arith
