-- ===== src/Runs/Sweep.antt =====
-- internal/runs/sweep.go: what looks at the whole directory. A record is `decode`d when it is read; its
-- lock is held by another process or free. A directory is its records in the order of their ids.
pub mod Kept
use ferry_cli.Base.{
  ℕ, ◌+◌, ◌*◌, String, ◌==◌, Bool, true, false, ◌&&◌, ◌||◌, not, Option, none, some, List, [], ◌∷◌,
  ltb, if◌then◌else◌, contains, ℤ, pos,
}
use ferry_cli.Api.Duration.{nanosecond}
use ferry_cli.Runs.Step.{
  State, is_terminal, Plan, RunOutcome, Step, Run, has_plan_token, unresolved_steps, prunable,
  scrub_step,
}

-- One record of the directory, as the sweep meets it.
pub record Entry : Type 0 where
  pub id : String
  pub run : Run
  pub held : Bool

-- `ScrubGrace`, in nanoseconds.
abbrev pub scrub_grace : ℕ
scrub_grace = 600 * nanosecond

abbrev expires_before : Option Plan → ℕ → Bool
expires_before none now = false
expires_before (some p) now = elim p.expires_at [
  | none ↦ false
  | some t ↦ ltb (t + scrub_grace) now
]

-- What the loop of `scrubRun` does to one step, with whether it changed it.
unfoldable pub scrub_one : ℕ → Step → Step × Bool
scrub_one now s =
    if not (has_plan_token s)
    then (s, false)
    else if is_terminal s.state || expires_before s.plan now
    then scrub_step s
    else (s, false)

-- `scrubRun`, on the steps.
unfoldable pub scrub_run : ℕ → List Step → List Step × Bool
scrub_run now [] = ([], false)
scrub_run now (s ∷ ss) =
    let one = scrub_one now s in let rest = scrub_run now ss in (one.0 ∷ rest.0, one.1 || rest.1)

-- `Scrub` of one record: a held one is left, and so is one that does not change.
unfoldable pub scrub_entry : ℕ → Entry → Entry × Bool
scrub_entry now e =
    let swept = scrub_run now e.run.steps in
    if e.held
    then (e, false)
    else if swept.1
    then (record e { run = record e.run { steps = swept.0 } }, true)
    else (e, false)

-- `Scrub`, with every write landing: the directory that it leaves and the ids that it scrubbed.
unfoldable pub scrub : ℕ → List Entry → List Entry × List String
scrub now [] = ([], [])
scrub now (e ∷ es) =
    let one = scrub_entry now e in
    let rest = scrub now es in (one.0 ∷ rest.0, if one.1 then e.id ∷ rest.1 else rest.1)

abbrev created_before : Option ℕ → ℕ → Bool
created_before none cutoff = true
created_before (some t) cutoff = ltb t cutoff

-- A record that `Prune` removes.
unfoldable pub is_pruned : ℕ → Entry → Bool
is_pruned cutoff e = not e.held && (prunable e.run && created_before e.run.created_at cutoff)

-- `Prune`, with every removal succeeding: the directory that it leaves and the ids that it removed.
unfoldable pub prune : ℕ → List Entry → List Entry × List String
prune cutoff [] = ([], [])
prune cutoff (e ∷ es) =
    let rest = prune cutoff es in
    if is_pruned cutoff e then (rest.0, e.id ∷ rest.1) else (e ∷ rest.0, rest.1)

pub record Orphan : Type 0 where
  pub run_id : String
  pub step : String
  pub state : State
  pub exit_code : ℤ
  pub created_at : Option ℕ
  pub argv : List String

abbrev exit_of : Option RunOutcome → ℤ
exit_of none = pos 0
exit_of (some o) = o.exit_code

abbrev pub orphan_of : Run → Step → Orphan
orphan_of r s = record {
  run_id = r.run_id;
  step = s.name;
  state = s.state;
  exit_code = exit_of s.outcome;
  created_at = r.created_at;
  argv = r.argv;
}

-- A run outside the profile or the environment, where one is given, or among the exempt ones.
abbrev pub is_skipped : String → String → List String → Run → Bool
is_skipped profile environment exempt r =
    contains r.run_id exempt
    || (not (profile == "") && not (r.profile == profile)
        || not (environment == "") && not (r.environment == environment))

abbrev first_unresolved : Run → Bool → List Step → Option Orphan
first_unresolved r held [] = none
first_unresolved r held (s ∷ ss) = if held then none else some (orphan_of r s)

-- What `Orphans` reports of one record.
unfoldable pub orphan : String → String → List String → Entry → Option Orphan
orphan profile environment exempt e =
    if is_skipped profile environment exempt e.run
    then none
    else first_unresolved e.run e.held (unresolved_steps e.run.steps)

-- `Orphans`.
unfoldable pub orphans : String → String → List String → List Entry → List Orphan
orphans profile environment exempt [] = []
orphans profile environment exempt (e ∷ es) =
    let rest = orphans profile environment exempt es in
    elim (orphan profile environment exempt e) [ none ↦ rest | some o ↦ o ∷ rest ]

-- The first step with this key.
abbrev step_by_key : String → List Step → Option Step
step_by_key key [] = none
step_by_key key (s ∷ ss) = if s.idempotency_key == key then some s else step_by_key key ss

-- `KeyMatch`.
pub record KeyMatch : Type 0 where
  pub run : Run
  pub step : Step

abbrev match_in : String → Entry → Option KeyMatch
match_in key e = elim (step_by_key key e.run.steps) [
  | none ↦ none
  | some s ↦ some (record { run = e.run; step = s })
]

abbrev first_match : String → List Entry → Option KeyMatch
first_match key [] = none
first_match key (e ∷ es) =
    let rest = first_match key es in elim (match_in key e) [ none ↦ rest | some k ↦ some k ]

-- `FindByKey`.
unfoldable pub find_by_key : String → List Entry → Option KeyMatch
find_by_key key es = if key == "" then none else first_match key es
