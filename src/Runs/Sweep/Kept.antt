-- ===== src/Runs/Sweep/Kept.antt =====
-- Pruning and scrubbing against the report of orphans, and what scrubbing leaves of a step.
use ferry_cli.Base.{
  ℕ, String, ◌≡◌, refl, Bool, true, false, none, List, [], ◌∷◌, if◌then◌else◌, arith, All, all,
  Bool-cases, inl, inr, ◌⊎◌, ap, subst, sym, ◌∙◌,
}
use ferry_cli.Api.Target.{Bytes}
use ferry_cli.Runs.Step.{
  is_terminal, Step, Run, has_plan_token, unresolved, unresolved_steps, prunable, step_prunable,
  scrub_step,
}
use ferry_cli.Runs.Ledger.Digests.{HasDigest}
use ferry_cli.Runs.Ledger.Tokens.{IsSpent}
use ferry_cli.Runs.Sweep.{
  Entry, scrub_one, scrub_run, scrub_entry, scrub, is_pruned, prune, orphan_of, is_skipped, orphan,
  orphans, first_unresolved,
}

prunable_step : (s : Step) → step_prunable s ≡ true → unresolved s ≡ false
unfolding unresolved is_terminal
prunable_step s p = ground arith

prunable_steps : (ss : List Step) → all step_prunable ss ≡ true → unresolved_steps ss ≡ []
unfolding unresolved_steps all
prunable_steps [] p = refl
prunable_steps (s ∷ ss) p = ground (arith, prunable_step s, prunable_steps ss)

pruned_orphan :
    (profile environment : String) (exempt : List String) (cutoff : ℕ) (e : Entry)
    → is_pruned cutoff e ≡ true
    → orphan profile environment exempt e ≡ none
unfolding is_pruned prunable orphan
pruned_orphan profile environment exempt cutoff e p = ground (arith, prunable_steps e.run.steps)

-- Pruning never hides an orphan: what is reported after it is what was reported before it, for every
-- profile, environment and exemption.
pub orphans-prune :
    (profile environment : String) (exempt : List String) (cutoff : ℕ) (es : List Entry)
    → orphans profile environment exempt (prune cutoff es).0 ≡ orphans profile environment exempt es
unfolding orphans prune
orphans-prune profile environment exempt cutoff [] = refl
orphans-prune profile environment exempt cutoff (e ∷ es) = ground (
  arith,
  orphans-prune profile environment exempt cutoff es,
  pruned_orphan profile environment exempt cutoff e,
)

scrub_one-unresolved : (now : ℕ) (s : Step) → unresolved (scrub_one now s).0 ≡ unresolved s
unfolding scrub_one scrub_step unresolved
scrub_one-unresolved now s = ground arith

scrub_one-IsSpent : (now : ℕ) (s : Step) → IsSpent (scrub_one now s).0
unfolding scrub_one scrub_step has_plan_token
scrub_one-IsSpent now s t = ground arith

scrub_one-digest :
    (sha256 : Bytes → String) (now : ℕ) (s : Step)
    → HasDigest sha256 s
    → HasDigest sha256 (scrub_one now s).0
unfolding scrub_one scrub_step
scrub_one-digest sha256 now s h = ground arith

scrub_one-again :
    (now : ℕ) (s : Step) → scrub_one now (scrub_one now s).0 ≡ ((scrub_one now s).0, false)
unfolding scrub_one scrub_step has_plan_token
scrub_one-again now s = ground arith

scrub_one-same : (now : ℕ) (s : Step) → (scrub_one now s).1 ≡ false → (scrub_one now s).0 ≡ s
unfolding scrub_one scrub_step
scrub_one-same now s e = ground arith

scrub_run-same :
    (now : ℕ) (ss : List Step) → (scrub_run now ss).1 ≡ false → (scrub_run now ss).0 ≡ ss
unfolding scrub_run
scrub_run-same now [] e = refl
scrub_run-same now (s ∷ ss) e = ground (arith, scrub_one-same now s, scrub_run-same now ss)

scrub_run-IsSpent : (now : ℕ) (ss : List Step) → All IsSpent (scrub_run now ss).0
unfolding scrub_run
scrub_run-IsSpent now [] = tt
scrub_run-IsSpent now (s ∷ ss) = (scrub_one-IsSpent now s, scrub_run-IsSpent now ss)

scrub_run-again :
    (now : ℕ) (ss : List Step) → scrub_run now (scrub_run now ss).0 ≡ ((scrub_run now ss).0, false)
unfolding scrub_run
scrub_run-again now [] = refl
scrub_run-again now (s ∷ ss) = ground (arith, scrub_one-again now s, scrub_run-again now ss)

-- The record of an entry that is swept holds no live token in a terminal step.
abbrev pub IsSwept : Entry → Type 0
IsSwept e = e.held ≡ false → All IsSpent e.run.steps

scrub_entry-steps :
    (now : ℕ) (e : Entry)
    → (scrub_entry now e).0.held ≡ false
    → (scrub_entry now e).0.run.steps ≡ (scrub_run now e.run.steps).0
unfolding scrub_entry
scrub_entry-steps now e h = ground (arith, scrub_run-same now e.run.steps)

scrub_entry-IsSwept : (now : ℕ) (e : Entry) → IsSwept (scrub_entry now e).0
scrub_entry-IsSwept now e h =
    subst (All IsSpent) (sym (scrub_entry-steps now e h)) (scrub_run-IsSpent now e.run.steps)

scrub_entry-again :
    (now : ℕ) (e : Entry) → scrub_entry now (scrub_entry now e).0 ≡ ((scrub_entry now e).0, false)
unfolding scrub_entry
scrub_entry-again now e = ground (arith, scrub_run-again now e.run.steps)

orphan_of-scrub :
    (now : ℕ) (r : Run) (ts : List Step) (s : Step)
    → orphan_of (record r { steps = ts }) (scrub_one now s).0 ≡ orphan_of r s
unfolding scrub_one scrub_step
orphan_of-scrub now r ts s = ground arith

first_unresolved-scrub :
    (now : ℕ) (r : Run) (ts : List Step) (held : Bool) (ss : List Step)
    → first_unresolved (record r { steps = ts }) held (unresolved_steps (scrub_run now ss).0)
      ≡ first_unresolved r held (unresolved_steps ss)
unfolding unresolved_steps scrub_run
first_unresolved-scrub now r ts held [] = refl
first_unresolved-scrub now r ts held (s ∷ ss) = elim (Bool-cases (unresolved s)) [
  | inl e ↦ rw (scrub_one-unresolved now s, e, orphan_of-scrub now r ts s) refl
  | inr e ↦ rw (scrub_one-unresolved now s, e) (first_unresolved-scrub now r ts held ss)
]

scrub_entry-cases :
    (now : ℕ) (e : Entry)
    → ((scrub_entry now e).0 ≡ e)
      ⊎ ((scrub_entry now e).0
          ≡ record e { run = record e.run { steps = (scrub_run now e.run.steps).0 } })
unfolding scrub_entry
scrub_entry-cases now e = ground arith

orphan-scrub :
    (profile environment : String) (exempt : List String) (now : ℕ) (e : Entry)
    → orphan profile environment exempt (scrub_entry now e).0 ≡ orphan profile environment exempt e
unfolding orphan
orphan-scrub profile environment exempt now e = elim (scrub_entry-cases now e) [
  | inl same ↦ ap (orphan profile environment exempt) same
  | inr swept ↦
      ap (orphan profile environment exempt) swept
      ∙ ap (λ o. if is_skipped profile environment exempt e.run then none else o)
          (first_unresolved-scrub now e.run (scrub_run now e.run.steps).0 e.held e.run.steps)
]

-- Scrubbing never hides an orphan, nor makes one: what is reported after it is what was reported
-- before it, for every profile, environment and exemption.
pub orphans-scrub :
    (profile environment : String) (exempt : List String) (now : ℕ) (es : List Entry)
    → orphans profile environment exempt (scrub now es).0 ≡ orphans profile environment exempt es
unfolding orphans scrub
orphans-scrub profile environment exempt now [] = refl
orphans-scrub profile environment exempt now (e ∷ es) = ground (
  arith,
  orphan-scrub profile environment exempt now e,
  orphans-scrub profile environment exempt now es,
)

-- After a scrub whose writes land, no run that is not held has a live plan token in a terminal step,
-- and a second scrub at the same instant changes nothing and reports nothing.
pub scrub-IsSwept :
    (now : ℕ) (es : List Entry)
    → All IsSwept (scrub now es).0 × (scrub now (scrub now es).0 ≡ ((scrub now es).0, []))
unfolding scrub
scrub-IsSwept now [] = (tt, refl)
scrub-IsSwept now (e ∷ es) =
    let (swept, again) = scrub-IsSwept now es in
    ((scrub_entry-IsSwept now e, swept), rw (scrub_entry-again now e, again) refl)
