-- ===== src/Outcome/Classify/Facts.antt =====
-- What the rows of the table have in common, for the proofs about `classify`.
use ferry_cli.Base.{
  String, ◌≡◌, ◌⊎◌, refl, Bool, true, ◌||◌, ◌==◌, eq_iff, none, some, arith, all, lookup-all,
  is_some, not,
}
use ferry_cli.Outcome.Class.{Class}
use ferry_cli.Outcome.Operation.{OpClass}
use ferry_cli.Outcome.Input.{Input}
use ferry_cli.Outcome.Table.{
  Rule, verdict_for, rules, find_rule, refine_key_reused, refine_upstream_busy,
}
use ferry_cli.Outcome.Classify.{verdict_of}

-- A test of every row passes at the row that is found.
pub find_rule-all :
    (p : String × Rule → Bool) (code : String) {r : Rule}
    → all p rules ≡ true
    → find_rule code ≡ some r
    → p (code, r) ≡ true
unfolding find_rule
find_rule-all p code h e = lookup-all p code rules h e

-- Only two rows carry a refinement.
abbrev refined_codes : String × Rule → Bool
refined_codes (code, r) =
    not (is_some r.refine) || (code == "IDEMPOTENCY_KEY_REUSED" || code == "UPSTREAM_BUSY")

refined_codes-all : all refined_codes rules ≡ true
unfolding all rules
refined_codes-all = refl

pub reused_row :
    (r : Rule) → find_rule "IDEMPOTENCY_KEY_REUSED" ≡ some r → r.refine ≡ some refine_key_reused
unfolding find_rule
reused_row r e = cc

pub busy_row :
    (r : Rule) → find_rule "UPSTREAM_BUSY" ≡ some r → r.refine ≡ some refine_upstream_busy
unfolding find_rule
busy_row r e = cc

-- A row has no refinement, or is one of the two.
pub refine_cases :
    (code : String) (r : Rule)
    → find_rule code ≡ some r
    → (r.refine ≡ none)
      ⊎ ((code ≡ "IDEMPOTENCY_KEY_REUSED") × (r.refine ≡ some refine_key_reused))
      ⊎ ((code ≡ "UPSTREAM_BUSY") × (r.refine ≡ some refine_upstream_busy))
refine_cases code r e = ground (
  arith,
  find_rule-all refined_codes code {r = r} refined_codes-all e,
  eq_iff code "IDEMPOTENCY_KEY_REUSED",
  eq_iff code "UPSTREAM_BUSY",
  reused_row r,
  busy_row r,
)

-- A refinement leaves the verdict of the column, or narrows it to one of two classes.
pub verdict_of_cases :
    (code : String) (r : Rule) (i : Input) (c : OpClass)
    → find_rule code ≡ some r
    → ((verdict_of r i c).class ≡ (verdict_for r c).class)
      ⊎ ((verdict_of r i c).class ≡ Class.refused_fix)
      ⊎ ((verdict_of r i c).class ≡ Class.pending)
unfolding verdict_of refine_key_reused refine_upstream_busy
verdict_of_cases code r i c e = ground (arith, refine_cases code r e)
