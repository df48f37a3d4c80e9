-- ===== src/Outcome/Classify/Totality.antt =====
-- What every outcome of `Classify` satisfies, whatever the answer.
use ferry_cli.Base.{
  String, ◌≡◌, refl, Bool, true, false, not, none, some, arith, all, Option-cases, inl, inr,
}
use ferry_cli.Outcome.Class.{Class, Outcome, properties}
use ferry_cli.Outcome.Operation.{OpClass, class_of}
use ferry_cli.Outcome.Input.{Input}
use ferry_cli.Outcome.Table.{Rule, verdict_for, rules, find_rule}
use ferry_cli.Outcome.Answers.{
  classify_transport, classify_success, classify_unknown_code, classify_no_envelope,
}
use ferry_cli.Outcome.Classify.{classify, annotate, verdict_of}
use ferry_cli.Outcome.Classify.Facts.{find_rule-all, verdict_of_cases}
use ferry_cli.Outcome.Classify.View.{
  Branch, no_answer, succeeded, no_envelope, unknown_code, known_code, branch,
}

-- The exit code, the money answer and the same-key answer are the declared ones of the class.
abbrev pub IsDeclared : Outcome → Type 0
IsDeclared o =
    (o.exit ≡ (properties o.class).exit)
    × (o.money ≡ (properties o.class).money)
    × (o.same_key_safe ≡ (properties o.class).same_key_safe)

-- The classes of a local refusal, which no answer may have.
abbrev pub is_local : Class → Bool
is_local Class.cli_fault = true
is_local Class.usage = true
is_local _ = false

abbrev row_not_local : OpClass → String × Rule → Bool
row_not_local c (code, r) = not (is_local (verdict_for r c).class)

row_not_local-all : (c : OpClass) → all (row_not_local c) rules ≡ true
unfolding all rules
row_not_local-all OpClass.money_simulate = refl
row_not_local-all _ = refl

verdict_of_not_local :
    (code : String) (r : Rule) (i : Input) (c : OpClass)
    → find_rule code ≡ some r
    → is_local (verdict_of r i c).class ≡ false
verdict_of_not_local code r i c e = ground (
  arith,
  verdict_of_cases code r i c e,
  find_rule-all (row_not_local c) code {r = r} (row_not_local-all c) e,
)

abbrev IsAnswerOutcome : Outcome → Type 0
IsAnswerOutcome o = IsDeclared o × (is_local o.class ≡ false)

Branch-IsAnswerOutcome : (i : Input) (c : OpClass) (o : Outcome) → Branch i c o → IsAnswerOutcome o
unfolding annotate classify_transport classify_success classify_unknown_code classify_no_envelope
Branch-IsAnswerOutcome i c o (no_answer t e w) = ground arith
Branch-IsAnswerOutcome i c o (succeeded e s w) = ground arith
Branch-IsAnswerOutcome i c o (no_envelope h e w) = ground arith
Branch-IsAnswerOutcome i c o (unknown_code env h e f w) = ground arith
Branch-IsAnswerOutcome i c o (known_code env r h e f w) =
    ground (arith, verdict_of_not_local env.code r i c f)

unrecognised : (i : Input) → class_of i.op ≡ none → IsAnswerOutcome (classify i)
unfolding classify
unrecognised i h = ground arith

-- Whatever the answer and whatever the operation, the exit code, the money answer and the same-key
-- answer of the outcome are the ones that the class declares, and the class is neither `cli_fault`
-- nor `usage`, which claim that nothing was sent.
pub classify-IsAnswerOutcome :
    (i : Input) → IsDeclared (classify i) × (is_local (classify i).class ≡ false)
classify-IsAnswerOutcome i = elim (Option-cases (class_of i.op)) [
  | inl e ↦ unrecognised i e
  | inr e ↦ Branch-IsAnswerOutcome i e.0 (classify i) (branch i e.0 e.1)
]
