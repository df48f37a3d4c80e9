-- ===== src/Outcome/Classify/Execute.antt =====
-- What `Classify` says of an execute: when it is a success, and when it claims that no money moved.
use ferry_cli.Base.{
  String, eq_iff, ◌≡◌, ◌≢◌, ◌↔◌, refl, Bool, true, false, not, ◌||◌, ◌&&◌, is_some, Option-cases,
  inl, inr, none, some, arith, all, eqb,
}
use ferry_cli.Outcome.Class.{Class, Money, Outcome, properties}
use ferry_cli.Outcome.Operation.{OpClass, class_of}
use ferry_cli.Outcome.Input.{TransportPhase, Transport, Envelope, Success, Input}
use ferry_cli.Outcome.Table.{Rule, rules, find_rule}
use ferry_cli.Outcome.Answers.{
  classify_transport, classify_success, classify_unknown_code, classify_no_envelope,
}
use ferry_cli.Outcome.Classify.{is_2xx, classify, annotate, verdict_of}
use ferry_cli.Outcome.Classify.Facts.{find_rule-all, verdict_of_cases}
use ferry_cli.Outcome.Classify.View.{
  IsRefusal, Branch, no_answer, succeeded, no_envelope, unknown_code, known_code, branch,
}

abbrev is_pending : Class → Bool
is_pending Class.pending = true
is_pending _ = false

abbrev row_not_zero : String × Rule → Bool
row_not_zero (code, r) = not (eqb (properties r.execute.class).exit 0)

row_not_zero-all : all row_not_zero rules ≡ true
unfolding all rules properties
row_not_zero-all = refl

verdict_of_not_zero :
    (code : String) (r : Rule) (i : Input)
    → find_rule code ≡ some r
    → (properties (verdict_of r i OpClass.money_execute).class).exit ≢ 0
unfolding properties
verdict_of_not_zero code r i e = ground (
  arith,
  verdict_of_cases code r i OpClass.money_execute e,
  find_rule-all row_not_zero code {r = r} row_not_zero-all e,
)

-- A readable 2xx other than 202, whose transaction the upstream did not fail.
pub record IsAccepted (i : Input) : Type 0 where
  pub no_transport : i.transport ≡ none
  pub answered_2xx : is_2xx i.status ≡ true
  pub not_202 : i.status ≢ 202
  pub body : Success
  pub has_body : i.success ≡ some body
  pub parsed : body.parsed ≡ true
  pub not_failed : body.transaction_status ≢ "failed"

-- An execute that is not a success by its body.
success_body :
    (i : Input)
    → (classify_success i OpClass.money_execute).exit ≡ 0
    → (s : Success) × (i.success ≡ some s)
      × (s.parsed ≡ true)
      × (i.status ≢ 202)
      × (s.transaction_status ≢ "failed")
unfolding classify_success properties
success_body i z = elim (Option-cases i.success) [
  | inl e ↦ absurd (ground arith)
  | inr (s, e) ↦
      (s, e, ground arith, ground arith, ground (arith, eq_iff s.transaction_status "failed"))
]

Branch-IsAccepted :
    (i : Input) (o : Outcome) → Branch i OpClass.money_execute o → o.exit ≡ 0 → IsAccepted i
unfolding annotate classify_transport classify_unknown_code classify_no_envelope properties
Branch-IsAccepted i o (no_answer t e w) z = absurd (ground arith)
Branch-IsAccepted i o (succeeded e s w) z =
    let (body, has, parsed, not_202, not_failed) = success_body i (ground arith) in
    record {
      no_transport = e;
      answered_2xx = s;
      not_202 = not_202;
      body = body;
      has_body = has;
      parsed = parsed;
      not_failed = not_failed;
    }
Branch-IsAccepted i o (no_envelope h e w) z = absurd (ground arith)
Branch-IsAccepted i o (unknown_code env h e f w) z = absurd (ground arith)
Branch-IsAccepted i o (known_code env r h e f w) z =
    absurd (ground (arith, verdict_of_not_zero env.code r i f))

IsAccepted-Branch :
    (i : Input) (o : Outcome) → Branch i OpClass.money_execute o → IsAccepted i → o.exit ≡ 0
unfolding annotate classify_success properties
IsAccepted-Branch i o (no_answer t e w) a = absurd (ground arith)
IsAccepted-Branch i o (succeeded e s w) a =
    ground (arith, eq_iff a.body.transaction_status "failed")
IsAccepted-Branch i o (no_envelope h e w) a = absurd (ground arith)
IsAccepted-Branch i o (unknown_code env h e f w) a = absurd (ground arith)
IsAccepted-Branch i o (known_code env r h e f w) a = absurd (ground arith)

-- An execute is reported with exit code 0 exactly when a 2xx other than 202 arrived with a readable
-- body whose transaction status is not `failed`.
pub exit-classify_execute :
    (i : Input)
    → class_of i.op ≡ some OpClass.money_execute
    → ((classify i).exit ≡ 0) ↔ IsAccepted i
exit-classify_execute i h = (
  Branch-IsAccepted i (classify i) (branch i OpClass.money_execute h),
  IsAccepted-Branch i (classify i) (branch i OpClass.money_execute h),
)

-- What is known when an execute is said to have moved no money: either the connection was never
-- established, or FERRY refused with the error envelope under a code of the table which is not one
-- of its webhook ingress.
pub data NothingMoved (i : Input) : Type 0 where
  never_sent :
      (t : Transport) → i.transport ≡ some t → t.phase ≡ TransportPhase.dial → NothingMoved i
  refused :
      (e : Envelope) (r : Rule)
      → IsRefusal i
      → i.envelope ≡ some e
      → find_rule e.code ≡ some r
      → r.off_surface ≡ false
      → NothingMoved i

abbrev row_off_surface : String × Rule → Bool
row_off_surface (code, r) =
    not r.off_surface || (is_pending r.execute.class && not (is_some r.refine))

row_off_surface-all : all row_off_surface rules ≡ true
unfolding all rules
row_off_surface-all = refl

Branch-NothingMoved :
    (i : Input) (o : Outcome)
    → Branch i OpClass.money_execute o
    → o.money ≡ Money.no
    → NothingMoved i
unfolding annotate classify_transport classify_success classify_unknown_code classify_no_envelope
    properties verdict_of
Branch-NothingMoved i o (no_answer t e w) m = NothingMoved.never_sent t e (ground arith)
Branch-NothingMoved i o (succeeded e s w) m = absurd (ground arith)
Branch-NothingMoved i o (no_envelope h e w) m = absurd (ground arith)
Branch-NothingMoved i o (unknown_code env h e f w) m = absurd (ground arith)
Branch-NothingMoved i o (known_code env r h e f w) m =
    NothingMoved.refused env r h e f
      (ground (arith, find_rule-all row_off_surface env.code {r = r} row_off_surface-all f))

-- An execute is said to have moved no money only when the connection was never established, or FERRY
-- refused it with a code that the table knows and that its `/v1` surface emits.
pub money-classify_execute :
    (i : Input)
    → class_of i.op ≡ some OpClass.money_execute
    → (classify i).money ≡ Money.no
    → NothingMoved i
money-classify_execute i h m =
    Branch-NothingMoved i (classify i) (branch i OpClass.money_execute h) m
