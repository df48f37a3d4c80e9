-- ===== src/Api/Client/SameKey.antt =====
-- What the client resends by itself, the decision table declares safe to resend under the same key.
use ferry_cli.Base.{
  ℕ, String, ◌≡◌, ◌≢◌, Bool, true, false, ◌||◌, none, some, List, [], ◌∷◌, contains, arith, not,
  all, refl, Option-cases, inl, inr, leb,
}
use ferry_cli.Outcome.Class.{properties}
use ferry_cli.Outcome.Operation.{OpClass, class_of, is_money}
use ferry_cli.Outcome.Input.{Envelope, Input}
use ferry_cli.Outcome.Table.{find_rule, refine_upstream_busy, Rule, rules, verdict_for}
use ferry_cli.Outcome.Classify.{classify, classify_code, annotate, verdict_of}
use ferry_cli.Outcome.Classify.Facts.{refine_cases, find_rule-all}
use ferry_cli.Outcome.Answers.{classify_unknown_code}
use ferry_cli.Api.Envelope.{ApiEnvelope, to_outcome}
use ferry_cli.Api.Retry.{retryable}
use ferry_cli.Api.Client.{Result, to_input, code_of}

-- The codes of a 5xx that a money request is resent under.
abbrev resent_codes : List String
resent_codes =
    "UPSTREAM_BUSY" ∷ "SERVICE_UNAVAILABLE" ∷ "UPSTREAM_AUTH_UNAVAILABLE" ∷ "INTERNAL_ERROR" ∷ []

retryable_money :
    (class : OpClass) (status : ℕ) (code id : String)
    → is_money class ≡ true
    → status ≢ 429
    → retryable class status code id ≡ true
    → (leb 500 status ≡ true) × (contains code resent_codes ≡ true)
unfolding retryable contains
retryable_money class status code id m n h = ground arith

abbrev row_safe : OpClass → String × Rule → Bool
row_safe c (code, r) =
    not (contains code resent_codes) || (properties (verdict_for r c).class).same_key_safe

row_safe-all : (c : OpClass) → is_money c ≡ true → all (row_safe c) rules ≡ true
unfolding all rules properties contains
row_safe-all OpClass.money_simulate h = refl
row_safe-all OpClass.money_execute h = refl
row_safe-all OpClass.read h = cc
row_safe-all OpClass.control_create h = cc

reused_not_resent :
    (code : String) → code ≡ "IDEMPOTENCY_KEY_REUSED" → contains code resent_codes ≡ false
unfolding contains
reused_not_resent code e = rw e

safe_verdict :
    (i : Input) (c : OpClass) (code : String) (r : Rule)
    → is_money c ≡ true
    → contains code resent_codes ≡ true
    → find_rule code ≡ some r
    → (properties (verdict_of r i c).class).same_key_safe ≡ true
unfolding verdict_of refine_upstream_busy properties
safe_verdict i c code r m h f = ground (
  arith,
  refine_cases code r f,
  find_rule-all (row_safe c) code {r = r} (row_safe-all c m) f,
  reused_not_resent code,
)

safe_code :
    (i : Input) (c : OpClass) (code : String)
    → is_money c ≡ true
    → contains code resent_codes ≡ true
    → (classify_code i c code).same_key_safe ≡ true
unfolding classify_code annotate classify_unknown_code properties
safe_code i c code m h = elim (Option-cases (find_rule code)) [
  | inl e ↦ ground (arith, e)
  | inr (r, e) ↦ ground (arith, safe_verdict i c code r m h e, e)
]

safe_refusal :
    (i : Input) (c : OpClass) (e : Envelope)
    → class_of i.op ≡ some c
    → is_money c ≡ true
    → i.transport ≡ none
    → leb 500 i.status ≡ true
    → i.envelope ≡ some e
    → contains e.code resent_codes ≡ true
    → (classify i).same_key_safe ≡ true
unfolding classify
safe_refusal i c e known m t s env h = ground (arith, safe_code i c e.code m h)

no_code_not_resent : contains "" resent_codes ≡ false
unfolding contains
no_code_not_resent = refl

module _ (r : Result) (parsed : Bool) (status : String) where
  op-to_input : (to_input r parsed status).op ≡ r.op
  unfolding to_input
  op-to_input = ground arith

  transport-to_input : (to_input r parsed status).transport ≡ r.transport
  unfolding to_input
  transport-to_input = ground arith

  status-to_input : (to_input r parsed status).status ≡ r.meta.status
  unfolding to_input
  status-to_input = ground arith

  envelope-to_input :
      (e : ApiEnvelope)
      → r.envelope ≡ some e
      → (to_input r parsed status).envelope ≡ some (to_outcome e)
  unfolding to_input
  envelope-to_input e h = ground arith

-- An answer other than a 429 that the client resends by itself on a money request is one that the
-- decision table declares safe to resend under the same key, however its body is read.
pub same_key_safe-retryable :
    (r : Result) (class : OpClass) (parsed : Bool) (status : String)
    → class_of r.op ≡ some class
    → is_money class ≡ true
    → r.transport ≡ none
    → r.meta.status ≢ 429
    → retryable class r.meta.status (code_of r.envelope) r.meta.command_id ≡ true
    → (classify (to_input r parsed status)).same_key_safe ≡ true
unfolding to_outcome
same_key_safe-retryable r class parsed status known m t n h =
    let (high, listed) =
      retryable_money class r.meta.status (code_of r.envelope) r.meta.command_id m n h in
    elim (Option-cases r.envelope) [
      | inl e ↦ absurd (ground (arith, no_code_not_resent))
      | inr (env, e) ↦
          safe_refusal (to_input r parsed status) class (to_outcome env)
            (ground (arith, op-to_input r parsed status)) m
            (ground (arith, transport-to_input r parsed status))
            (ground (arith, status-to_input r parsed status))
            (envelope-to_input r parsed status env e) (ground arith)
    ]
