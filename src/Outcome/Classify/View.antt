-- ===== src/Outcome/Classify/View.antt =====
-- The branches of `classify` for an operation of a known class, as an inductive view: the proofs
-- about `classify` are by cases on it.
use ferry_cli.Base.{
  ◌≡◌, refl, true, false, Option, none, some, arith, Bool-cases, Option-cases, inl, inr,
}
use ferry_cli.Outcome.Class.{Outcome}
use ferry_cli.Outcome.Operation.{OpClass, class_of}
use ferry_cli.Outcome.Input.{Transport, Envelope, Input}
use ferry_cli.Outcome.Table.{Rule, find_rule}
use ferry_cli.Outcome.Answers.{
  classify_transport, classify_success, classify_unknown_code, classify_no_envelope,
}
use ferry_cli.Outcome.Classify.{
  is_2xx, annotate, verdict_of, of_verdict, classify_code, classify_refusal, classify_answer,
  classify,
}

-- An answer that is not 2xx.
pub record IsRefusal (i : Input) : Type 0 where
  pub no_transport : i.transport ≡ none
  pub not_2xx : is_2xx i.status ≡ false

pub data Branch (i : Input) (c : OpClass) (o : Outcome) : Type 0 where
  no_answer :
      (t : Transport)
      → i.transport ≡ some t
      → o ≡ annotate i (classify_transport t.phase c)
      → Branch i c o
  succeeded :
      i.transport ≡ none
      → is_2xx i.status ≡ true
      → o ≡ annotate i (classify_success i c)
      → Branch i c o
  no_envelope : IsRefusal i → i.envelope ≡ none → o ≡ classify_no_envelope i.status c → Branch i c o
  unknown_code :
      (e : Envelope)
      → IsRefusal i
      → i.envelope ≡ some e
      → find_rule e.code ≡ none
      → o ≡ annotate i (classify_unknown_code i.status e.code c)
      → Branch i c o
  known_code :
      (e : Envelope) (r : Rule)
      → IsRefusal i
      → i.envelope ≡ some e
      → find_rule e.code ≡ some r
      → o ≡ annotate i (of_verdict (verdict_of r i c))
      → Branch i c o

refusal-Branch :
    (i : Input) (c : OpClass) (o : Outcome) (env : Option Envelope)
    → IsRefusal i
    → i.envelope ≡ env
    → o ≡ classify_refusal i c env
    → Branch i c o
unfolding classify_code
refusal-Branch i c o none h e w = Branch.no_envelope h e w
refusal-Branch i c o (some env) h e w = elim (Option-cases (find_rule env.code)) [
  | inl f ↦ Branch.unknown_code env h e f (ground arith)
  | inr f ↦ Branch.known_code env f.0 h e f.1 (ground (arith, f.1))
]

answer-Branch :
    (i : Input) (c : OpClass) (o : Outcome) (t : Option Transport)
    → i.transport ≡ t
    → o ≡ classify_answer i c t
    → Branch i c o
answer-Branch i c o (some t) e w = Branch.no_answer t e w
answer-Branch i c o none e w = elim (Bool-cases (is_2xx i.status)) [
  | inl s ↦ Branch.succeeded e s (ground arith)
  | inr s ↦
      refusal-Branch i c o i.envelope (record { no_transport = e; not_2xx = s }) refl (ground arith)
]

-- Every answer to a known operation takes one of the branches.
pub branch : (i : Input) (c : OpClass) → class_of i.op ≡ some c → Branch i c (classify i)
unfolding classify
branch i c h = answer-Branch i c (classify i) i.transport refl (ground arith)
