-- ===== src/Outcome/Classify.antt =====
-- internal/outcome/classify.go: `Classify`, branch by branch in the order of the source.
pub mod Facts
pub mod View
pub mod Totality
pub mod Execute
pub mod FailClosed
pub mod KeyReuse
use ferry_cli.Base.{
  ℕ, String, ◌==◌, Bool, ◌&&◌, Option, none, some, [], ◌∷◌, ◌++◌, leb, ltb, if◌then◌else◌, str,
  quoted, Text, is_empty,
}
use ferry_cli.Outcome.Class.{Class, Outcome, new_outcome}
use ferry_cli.Outcome.Operation.{OpClass, class_of}
use ferry_cli.Outcome.Input.{Transport, Envelope, Input, state, detail_command_id}
use ferry_cli.Outcome.Table.{Verdict, Rule, Refine, verdict_for, find_rule}
use ferry_cli.Outcome.Answers.{
  classify_transport, classify_success, classify_unknown_code, classify_no_envelope,
}

-- `status >= 200 && status < 300`.
abbrev pub is_2xx : ℕ → Bool
is_2xx status = leb 200 status && ltb status 300

-- A separating space, if something is already written.
abbrev pub spaced : Text → Text
spaced t = if is_empty t then t else t ++ str " " ∷ []

abbrev with_state : String → Text → Text
with_state s t =
    if s == "" then t else spaced t ++ str "The command under this key is `" ∷ str s ∷ str "`." ∷ []

abbrev pub with_command : String → Text → Text
with_command id t =
    if id == ""
    then t
    else spaced t ++ str "Command " ∷ str id ∷ str ": `ferry commands get " ∷ str id ∷ str "`." ∷ []

abbrev annotated_id : Input → String
annotated_id i = if i.command_id == "" then detail_command_id i else i.command_id

-- `annotate`.
unfoldable pub annotate : Input → Outcome → Outcome
annotate i out = record out { next = with_command (annotated_id i) (with_state (state i) out.next) }

abbrev refined : Option Refine → Input → OpClass → Verdict → Verdict
refined none i class v = v
refined (some refine) i class v = refine i class v

-- The verdict of a row, refined.
unfoldable pub verdict_of : Rule → Input → OpClass → Verdict
verdict_of r i class = refined r.refine i class (verdict_for r class)

abbrev pub of_verdict : Verdict → Outcome
of_verdict v = new_outcome v.class (str v.next ∷ []) []

-- The branches from the look-up of the code on.
unfoldable pub classify_code : Input → OpClass → String → Outcome
unfolding new_outcome
classify_code i class code = elim (find_rule code) [
  | none ↦ annotate i (classify_unknown_code i.status code class)
  | some r ↦ annotate i (of_verdict (verdict_of r i class))
]

abbrev pub classify_refusal : Input → OpClass → Option Envelope → Outcome
classify_refusal i class none = classify_no_envelope i.status class
classify_refusal i class (some e) = classify_code i class e.code

abbrev pub classify_answer : Input → OpClass → Option Transport → Outcome
classify_answer i class (some t) = annotate i (classify_transport t.phase class)
classify_answer i class none =
    if is_2xx i.status
    then annotate i (classify_success i class)
    else classify_refusal i class i.envelope

abbrev pub classify_known : Input → Option OpClass → Outcome
classify_known i none =
    new_outcome Class.pending
      (str "This CLI does not recognise the operation "
        ∷ quoted i.op
        ∷ str ", so it cannot say what this answer means. Treat the outcome as unknown."
        ∷ [])
      []
classify_known i (some class) = classify_answer i class i.transport

-- `Classify`.
unfoldable pub classify : Input → Outcome
unfolding new_outcome
classify i = classify_known i (class_of i.op)
