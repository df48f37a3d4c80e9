-- ===== src/Outcome/Classify/FailClosed.antt =====
-- When `Classify` leaves the outcome of a money request open.
use ferry_cli.Base.{
  String, eq_iff, ◌≡◌, ◌≢◌, ◌↔◌, ◌⊎◌, refl, Bool, true, false, not, ◌||◌, ◌&&◌, is_some,
  Option-cases, Bool-cases, inl, inr, none, some, List, [], ◌∷◌, contains, arith, all,
}
use ferry_cli.Outcome.Class.{Class, Outcome}
use ferry_cli.Outcome.Operation.{OpClass, class_of, is_money}
use ferry_cli.Outcome.Input.{TransportPhase, Transport, Envelope, Success, Input}
use ferry_cli.Outcome.Table.{
  Rule, verdict_for, rules, find_rule, refine_key_reused, refine_upstream_busy,
}
use ferry_cli.Outcome.Answers.{
  classify_transport, classify_success, classify_unknown_code, classify_no_envelope,
}
use ferry_cli.Outcome.Classify.{is_2xx, classify, annotate, verdict_of, classify_code}
use ferry_cli.Outcome.Classify.Facts.{find_rule-all, refine_cases, busy_row}
use ferry_cli.Outcome.Classify.View.{
  IsRefusal, Branch, no_answer, succeeded, no_envelope, unknown_code, known_code, branch,
}

-- The codes under which FERRY says that a command is still running, or that it failed itself.
abbrev open_codes : List String
open_codes = "IDEMPOTENCY_KEY_IN_PROGRESS" ∷ "INTERNAL_ERROR" ∷ []

-- What an answer to a money request may be that establishes nothing.
pub data IsOpen (i : Input) : Type 0 where
  after_write :
      (t : Transport) → i.transport ≡ some t → t.phase ≡ TransportPhase.after_write → IsOpen i
  unreadable :
      i.transport ≡ none
      → is_2xx i.status ≡ true
      → ((s : Success) → i.success ≡ some s → s.parsed ≡ false)
      → IsOpen i
  status_202 : i.transport ≡ none → is_2xx i.status ≡ true → i.status ≡ 202 → IsOpen i
  not_an_envelope : IsRefusal i → i.envelope ≡ none → IsOpen i
  unknown : (e : Envelope) → IsRefusal i → i.envelope ≡ some e → find_rule e.code ≡ none → IsOpen i
  off_surface :
      (e : Envelope) (r : Rule)
      → IsRefusal i
      → i.envelope ≡ some e
      → find_rule e.code ≡ some r
      → r.off_surface ≡ true
      → IsOpen i
  still_open :
      (e : Envelope)
      → IsRefusal i
      → i.envelope ≡ some e
      → contains e.code open_codes ≡ true
      → IsOpen i
  busy_command :
      (e : Envelope)
      → IsRefusal i
      → i.envelope ≡ some e
      → e.code ≡ "UPSTREAM_BUSY"
      → i.command_id ≢ ""
      → IsOpen i

abbrev is_pending : Class → Bool
is_pending Class.pending = true
is_pending _ = false

abbrev same : Bool → Bool → Bool
same true b = b
same false b = not b

abbrev row_pending : OpClass → String × Rule → Bool
row_pending c (code, r) =
    same (is_pending (verdict_for r c).class) (r.off_surface || contains code open_codes)
    && not ((r.off_surface || contains code open_codes) && is_some r.refine)

row_pending-all : (c : OpClass) → is_money c ≡ true → all (row_pending c) rules ≡ true
unfolding all rules contains
row_pending-all OpClass.money_simulate h = refl
row_pending-all OpClass.money_execute h = refl
row_pending-all OpClass.read h = cc
row_pending-all OpClass.control_create h = cc

reused_not_busy : ◌≢◌ {A = String} "IDEMPOTENCY_KEY_REUSED" "UPSTREAM_BUSY"
reused_not_busy = ground (arith, eq_iff "IDEMPOTENCY_KEY_REUSED" "UPSTREAM_BUSY")

-- When a row with its refinement is `pending`.
pending_row :
    (i : Input) (c : OpClass) (code : String) (r : Rule)
    → is_money c ≡ true
    → find_rule code ≡ some r
    → (is_pending (verdict_of r i c).class ≡ true) ↔ (
        (r.off_surface ≡ true)
        ⊎ (contains code open_codes ≡ true)
        ⊎ ((code ≡ "UPSTREAM_BUSY") × (i.command_id ≢ "")))
unfolding verdict_of refine_key_reused refine_upstream_busy
pending_row i c code r m f = ground (
  arith,
  refine_cases code r f,
  find_rule-all (row_pending c) code {r = r} (row_pending-all c m) f,
  eq_iff i.command_id "",
  busy_row r,
  reused_not_busy,
)

Branch-IsOpen :
    (i : Input) (c : OpClass) (o : Outcome)
    → is_money c ≡ true
    → Branch i c o
    → o.class ≡ Class.pending
    → IsOpen i
unfolding annotate classify_transport classify_success
Branch-IsOpen i c o m (no_answer t e w) p = IsOpen.after_write t e (ground arith)
Branch-IsOpen i c o m (succeeded e s w) p = elim (Option-cases i.success) [
  | inl absent ↦ IsOpen.unreadable e s (λ b f. absurd (ground arith))
  | inr (b, present) ↦ elim (Bool-cases b.parsed) [
    | inl parsed ↦ IsOpen.status_202 e s (ground arith)
    | inr unparsed ↦ IsOpen.unreadable e s (λ b' f. ground arith)
  ]
]
Branch-IsOpen i c o m (no_envelope h e w) p = IsOpen.not_an_envelope h e
Branch-IsOpen i c o m (unknown_code env h e f w) p = IsOpen.unknown env h e f
Branch-IsOpen i c o m (known_code env r h e f w) p =
    elim ((pending_row i c env.code r m f).0 (ground arith)) [
      | inl off ↦ IsOpen.off_surface env r h e f off
      | inr (inl known) ↦ IsOpen.still_open env h e known
      | inr (inr (busy, id)) ↦ IsOpen.busy_command env h e busy id
    ]

-- A refusal under a code that is open, whether or not the table has a row for it.
code_pending :
    (i : Input) (c : OpClass) (code : String)
    → is_money c ≡ true
    → ((r : Rule)
        → find_rule code ≡ some r
        → (r.off_surface ≡ true)
          ⊎ (contains code open_codes ≡ true)
          ⊎ ((code ≡ "UPSTREAM_BUSY") × (i.command_id ≢ "")))
    → (classify_code i c code).class ≡ Class.pending
unfolding classify_code annotate classify_unknown_code
code_pending i c code m h = elim (Option-cases (find_rule code)) [
  | inl e ↦ ground arith
  | inr (r, e) ↦ ground (arith, (pending_row i c code r m e).1 (h r e), e)
]

module _ (i : Input) (c : OpClass) (known : class_of i.op ≡ some c) (m : is_money c ≡ true) where
  refusal_pending :
      (e : Envelope)
      → IsRefusal i
      → i.envelope ≡ some e
      → ((r : Rule)
          → find_rule e.code ≡ some r
          → (r.off_surface ≡ true)
            ⊎ (contains e.code open_codes ≡ true)
            ⊎ ((e.code ≡ "UPSTREAM_BUSY") × (i.command_id ≢ "")))
      → (classify i).class ≡ Class.pending
  unfolding classify
  refusal_pending e h env f = ground (arith, code_pending i c e.code m f)

  IsOpen-pending : IsOpen i → (classify i).class ≡ Class.pending
  unfolding classify annotate classify_transport classify_success classify_no_envelope
  IsOpen-pending (IsOpen.after_write t e p) = ground arith
  IsOpen-pending (IsOpen.unreadable e s u) = elim (Option-cases i.success) [
    | inl absent ↦ ground arith
    | inr (b, present) ↦ ground (arith, u b present)
  ]
  IsOpen-pending (IsOpen.status_202 e s q) = elim (Option-cases i.success) [
    | inl absent ↦ ground arith
    | inr (b, present) ↦ ground arith
  ]
  IsOpen-pending (IsOpen.not_an_envelope h e) = ground arith
  IsOpen-pending (IsOpen.unknown e h f u) = refusal_pending e h f (λ r k. absurd (ground arith))
  IsOpen-pending (IsOpen.off_surface e r h f k off) =
      refusal_pending e h f (λ r' k'. inl (ground arith))
  IsOpen-pending (IsOpen.still_open e h f k) = refusal_pending e h f (λ r k'. inr (inl k))
  IsOpen-pending (IsOpen.busy_command e h f b id) =
      refusal_pending e h f (λ r k'. inr (inr (b, id)))

-- A money request is `pending` exactly when its answer establishes nothing: the request was written
-- and no answer arrived; the body of a 2xx could not be read, or the status is 202; the body of a
-- refusal is not the error envelope; its code is unknown to the table, or one of the webhook
-- ingress, or one of the two that say so, or `UPSTREAM_BUSY` with a command id.
pub classify_pending :
    (i : Input) (c : OpClass)
    → class_of i.op ≡ some c
    → is_money c ≡ true
    → ((classify i).class ≡ Class.pending) ↔ IsOpen i
classify_pending i c h m = (Branch-IsOpen i c (classify i) m (branch i c h), IsOpen-pending i c h m)
