-- ===== src/Outcome/Classify/KeyReuse.antt =====
-- A reused idempotency key: the reason in the details decides between a new key and a human.
use ferry_cli.Base.{◌==◌, ◌≡◌, true, some, arith, if◌then◌else◌}
use ferry_cli.Outcome.Class.{Class}
use ferry_cli.Outcome.Operation.{OpClass, class_of, is_money}
use ferry_cli.Outcome.Input.{Envelope, Input, reason}
use ferry_cli.Outcome.Table.{find_rule, refine_key_reused}
use ferry_cli.Outcome.Classify.{classify, classify_code, annotate, verdict_of}
use ferry_cli.Outcome.Classify.View.{IsRefusal}

reused_code :
    (i : Input) (c : OpClass)
    → is_money c ≡ true
    → (classify_code i c "IDEMPOTENCY_KEY_REUSED").class
      ≡ (if reason i == "different_request" then Class.refused_fix else Class.escalate)
unfolding classify_code annotate verdict_of find_rule refine_key_reused
reused_code i c m = ground arith

-- A money request refused under `IDEMPOTENCY_KEY_REUSED` may be sent under a new key only if the
-- details give the reason `different_request`; any other reason, or none, is for a human.
pub class-classify_reused :
    (i : Input) (c : OpClass) (e : Envelope)
    → class_of i.op ≡ some c
    → is_money c ≡ true
    → IsRefusal i
    → i.envelope ≡ some e
    → e.code ≡ "IDEMPOTENCY_KEY_REUSED"
    → (classify i).class
      ≡ (if reason i == "different_request" then Class.refused_fix else Class.escalate)
unfolding classify
class-classify_reused i c e known m h env code = ground (arith, reused_code i c m)
