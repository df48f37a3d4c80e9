-- ===== src/Outcome/Table/Row.antt =====
-- internal/outcome/table.go: the shapes of the rows, the sentences that recur, and the refinements.
use ferry_cli.Base.{String, Bool, true, false, Option, none, ◌==◌, if◌then◌else◌}
use ferry_cli.Outcome.Class.{Class}
use ferry_cli.Outcome.Operation.{OpClass, is_money}
use ferry_cli.Outcome.Input.{Input, reason}

pub record Verdict : Type 0 where
  pub class : Class
  pub next : String

abbrev pub verdict : Class → String → Verdict
verdict class next = record { class = class; next = next }

abbrev pub Refine : Type 0
Refine = Input → OpClass → Verdict → Verdict

pub record Rule : Type 0 where
  pub simulate : Verdict
  pub execute : Verdict
  pub read : Verdict
  pub unreachable : Bool
  pub off_surface : Bool
  pub refine : Option Refine

-- `rule.verdictFor`: refusals of a create read the column of the reads.
abbrev pub verdict_for : Rule → OpClass → Verdict
verdict_for r OpClass.money_simulate = r.simulate
verdict_for r OpClass.money_execute = r.execute
verdict_for r OpClass.read = r.read
verdict_for r OpClass.control_create = r.read

abbrev pub next_fix : String
next_fix =
    "Nothing was sent and nothing was spent. Fix the request or the credential, then send it under a new Idempotency-Key."

abbrev pub next_resimulate : String
next_resimulate =
    "The plan behind this request cannot be used. Simulate again, and execute the new plan under a new Idempotency-Key."

abbrev pub next_same_key : String
next_same_key =
    "Nothing was sent. Wait retry_after_seconds and resend the identical request under the same Idempotency-Key."

abbrev pub next_resume : String
next_resume =
    "The outcome is not established. `ferry runs resume <run_id>` or `ferry commands watch <command_id>`. Never send this request under a new Idempotency-Key."

abbrev pub next_escalate : String
next_escalate = "Stop. A human must read this command before anything else is sent under this key."

abbrev pub next_read_fix : String
next_read_fix = "Fix the request or the credential and run the command again."

abbrev pub next_read_retry : String
next_read_retry = "Wait retry_after_seconds and run the command again."

abbrev pub next_reused_escalate : String
next_reused_escalate =
    "This Idempotency-Key is held by a command this credential cannot read, so FERRY will not say what happened to it. Something of yours may be under this key. Do not send a new key: log back in as the credential that started the run and read the command."

-- A rule with the three verdicts and no flag.
abbrev row : Verdict → Verdict → Verdict → Rule
row s e r = record {
  simulate = s;
  execute = e;
  read = r;
  unreachable = false;
  off_surface = false;
  refine = none;
}

abbrev pub fix : Rule
fix =
    row (verdict Class.refused_fix next_fix) (verdict Class.refused_fix next_fix)
      (verdict Class.refused_fix next_read_fix)

abbrev pub spent_on_execute : String → Rule
spent_on_execute execute_next =
    row (verdict Class.refused_fix next_fix) (verdict Class.refused_resimulate execute_next)
      (verdict Class.refused_fix next_read_fix)

abbrev pub plan_unusable : String → Rule
plan_unusable next =
    row (verdict Class.refused_resimulate next) (verdict Class.refused_resimulate next)
      (verdict Class.refused_fix next_read_fix)

-- `transient`.
abbrev pub transient_row : Rule
transient_row =
    row (verdict Class.transient next_same_key) (verdict Class.transient next_same_key)
      (verdict Class.transient next_read_retry)

abbrev off_surface_next : String
off_surface_next =
    "FERRY answered a /v1 request with a code only its webhook ingress emits. Treat the outcome as unknown: `ferry runs resume <run_id>`, and report this — it is a bug in FERRY."

abbrev pub off_surface_rule : Class → String → Rule
off_surface_rule read_class read_next = record {
  simulate = verdict Class.pending off_surface_next;
  execute = verdict Class.pending off_surface_next;
  read = verdict read_class read_next;
  unreachable = false;
  off_surface = true;
  refine = none;
}

abbrev pub quote_refusal : String → Rule
quote_refusal next =
    row (verdict Class.refused_fix next)
      (verdict Class.refused_resimulate
        "FERRY answered an execute with a pricing refusal, so the plan behind it cannot be relied on. Simulate again.")
      (verdict Class.refused_fix next_read_fix)

-- `refineKeyReused`.
unfoldable pub refine_key_reused : Refine
unfolding reason
refine_key_reused i class v =
    if is_money class
    then (if reason i == "different_request"
        then verdict Class.refused_fix
            "This Idempotency-Key was already used for a *different* request body. Nothing of this request was sent. Fix the body, or send this body under a new key."
        else v)
    else v

-- `refineUpstreamBusy`.
unfoldable pub refine_upstream_busy : Refine
refine_upstream_busy i class v =
    if is_money class
    then (if i.command_id == ""
        then v
        else verdict Class.pending
            "FERRY could not reach the upstream service and has scheduled its own retry. Wait retry_after_seconds and resend the identical request under the same Idempotency-Key; it will answer 202 and you poll the command. Never a new key.")
    else v
