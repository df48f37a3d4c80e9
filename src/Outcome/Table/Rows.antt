-- ===== src/Outcome/Table/Rows.antt =====
-- internal/outcome/table.go: the rows of the census, one for each code of the error catalogue.
use ferry_cli.Base.{String, true, false, none, some, List, [], ◌∷◌}
use ferry_cli.Outcome.Class.{Class}
use ferry_cli.Outcome.Table.Row.{
  Rule, verdict, fix, spent_on_execute, plan_unusable, transient_row, off_surface_rule,
  quote_refusal, refine_key_reused, refine_upstream_busy, next_fix, next_resimulate, next_same_key,
  next_resume, next_escalate, next_read_fix, next_read_retry, next_reused_escalate,
}

abbrev pub credential_rows : List (String × Rule)
credential_rows =
    ("TOKEN_MISSING", fix)
    ∷ ("TOKEN_INVALID", fix)
    ∷ ("TOKEN_EXPIRED", fix)
    ∷ ("TOKEN_REVOKED", fix)
    ∷ ("ORGANIZATION_SUSPENDED", fix)
    ∷ ("ENVIRONMENT_DISABLED", fix)
    ∷ ("WRONG_TOKEN_CLASS", fix)
    ∷ ("INSUFFICIENT_SCOPE", fix)
    ∷ ("ROLE_FORBIDDEN", fix)
    ∷ ("STEP_UP_REQUIRED", fix)
    ∷ ("FORBIDDEN", fix)
    ∷ []

abbrev pub request_rows : List (String × Rule)
request_rows =
    ("NOT_FOUND", fix)
    ∷ ("VALIDATION_FAILED", fix)
    ∷ ("MALFORMED_JSON", fix)
    ∷ ("CURSOR_INVALID", fix)
    ∷ ("UNSUPPORTED_MEDIA_TYPE", fix)
    ∷ ("IDEMPOTENCY_KEY_REQUIRED", fix)
    ∷ ("IDEMPOTENCY_KEY_INVALID", fix)
    ∷ []

abbrev pub key_rows : List (String × Rule)
key_rows =
    (
      "IDEMPOTENCY_KEY_REUSED",
      record {
        simulate = verdict Class.escalate next_reused_escalate;
        execute = verdict Class.escalate next_reused_escalate;
        read = verdict Class.refused_fix next_read_fix;
        unreachable = false;
        off_surface = false;
        refine = some refine_key_reused;
      },
    )
    ∷ (
      "IDEMPOTENCY_KEY_IN_PROGRESS",
      record {
        simulate =
            verdict Class.pending
              "This key names a command that is still running. Poll it: `ferry commands watch <command_id>`. Do not resend under a new key.";
        execute =
            verdict Class.pending
              "This key names a command that is still running. Poll it: `ferry commands watch <command_id>`. Do not resend under a new key.";
        read = verdict Class.transient next_read_retry;
        unreachable = false;
        off_surface = false;
        refine = none;
      },
    )
    ∷ (
      "IDEMPOTENCY_KEY_REPLAY_EXPIRED",
      record {
        simulate =
            verdict Class.escalate
              "The stored answer for this key has expired, and FERRY will never re-execute the key. Read the command before sending anything else.";
        execute =
            verdict Class.escalate
              "The stored answer for this key has expired, and FERRY will never re-execute the key. Read the command before sending anything else.";
        read = verdict Class.refused_fix next_read_fix;
        unreachable = false;
        off_surface = false;
        refine = none;
      },
    )
    ∷ (
      "COMMAND_UNRESOLVED",
      record {
        simulate = verdict Class.escalate next_escalate;
        execute = verdict Class.escalate next_escalate;
        read = verdict Class.escalate next_escalate;
        unreachable = false;
        off_surface = false;
        refine = none;
      },
    )
    ∷ []

abbrev pub fault_rows : List (String × Rule)
fault_rows =
    ("RATE_LIMITED", transient_row)
    ∷ (
      "INTERNAL_ERROR",
      record {
        simulate = verdict Class.pending next_resume;
        execute = verdict Class.pending next_resume;
        read = verdict Class.transient next_read_retry;
        unreachable = false;
        off_surface = false;
        refine = none;
      },
    )
    ∷ ("SERVICE_UNAVAILABLE", transient_row)
    ∷ []

abbrev pub upstream_rows : List (String × Rule)
upstream_rows =
    (
      "UPSTREAM_BUSY",
      record {
        simulate = verdict Class.transient next_same_key;
        execute = verdict Class.transient next_same_key;
        read = verdict Class.transient next_read_retry;
        unreachable = false;
        off_surface = false;
        refine = some refine_upstream_busy;
      },
    )
    ∷ (
      "UPSTREAM_NOT_CONFIGURED",
      record {
        simulate =
            verdict Class.refused_fix
              "This deployment has no upstream credential attached, so this operation cannot run. There is nothing to retry until an operator attaches one.";
        execute =
            verdict Class.refused_fix
              "This deployment has no upstream credential attached, so this operation cannot run. There is nothing to retry until an operator attaches one. The plan was not looked up and is untouched.";
        read = verdict Class.refused_fix next_read_fix;
        unreachable = false;
        off_surface = false;
        refine = none;
      },
    )
    ∷ (
      "UPSTREAM_UNAVAILABLE",
      plan_unusable
          "The request never reached the upstream service and the command behind this key was given up on. Nothing executed, and the plan is spent — simulate again.",
    )
    ∷ (
      "UPSTREAM_CONTRACT_VIOLATION",
      record {
        simulate = verdict Class.refused_fix next_fix;
        execute =
            verdict Class.refused_resimulate
              "The quote behind this plan is one FERRY cannot act on. Nothing was sent and the plan is untouched, but it cannot be executed — simulate again.";
        read = verdict Class.refused_fix next_read_fix;
        unreachable = false;
        off_surface = false;
        refine = none;
      },
    )
    ∷ (
      "UPSTREAM_CREDENTIALS_INVALID",
      record {
        simulate =
            verdict Class.refused_fix
              "This deployment's upstream credential was refused. An operator must re-attach it; there is nothing to retry.";
        execute =
            verdict Class.refused_fix
              "This deployment's upstream credential was refused. An operator must re-attach it; there is nothing to retry.";
        read = verdict Class.refused_fix next_read_fix;
        unreachable = true;
        off_surface = false;
        refine = none;
      },
    )
    ∷ (
      "UPSTREAM_AUTH_UNAVAILABLE",
      record {
        simulate = verdict Class.transient next_same_key;
        execute = verdict Class.transient next_same_key;
        read = verdict Class.transient next_read_retry;
        unreachable = true;
        off_surface = false;
        refine = none;
      },
    )
    ∷ []

abbrev pub plan_rows : List (String × Rule)
plan_rows =
    ("PLAN_NOT_FOUND", plan_unusable next_resimulate)
    ∷ (
      "PLAN_EXPIRED",
      plan_unusable
          "This plan has expired; plans last five minutes. Simulate again and execute the new plan under a new Idempotency-Key.",
    )
    ∷ (
      "PLAN_ALREADY_USED",
      plan_unusable "This plan has already been used, and a plan is single-use. Simulate again.",
    )
    ∷ (
      "PLAN_CHANGED",
      plan_unusable
          "The quote behind this plan has been re-priced. Simulate again to see the new terms.",
    )
    ∷ (
      "PLAN_KEY_MISMATCH",
      plan_unusable
          "This plan was issued to another credential. The plan was rolled back rather than spent, but it cannot be executed by this credential — simulate again under the credential you mean to use.",
    )
    ∷ []

abbrev pub policy_rows : List (String × Rule)
policy_rows =
    (
      "POLICY_NOT_CONFIGURED",
      spent_on_execute
          "This environment has no spend policy, so no money may move. The plan is spent. An operator must configure one; then simulate again.",
    )
    ∷ (
      "POLICY_INVALID",
      spent_on_execute
          "This credential's spend policy cannot be read, so no money may move. The plan is spent.",
    )
    ∷ (
      "POLICY_UNPRICED_ASSET",
      spent_on_execute
          "This asset has no USD basis, so it cannot be counted against a spend policy. The plan is spent.",
    )
    ∷ (
      "POLICY_CUSTOMER_NOT_ALLOWED",
      spent_on_execute "This credential may not move money for this customer. The plan is spent.",
    )
    ∷ (
      "POLICY_DESTINATION_NOT_ALLOWED",
      spent_on_execute "This credential may not move money to this destination. The plan is spent.",
    )
    ∷ (
      "POLICY_MAX_AMOUNT_PER_TRANSACTION",
      spent_on_execute
          "This transfer is over the per-transaction limit. The plan is spent; simulate a smaller transfer.",
    )
    ∷ (
      "POLICY_MAX_AMOUNT_PER_DAY",
      spent_on_execute "This transfer is over the daily amount limit. The plan is spent.",
    )
    ∷ (
      "POLICY_MAX_AMOUNT_PER_30D",
      spent_on_execute "This transfer is over the 30-day amount limit. The plan is spent.",
    )
    ∷ (
      "POLICY_MAX_TRANSACTIONS_PER_DAY",
      spent_on_execute
          "This transfer is over the daily transaction-count limit. The plan is spent.",
    )
    ∷ (
      "DESTINATION_TOO_NEW",
      record {
        simulate = verdict Class.refused_fix next_fix;
        execute =
            verdict Class.refused_resimulate
              "This destination is not usable yet. Wait for the delay this environment's policy requires, then simulate again — the plan behind the refused request is spent.";
        read = verdict Class.refused_fix next_read_fix;
        unreachable = true;
        off_surface = false;
        refine = none;
      },
    )
    ∷ (
      "EXECUTION_SUSPENDED",
      spent_on_execute
          "Execution is suspended for this environment. The plan is spent. Nothing will execute until it is lifted.",
    )
    ∷ []

abbrev pub quote_rows : List (String × Rule)
quote_rows =
    (
      "CORRIDOR_UNSUPPORTED",
      quote_refusal
          "This API does not quote transfers between these two instrument types. Fix the request and simulate again.",
    )
    ∷ (
      "CORRIDOR_NOT_EXECUTABLE",
      quote_refusal
          "This corridor is published but cannot be executed; see details.reason. Fix the request and simulate again.",
    )
    ∷ (
      "DESTINATION_NOT_EXECUTABLE",
      quote_refusal "This destination cannot be executed against; see details.reason.",
    )
    ∷ (
      "INSTRUMENT_INVALID",
      quote_refusal "An instrument field is outside the vocabulary this arm admits; see details.",
    )
    ∷ (
      "AMOUNT_INVALID",
      quote_refusal "The amount block is not one this corridor can be quoted on; see details.",
    )
    ∷ (
      "QUOTE_REJECTED",
      quote_refusal
          "The upstream service refused to quote this transfer. The same body under a new key asks the same rejected question — change the transfer.",
    )
    ∷ []

abbrev pub webhook_rows : List (String × Rule)
webhook_rows =
    ("WEBHOOK_ENDPOINT_UNKNOWN", off_surface_rule Class.refused_fix next_read_fix)
    ∷ ("WEBHOOK_ENDPOINT_RETIRED", off_surface_rule Class.refused_fix next_read_fix)
    ∷ ("WEBHOOK_SIGNATURE_INVALID", off_surface_rule Class.refused_fix next_read_fix)
    ∷ ("WEBHOOK_MODE_MISMATCH", off_surface_rule Class.refused_fix next_read_fix)
    ∷ ("WEBHOOK_BODY_TOO_LARGE", off_surface_rule Class.refused_fix next_read_fix)
    ∷ ("WEBHOOK_INGRESS_UNVERIFIED", off_surface_rule Class.transient next_read_retry)
    ∷ []
