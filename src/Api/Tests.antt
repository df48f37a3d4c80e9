-- ===== src/Api/Tests.antt =====
-- Runs of the client, and the theorems about it at concrete requests.
use ferry_cli.Base.{
  ℕ, zero, suc, String, ◌==◌, ◌≡◌, ◌≤◌, refl, true, false, none, some, List, [], ◌∷◌, arith,
  if◌then◌else◌,
}
use ferry_cli.Outcome.Operation.{OpClass, class_of, op_create_api_key, op_execute_transfer}
use ferry_cli.Outcome.Classify.{classify}
use ferry_cli.Api.Duration.{seconds, past, sleep}
use ferry_cli.Api.Meta.{read_meta, retry_delay_seconds, codes, atoi}
use ferry_cli.Api.Routes.{route_for}
use ferry_cli.Api.Target.{Bytes, expand}
use ferry_cli.Api.Envelope.{
  Raw, Fields, Outer, ApiEnvelope, decode_envelope, decode_fields, as_text, as_bool, as_int,
  as_object,
}
use ferry_cli.Api.Retry.{retryable}
use ferry_cli.Api.Client.{
  Request, Result, Wire, answer, World, Client, returned, running, attempt, to_input, send_loop,
  do_request,
}
use ferry_cli.Api.Client.Budget.{answered, Ends, do_request-Ends}
use ferry_cli.Api.Client.SameKey.{same_key_safe-retryable}
use ferry_cli.Api.Client.Overflow.{IsNegativeWait, send_loop-overflow}

abbrev busy_fields : Fields
busy_fields =
    ("code", Raw.text "SERVICE_UNAVAILABLE")
    ∷ ("message", Raw.text "try again")
    ∷ ("retriable", Raw.boolean true)
    ∷ ("retry_after_seconds", Raw.null)
    ∷ ("details", Raw.null)
    ∷ ("request_id", Raw.text "req_1")
    ∷ ("docs_url", Raw.null)
    ∷ []

abbrev busy_envelope : ApiEnvelope
busy_envelope = record {
  code = "SERVICE_UNAVAILABLE";
  message = "try again";
  retriable = true;
  retry_after_seconds = none;
  details = [];
  request_id = "req_1";
  docs_url = "";
}

busy_decodes : decode_envelope (Outer.error busy_fields) ≡ some busy_envelope
unfolding decode_envelope decode_fields as_text as_bool as_int as_object
busy_decodes = refl

-- A 503 that asks for a wait.
abbrev retry_headers : String → String → String
retry_headers wait name = if name == "Retry-After" then wait else ""

abbrev busy : String → Wire
busy wait = answer 503 (retry_headers wait) [] (Outer.error busy_fields)

abbrev done : Wire
done = answer 201 (λ _. "") [] Outer.unreadable

-- One 503, then a 201.
abbrev recovers : ℕ → Wire
recovers zero = busy "2"
recovers (suc n) = done

abbrev world : World
world = record { wire = recovers; lapse = λ _. 1 }

abbrev client : Client
client = record { environment = ""; retry_budget = 0 }

abbrev execute : Request
execute = record {
  op = op_execute_transfer;
  params = [];
  body = some [];
  idempotency_key = "run-execute";
}

execute_runs :
    do_request world client execute 3
    ≡ returned (record (attempt op_execute_transfer "" done) { attempts = 2 })
unfolding do_request route_for class_of expand send_loop attempt retryable retry_delay_seconds
    read_meta atoi past sleep seconds decode_envelope decode_fields as_text as_bool as_int as_object
execute_runs = refl

recovers_patient :
    (n : ℕ) → retry_delay_seconds (answered world client execute n).meta ≤ 9_223_372_036
unfolding attempt retry_delay_seconds read_meta atoi
recovers_patient zero = omega arith
recovers_patient (suc n) = omega arith

do_request-Ends_example : Ends world client execute (do_request world client execute 61)
do_request-Ends_example =
    do_request-Ends world client execute 61 recovers_patient (omega arith) (omega arith)

abbrev mint : Request
mint = record { op = op_create_api_key; params = []; body = some []; idempotency_key = "" }

abbrev endless : World
endless = record { wire = λ _. busy "9223372037"; lapse = λ _. 0 }

endless_waits : (n : ℕ) → IsNegativeWait OpClass.money_execute (answered endless client execute n)
unfolding attempt retryable retry_delay_seconds read_meta atoi decode_envelope decode_fields as_text
    as_bool as_int as_object
endless_waits n = record { answered = refl; again = refl; long = omega arith; short = omega arith }

send_loop-overflow_example :
    send_loop endless client execute OpClass.money_execute 1000 0 0 ≡ running
send_loop-overflow_example =
    send_loop-overflow endless client execute OpClass.money_execute endless_waits (λ _. refl) 1000 0

busy_again : retryable OpClass.money_execute 503 "SERVICE_UNAVAILABLE" "" ≡ true
unfolding retryable
busy_again = refl

abbrev busy_result : Result
busy_result = attempt op_execute_transfer "" (busy "2")

same_key_safe-retryable_example : (classify (to_input busy_result false "")).same_key_safe ≡ true
unfolding class_of attempt read_meta decode_envelope decode_fields as_text as_bool as_int as_object
    retryable
same_key_safe-retryable_example =
    same_key_safe-retryable busy_result OpClass.money_execute false "" refl refl refl (omega arith)
      refl

abbrev key_path : Bytes
key_path = codes "/v1/api_keys/{id}"

-- A parameter that tries to leave its segment.
abbrev sly : List (Bytes × Bytes)
sly = (codes "id", codes "a/../me") ∷ []

sly_expands : expand key_path sly ≡ some (codes "/v1/api_keys/a%2F..%2Fme")
unfolding expand
sly_expands = refl
