-- ===== src/Api/Client.antt =====
-- internal/api/client.go: one request, its attempts, and the loop that resends.
pub mod Budget
pub mod SameKey
pub mod Overflow
use ferry_cli.Base.{
  ℕ, zero, suc, ◌+◌, String, ◌==◌, Bool, true, false, ◌&&◌, not, Option, none, some, List, [], ◌∷◌,
  leb, ltb, eqb, if◌then◌else◌, is_some,
}
use ferry_cli.Outcome.Operation.{Operation, OpClass, class_of}
use ferry_cli.Outcome.Input.{TransportPhase, Transport, Envelope, Success, Input, detail_command_id}
use ferry_cli.Outcome.Classify.{is_2xx}
use ferry_cli.Api.Duration.{seconds, past, sleep}
use ferry_cli.Api.Meta.{Meta, read_meta, retry_delay_seconds, codes}
use ferry_cli.Api.Routes.{Route, route_for}
use ferry_cli.Api.Target.{Bytes, expand}
use ferry_cli.Api.Envelope.{ApiEnvelope, Outer, to_outcome, decode_envelope}
use ferry_cli.Api.Retry.{retryable, default_retry_budget}

-- One call. `params` fill the path, in the order in which the map is ranged over.
pub record Request : Type 0 where
  pub op : Operation
  pub params : List (Bytes × Bytes)
  pub body : Option Bytes
  pub idempotency_key : String

-- One answer, or the absence of one.
pub record Result : Type 0 where
  pub op : Operation
  pub meta : Meta
  pub body : Bytes
  pub envelope : Option ApiEnvelope
  pub transport : Option Transport
  pub attempts : ℕ

-- What `http.Client` makes of one send: a fault, with the phase that the trace hook saw; a status
-- whose body broke off; or an answer. `outer` is what `encoding/json` reads the body as.
pub data Wire : Type 0 where
  fault : TransportPhase → Wire
  truncated : Wire
  answer : ℕ → (String → String) → Bytes → Outer → Wire

abbrev pub zero_meta : Meta
zero_meta = record {
  status = 0;
  command_id = "";
  environment = "";
  idempotency_key = "";
  replayed = false;
  retry_after = none;
  www_authenticate = "";
  environment_mismatch = false;
  expected_environment = "";
}

abbrev unanswered : Operation → TransportPhase → Result
unanswered op phase = record {
  op = op;
  meta = zero_meta;
  body = [];
  envelope = none;
  transport = some (record { phase = phase });
  attempts = 0;
}

-- `attempt`: what one send becomes.
unfoldable pub attempt : Operation → String → Wire → Result
attempt op environment (fault phase) = unanswered op phase
attempt op environment truncated = unanswered op TransportPhase.after_write
attempt op environment (answer status headers body outer) = record {
  op = op;
  meta = read_meta status headers environment;
  body = body;
  envelope = if is_2xx status then none else decode_envelope outer;
  transport = none;
  attempts = 0;
}

abbrev with_detail : Input → Input
with_detail i = if i.command_id == "" then record i { command_id = detail_command_id i } else i

-- `Result.Input`.
unfoldable pub to_input : Result → Bool → String → Input
unfolding to_outcome
to_input r parsed transaction_status = with_detail (record {
  op = r.op;
  status = r.meta.status;
  transport = r.transport;
  envelope = elim r.envelope [ none ↦ none | some e ↦ some (to_outcome e) ];
  success =
      if not (is_some r.transport) && is_2xx r.meta.status
      then some (record { parsed = parsed; transaction_status = transaction_status })
      else none;
  command_id = r.meta.command_id;
  replayed = r.meta.replayed;
})

-- What `Do` refuses to send.
pub data Refusal : Type 0 where
  no_route missing_key stray_key bad_target no_class : Refusal

pub data DoResult : Type 0 where
  refused : Refusal → DoResult
  returned : Result → DoResult
  running : DoResult

abbrev pub code_of : Option ApiEnvelope → String
code_of none = ""
code_of (some e) = e.code

-- The answer is the last word: there was none, it may not be resent, or the wait would end past the
-- budget.
unfoldable pub is_final : OpClass → ℕ → ℕ → Result → Bool
is_final class budget now r =
    if is_some r.transport
    then true
    else if retryable class r.meta.status (code_of r.envelope) r.meta.command_id
    then past now (seconds (retry_delay_seconds r.meta)) budget
    else true

-- The network and the clock of one `Do`: what the n-th send becomes, and how long it took.
pub record World : Type 0 where
  pub wire : ℕ → Wire
  pub lapse : ℕ → ℕ

-- What a `Client` is set up with.
pub record Client : Type 0 where
  pub environment : String
  pub retry_budget : ℕ

abbrev pub budget_of : Client → ℕ
budget_of c = if eqb c.retry_budget 0 then default_retry_budget else c.retry_budget

-- The loop of `Do`, `sent` requests and `now` nanoseconds in.
unfoldable pub send_loop : World → Client → Request → OpClass → ℕ → ℕ → ℕ → DoResult
unfolding is_final
send_loop w c req class zero sent now = running
send_loop w c req class (suc fuel) sent now =
    let r = attempt req.op c.environment (w.wire sent) in
    let result = record r { attempts = sent + 1 } in
    let then_now = now + w.lapse sent in
    let rest =
      send_loop w c req class fuel (sent + 1)
        (sleep then_now (seconds (retry_delay_seconds r.meta))) in
    if is_final class (budget_of c) then_now r then returned result else rest

abbrev pub send_class : World → Client → Request → ℕ → Option OpClass → DoResult
send_class w c req fuel none = refused no_class
send_class w c req fuel (some class) = send_loop w c req class fuel 0 0

abbrev pub send_target : World → Client → Request → ℕ → Option Bytes → DoResult
send_target w c req fuel none = refused bad_target
send_target w c req fuel (some target) = send_class w c req fuel (class_of req.op)

abbrev pub send_route : World → Client → Request → ℕ → Option Route → DoResult
send_route w c req fuel none = refused no_route
send_route w c req fuel (some route) =
    if route.idempotent && req.idempotency_key == ""
    then refused missing_key
    else if not route.idempotent && not (req.idempotency_key == "")
    then refused stray_key
    else send_target w c req fuel (expand (codes route.path) req.params)

-- `Do`.
unfoldable pub do_request : World → Client → Request → ℕ → DoResult
do_request w c req fuel = send_route w c req fuel (route_for req.op)
