-- ===== src/Api/Envelope.antt =====
-- internal/api/envelope.go: `DecodeEnvelope`, over the JSON value that `encoding/json` reads the
-- body as. Keys that differ from the seven in case alone are left out.
use ferry_cli.Base.{
  String, ◌==◌, ◌≡◌, ◌≢◌, refl, Bool, true, false, Option, none, some, List, [], ◌∷◌, arith,
  if◌then◌else◌, is_some, all, lookup, ℤ, eq_iff,
}
use ferry_cli.Outcome.Input.{Any, Envelope}

-- A JSON value, as far as the fields of the envelope take it in.
pub data Raw : Type 0 where
  null fraction array : Raw
  boolean : Bool → Raw
  number : ℤ → Raw
  text : String → Raw
  object : List (String × Any) → Raw

abbrev pub Fields : Type 0
Fields = List (String × Raw)

-- What the first `json.Unmarshal` finds: no object with an object or null under `error`, or no such
-- key or null there, or the fields.
pub data Outer : Type 0 where
  unreadable no_error : Outer
  error : Fields → Outer

abbrev pub envelope_keys : List String
envelope_keys =
    "code" ∷ "message" ∷ "retriable" ∷ "retry_after_seconds" ∷ "details" ∷ "request_id" ∷ "docs_url"
    ∷ []

-- `api.Envelope`.
pub record ApiEnvelope : Type 0 where
  pub code : String
  pub message : String
  pub retriable : Bool
  pub retry_after_seconds : Option ℤ
  pub details : List (String × Any)
  pub request_id : String
  pub docs_url : String

-- `Envelope.Outcome`.
unfoldable pub to_outcome : ApiEnvelope → Envelope
to_outcome e = record { code = e.code; details = e.details }

-- How `json.Unmarshal` fills a field of each type; null, and an absent key, leave the zero value.
unfoldable pub as_text : Option Raw → Option String
as_text (some (Raw.text s)) = some s
as_text (some Raw.null) = some ""
as_text none = some ""
as_text _ = none

unfoldable pub as_bool : Option Raw → Option Bool
as_bool (some (Raw.boolean b)) = some b
as_bool (some Raw.null) = some false
as_bool none = some false
as_bool _ = none

unfoldable pub as_int : Option Raw → Option (Option ℤ)
as_int (some (Raw.number n)) = some (some n)
as_int (some Raw.null) = some none
as_int none = some none
as_int _ = none

unfoldable pub as_object : Option Raw → Option (List (String × Any))
as_object (some (Raw.object m)) = some m
as_object (some Raw.null) = some []
as_object none = some []
as_object _ = none

infixl 5 ◌>>=◌
abbrev ◌>>=◌ : {A B : Type 0} → Option A → (A → Option B) → Option B
none >>= f = none
some a >>= f = f a

abbrev not_empty : ApiEnvelope → Option ApiEnvelope
not_empty e = if e.code == "" then none else some e

-- The second `json.Unmarshal`, and the test of the code.
unfoldable pub decode_fields : Fields → Option ApiEnvelope
unfolding lookup
decode_fields m = do
  code ← as_text (lookup "code" m)
  message ← as_text (lookup "message" m)
  retriable ← as_bool (lookup "retriable" m)
  retry_after_seconds ← as_int (lookup "retry_after_seconds" m)
  details ← as_object (lookup "details" m)
  request_id ← as_text (lookup "request_id" m)
  docs_url ← as_text (lookup "docs_url" m)
  not_empty (record {
    code = code;
    message = message;
    retriable = retriable;
    retry_after_seconds = retry_after_seconds;
    details = details;
    request_id = request_id;
    docs_url = docs_url;
  })

abbrev pub has_key : Fields → String → Bool
has_key m key = is_some (lookup key m)

-- `DecodeEnvelope`; `none` is `ErrEnvelopeShape`.
unfoldable pub decode_envelope : Outer → Option ApiEnvelope
unfolding all
decode_envelope Outer.unreadable = none
decode_envelope Outer.no_error = none
decode_envelope (Outer.error m) = if all (has_key m) envelope_keys then decode_fields m else none

as_text-some : (o : Option Raw) {s : String} → as_text o ≡ some s → s ≢ "" → o ≡ some (Raw.text s)
unfolding as_text
as_text-some o h n = ground arith

decode_fields-code :
    (m : Fields) (e : ApiEnvelope)
    → decode_fields m ≡ some e
    → (lookup "code" m ≡ some (Raw.text e.code)) × (e.code ≢ "")
unfolding decode_fields
decode_fields-code m e h =
    ground (arith, eq_iff e.code "", as_text-some (lookup "code" m) {s = e.code})

-- A decoded envelope has every one of the seven keys, and a code, which is the text under `code`.
pub decode_envelope_complete :
    (o : Outer) (e : ApiEnvelope)
    → decode_envelope o ≡ some e
    → (m : Fields) × (o ≡ Outer.error m)
      × (all (has_key m) envelope_keys ≡ true)
      × (lookup "code" m ≡ some (Raw.text e.code))
      × (e.code ≢ "")
unfolding decode_envelope
decode_envelope_complete Outer.unreadable e h = cc
decode_envelope_complete Outer.no_error e h = cc
decode_envelope_complete (Outer.error m) e h =
    let (code, filled) = decode_fields-code m e (ground arith) in
    (m, refl, ground arith, code, filled)
