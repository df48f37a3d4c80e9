-- ===== src/Transfers/Body.antt =====
-- internal/noun/transfers/body.go: the bytes of a transfer request, from the flags or from a document.
-- Reading a file or the standard input, UTF-8, JSON and `strings.TrimSpace` are a library's.
pub mod Metadata
pub mod Forwards
mod Tests
use ferry_cli.Base.{
  ℕ, String, ◌==◌, Bool, true, false, not, Option, none, some, List, [], ◌∷◌, ◌++◌, if◌then◌else◌,
  eqb, is_some,
}
use ferry_cli.Outcome.Class.{Class}
use ferry_cli.Api.Target.{Bytes}
use ferry_cli.Creds.{same_bytes, is_empty}
use ferry_cli.Noun.{Opened, stopped, opened}

-- `api.TransferSide`.
pub record TransferSide : Type 0 where
  pub type : String
  pub id : String
  pub asset : String
  pub network : String
  pub account_holder : String
  pub blockchain_address : String
  pub cash_location_id : String
  pub cash_location_reference : String

-- The `map[string]any` of the request, whose values are texts; nil is the empty one.
abbrev pub Metadata : Type 0
Metadata = Bytes → Option Bytes

abbrev pub no_metadata : Metadata
no_metadata k = none

-- `api.TransferRequest`.
pub record TransferRequest : Type 0 where
  pub customer_id : String
  pub source : TransferSide
  pub destination : TransferSide
  pub amount_side : String
  pub amount_value : String
  pub sponsor_gas : Option Bool
  pub metadata : Metadata

-- `bodyFlags`. The source has no account holder.
pub record BodyFlags : Type 0 where
  pub customer : String
  pub from : TransferSide
  pub to : TransferSide
  pub amount : String
  pub amount_side : String
  pub sponsor_gas : Bool
  pub metadata : List Bytes
  pub body : String

-- What the code takes from its surroundings: which flags the caller typed, what a source holds, and how
-- many keys a text has if it is an object.
pub record Reads : Type 0 where
  pub changed : String → Bool
  pub contents : String → Option Bytes
  pub is_utf8 : Bytes → Bool
  pub object_keys : Bytes → Option ℕ
  pub marshal : TransferRequest → Option Bytes
  pub trim : Bytes → Bytes

-- `fieldFlagNames`.
abbrev pub field_flag_names : List String
field_flag_names =
    "customer" ∷ "from-type" ∷ "from-id" ∷ "from-asset" ∷ "from-network" ∷ "from-blockchain-address"
    ∷ "from-cash-location-id" ∷ "from-cash-location-reference" ∷ "to-type" ∷ "to-id" ∷ "to-asset"
    ∷ "to-network" ∷ "to-account-holder" ∷ "to-blockchain-address" ∷ "to-cash-location-id"
    ∷ "to-cash-location-reference" ∷ "amount" ∷ "amount-side" ∷ "sponsor-gas" ∷ "metadata" ∷ []

-- `changedFieldFlags`, which sorts them for a message.
unfoldable pub changed_among : (String → Bool) → List String → List String
changed_among changed [] = []
changed_among changed (name ∷ names) =
    let rest = changed_among changed names in if changed name then name ∷ rest else rest

abbrev pub changed_field_flags : Reads → List String
changed_field_flags r = changed_among r.changed field_flag_names

abbrev pub no_flags : List String → Bool
no_flags [] = true
no_flags (n ∷ ns) = false

abbrev pub after_byte : ℕ → Option (Bytes × Bytes) → Option (Bytes × Bytes)
after_byte c none = none
after_byte c (some (key, value)) = some (c ∷ key, value)

-- `strings.Cut` at an equals sign.
unfoldable pub cut : Bytes → Option (Bytes × Bytes)
cut [] = none
cut (c ∷ cs) = let rest = cut cs in if eqb c 61 then some ([], cs) else after_byte c rest

-- `out[key]`, as whether it is there.
abbrev pub is_seen : Bytes → Metadata → Bool
is_seen k m = is_some (m k)

-- `out[key] = value`.
unfoldable pub with_entry : Metadata → Bytes → Bytes → Metadata
unfolding same_bytes
with_entry m key value k = if same_bytes key k then some value else m k

-- A round of the loop of `parseMetadata`.
abbrev pub add_pair : Metadata → Option (Bytes × Bytes) → Opened Metadata
add_pair m none = stopped Class.usage
add_pair m (some (key, value)) =
    if is_empty key
    then stopped Class.usage
    else if is_seen key m
    then stopped Class.usage
    else opened (with_entry m key value)

unfoldable pub add_pairs : List Bytes → Metadata → Opened Metadata
unfolding cut with_entry
add_pairs [] m = opened m
add_pairs (pair ∷ pairs) m = elim (add_pair m (cut pair)) [
  | stopped c ↦ stopped c
  | opened n ↦ add_pairs pairs n
]

-- `parseMetadata`; no pairs give no object.
unfoldable pub parse_metadata : List Bytes → Opened Metadata
parse_metadata pairs = add_pairs pairs no_metadata

-- `trimTrailingNewline`.
unfoldable pub trim_trailing_newline : Bytes → Bytes
trim_trailing_newline [] = []
trim_trailing_newline (c ∷ []) = if eqb c 10 then [] else c ∷ []
trim_trailing_newline (c ∷ d ∷ cs) = c ∷ trim_trailing_newline (d ∷ cs)

abbrev pub checked_object : Bytes → Option ℕ → Opened Bytes
checked_object raw none = stopped Class.usage
checked_object raw (some n) = if eqb n 0 then stopped Class.usage else opened raw

abbrev pub checked_body : Reads → Bytes → Opened Bytes
checked_body r raw =
    if is_empty raw
    then stopped Class.usage
    else if not (r.is_utf8 raw)
    then stopped Class.usage
    else checked_object raw (r.object_keys raw)

abbrev pub read_contents : Reads → Option Bytes → Opened Bytes
read_contents r none = stopped Class.usage
read_contents r (some raw) = checked_body r (trim_trailing_newline raw)

-- `readBody`.
unfoldable pub read_body : Reads → String → Opened Bytes
unfolding trim_trailing_newline
read_body r source = read_contents r (r.contents source)

abbrev pub request_of : Reads → BodyFlags → Metadata → TransferRequest
request_of r f m = record {
  customer_id = f.customer;
  source = record f.from { account_holder = "" };
  destination = f.to;
  amount_side = f.amount_side;
  amount_value = f.amount;
  sponsor_gas = if r.changed "sponsor-gas" then some f.sponsor_gas else none;
  metadata = m;
}

abbrev pub marshalled : Option Bytes → Opened Bytes
marshalled none = stopped Class.cli_fault
marshalled (some raw) = opened raw

abbrev pub with_metadata : Reads → BodyFlags → Opened Metadata → Opened Bytes
with_metadata r f (stopped c) = stopped c
with_metadata r f (opened m) = marshalled (r.marshal (request_of r f m))

-- `buildBody`.
unfoldable pub build_body : Reads → BodyFlags → Opened Bytes
unfolding changed_among
build_body r f =
    if not (f.body == "")
    then if not (no_flags (changed_field_flags r)) then stopped Class.usage else read_body r f.body
    else if no_flags (changed_field_flags r)
    then stopped Class.usage
    else with_metadata r f (parse_metadata f.metadata)

abbrev pub token_read : Reads → Option Bytes → Opened Bytes
token_read r none = stopped Class.cli_fault
token_read r (some raw) = if is_empty (r.trim raw) then stopped Class.usage else opened (r.trim raw)

abbrev pub dash : Bytes
dash = 45 ∷ []

-- `planToken`.
unfoldable pub plan_token : Reads → Bytes → Opened Bytes
unfolding same_bytes
plan_token r value =
    if is_empty value
    then stopped Class.usage
    else if not (same_bytes value dash)
    then opened value
    else token_read r (r.contents "-")
