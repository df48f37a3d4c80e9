-- ===== src/Outcome/Input.antt =====
-- internal/outcome/classify.go: the tuple that the table decides on.
use ferry_cli.Base.{ℕ, String, Bool, Option, none, some, List, lookup}
use ferry_cli.Outcome.Operation.{Operation}

pub data TransportPhase : Type 0 where
  dial after_write : TransportPhase

-- A failure with no HTTP answer. The error value itself is only printed.
pub record Transport : Type 0 where
  pub phase : TransportPhase

-- A decoded JSON value (`any`), as far as a type assertion to `string` tells it.
pub data Any : Type 0 where
  string : String → Any
  other : Any

-- The part of the error envelope that the table reads. A nil `Details` holds no key.
pub record Envelope : Type 0 where
  pub code : String
  pub details : List (String × Any)

pub record Success : Type 0 where
  pub parsed : Bool
  pub transaction_status : String

pub record Input : Type 0 where
  pub op : Operation
  pub status : ℕ
  pub transport : Option Transport
  pub envelope : Option Envelope
  pub success : Option Success
  pub command_id : String
  pub replayed : Bool

-- `s, _ := v.(string)`.
abbrev pub string_or_empty : Option Any → String
string_or_empty (some (Any.string s)) = s
string_or_empty (some Any.other) = ""
string_or_empty none = ""

abbrev detail_of : Option Envelope → String → String
detail_of none key = ""
detail_of (some e) key = string_or_empty (lookup key e.details)

-- `Input.detail`.
unfoldable pub detail : Input → String → String
unfolding lookup
detail i key = detail_of i.envelope key

-- `Input.Reason`.
unfoldable pub reason : Input → String
unfolding detail
reason i = detail i "reason"

-- `Input.State`.
unfoldable pub state : Input → String
unfolding detail
state i = detail i "state"

-- `Input.DetailCommandID`.
unfoldable pub detail_command_id : Input → String
unfolding detail
detail_command_id i = detail i "command_id"
