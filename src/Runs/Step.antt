-- ===== src/Runs/Step.antt =====
-- internal/runs/record.go: step states, steps and runs, with their predicates. An instant is the zero
-- time, `none`, or a number of nanoseconds.
use ferry_cli.Base.{
  ℕ, zero, suc, String, ◌==◌, Bool, true, false, ◌&&◌, ◌||◌, not, Option, none, some, List, [], ◌∷◌,
  leb, eqb, if◌then◌else◌, ℤ, pos, negsuc, length, all,
}
use ferry_cli.Api.Target.{Bytes}
use ferry_cli.Api.Meta.{codes}

-- `State`: the seven of `AllStates`, and any other text that a record may hold.
pub data State : Type 0 where
  not_started awaiting_confirmation declined pending answered terminal unreachable : State
  other : String → State

-- `State.Terminal`.
unfoldable pub is_terminal : State → Bool
is_terminal State.terminal = true
is_terminal State.declined = true
is_terminal State.unreachable = true
is_terminal _ = false

-- `State.MayHaveSent`.
unfoldable pub may_have_sent : State → Bool
may_have_sent State.pending = true
may_have_sent State.answered = true
may_have_sent State.terminal = true
may_have_sent _ = false

pub record Plan : Type 0 where
  pub id : String
  pub expires_at : Option ℕ

pub record Response : Type 0 where
  pub status : ℕ
  pub headers : List (String × String)
  pub body : Bytes
  pub received_at : Option ℕ

-- `Outcome` of the package: what the decision table said, as recorded.
pub record RunOutcome : Type 0 where
  pub class : String
  pub exit_code : ℤ
  pub money : String
  pub same_key_safe : Bool
  pub next : String

abbrev resumable_code : ℤ → Bool
resumable_code (pos n) = eqb n 5 || eqb n 6
resumable_code (negsuc n) = false

-- `Outcome.Resumable`.
unfoldable pub resumable : Option RunOutcome → Bool
resumable none = false
resumable (some o) = resumable_code o.exit_code

pub record Step : Type 0 where
  pub name : String
  pub operation : String
  pub method : String
  pub path : String
  pub idempotency_key : String
  pub body_sha256 : Option String
  pub body : Option Bytes
  pub plan : Option Plan
  pub plan_token : Option String
  pub state : State
  pub attempts : ℕ
  pub response : Option Response
  pub outcome : Option RunOutcome

abbrev pub scrubbed_token : String
scrubbed_token = "[SCRUBBED]"

abbrev pub is_live : Option String → Bool
is_live none = false
is_live (some t) = not (t == "") && not (t == scrubbed_token)

-- `Step.HasPlanToken`.
unfoldable pub has_plan_token : Step → Bool
has_plan_token s = is_live s.plan_token

abbrev unresolved_in : State → Option RunOutcome → Bool
unresolved_in State.awaiting_confirmation o = true
unresolved_in State.pending o = true
unresolved_in State.answered o = resumable o
unresolved_in _ o = false

-- `Step.Unresolved`.
unfoldable pub unresolved : Step → Bool
unfolding resumable
unresolved s = unresolved_in s.state s.outcome

pub record Run : Type 0 where
  pub schema : ℕ
  pub run_id : String
  pub created_at : Option ℕ
  pub cli_version : String
  pub profile : String
  pub api_url : String
  pub environment : String
  pub credential_class : String
  pub token_prefix : String
  pub principal_id : String
  pub argv : List String
  pub steps : List Step

-- `Run.Step`: the first step of that name.
unfoldable pub find_step : String → List Step → Option Step
find_step name [] = none
find_step name (s ∷ ss) = if s.name == name then some s else find_step name ss

-- `Run.Unresolved`.
unfoldable pub unresolved_steps : List Step → List Step
unresolved_steps [] = []
unresolved_steps (s ∷ ss) = if unresolved s then s ∷ unresolved_steps ss else unresolved_steps ss

abbrev pub step_prunable : Step → Bool
step_prunable s = is_terminal s.state && not (has_plan_token s)

-- `Run.Prunable`.
unfoldable pub prunable : Run → Bool
unfolding all
prunable r = all step_prunable r.steps

-- `scrubStep`, with whether it scrubbed.
unfoldable pub scrub_step : Step → Step × Bool
scrub_step s =
    if not (has_plan_token s)
    then (s, false)
    else (record s { plan_token = some scrubbed_token }, true)

abbrev printable : ℕ → Bool
printable c = leb 32 c && leb c 126

-- `ValidKey`, over the codes of the key's characters.
unfoldable pub valid_key : String → Bool
unfolding all
valid_key k = let cs = codes k in leb 1 (length cs) && (leb (length cs) 255 && all printable cs)

-- The bytes left of a character, between which bounds the next one is.
abbrev utf8_lead : ℕ → Option (ℕ × ℕ × ℕ)
utf8_lead b =
    if leb b 127
    then some (0, 128, 191)
    else if leb 194 b && leb b 223
    then some (1, 128, 191)
    else if eqb b 224
    then some (2, 160, 191)
    else if eqb b 237
    then some (2, 128, 159)
    else if leb 225 b && leb b 239
    then some (2, 128, 191)
    else if eqb b 240
    then some (3, 144, 191)
    else if leb 241 b && leb b 243
    then some (3, 128, 191)
    else if eqb b 244
    then some (3, 128, 143)
    else none

-- `utf8.Valid`, with the bytes that the character read so far still wants.
unfoldable utf8_from : Option (ℕ × ℕ × ℕ) → Bytes → Bool
utf8_from none bs = false
utf8_from (some (zero, lo, hi)) [] = true
utf8_from (some (suc n, lo, hi)) [] = false
utf8_from (some (zero, lo, hi)) (b ∷ bs) = utf8_from (utf8_lead b) bs
utf8_from (some (suc n, lo, hi)) (b ∷ bs) =
    utf8_from (if leb lo b && leb b hi then some (n, 128, 191) else none) bs

-- `checkBody`.
unfoldable pub check_body : Bytes → Bool
unfolding utf8_from
check_body b = utf8_from (some (0, 128, 191)) b
