-- ===== src/Runs/Tests.antt =====
-- Runs of the ledger, and each property at a concrete input.
use ferry_cli.Base.{
  String, ◌≡◌, ◌≢◌, refl, true, false, none, some, List, [], ◌∷◌, arith, inr, All, if◌then◌else◌,
  eqb, contains, all, eq_iff,
}
use ferry_cli.Api.Target.{Bytes}
use ferry_cli.Runs.Step.{
  State, Step, Run, find_step, valid_key, check_body, scrub_step, has_plan_token, is_terminal,
  prunable,
}
use ferry_cli.Runs.Ledger.{
  Env, Write, LedgerError, Handle, LedgerOp, call, calls, on_step, begin_step, save, put_step,
}
use ferry_cli.Runs.Ledger.LedgerOp.{begin, decline, unreachable, record_answer}
use ferry_cli.Runs.Ledger.Guards.{AllSteps}
use ferry_cli.Runs.Ledger.Digests.{IsFixed, calls-body}
use ferry_cli.Runs.Ledger.Tokens.{IsSpent, calls-IsSpent}
use ferry_cli.Runs.Ledger.Sent.{IsSentStep}
use ferry_cli.Runs.Ledger.Begins.{
  HasBegun, HasFailed, call-HasBegun, begun-IsSentStep, call-HasFailed,
}
use ferry_cli.Runs.Create.{
  valid, validate_step, validate_steps, validate_new, create_run, decode_record, opened, stamped,
}
use ferry_cli.Runs.Create.Reads.{create_run-decode_record}
use ferry_cli.Runs.Sweep.{
  Entry, scrub, prune, is_pruned, orphans, scrub_entry, scrub_run, scrub_one,
}
use ferry_cli.Runs.Sweep.Kept.{orphans-prune}
use ferry_cli.Api.Meta.{codes}
use ferry_cli.Runs.Token.{in_token, matches, contains_plan_token, sweep, swept, strip_plan_token}
use ferry_cli.Runs.Ledger.Swept.{IsSwept, stripping, calls-IsSwept}

abbrev digest : Bytes → String
digest [] = "empty"
digest (b ∷ _) = if eqb b 123 then "object" else "other"

abbrev env : Env
env = record { sha256 = digest; strip_plan_token = λ b. b; now = 1_000 }

abbrev fresh : String → Step
fresh name = record {
  name = name;
  operation = "transfers_execute";
  method = "POST";
  path = "/v1/transfers/execute";
  idempotency_key = name;
  body_sha256 = none;
  body = none;
  plan = none;
  plan_token = none;
  state = State.not_started;
  attempts = 0;
  response = none;
  outcome = none;
}

abbrev run_of : List Step → Run
run_of steps = record {
  schema = 0;
  run_id = "01";
  created_at = some 5;
  cli_version = "1";
  profile = "live";
  api_url = "";
  environment = "live";
  credential_class = "";
  token_prefix = "";
  principal_id = "";
  argv = [];
  steps = steps;
}

abbrev two_steps : Run
two_steps = run_of (fresh "simulate" ∷ fresh "execute" ∷ [])

abbrev held : Handle
held = opened (stamped 1_000 two_steps)

-- The body `{}`.
abbrev empty_object : Bytes
empty_object = 123 ∷ 125 ∷ []

abbrev sent_execute : Step
sent_execute = record (fresh "execute") {
  state = State.pending;
  attempts = 1;
  body = some empty_object;
  body_sha256 = some "object";
}

abbrev sent : Handle
sent = opened (stamped 1_000 (run_of (fresh "simulate" ∷ sent_execute ∷ [])))

begin_runs : call env held "execute" (begin (some empty_object)) Write.lands ≡ (sent, none)
unfolding call on_step find_step begin_step is_terminal check_body save put_step
begin_runs = refl

call-HasBegun_example : HasBegun env held sent "execute" (some empty_object)
call-HasBegun_example =
    call-HasBegun env held sent "execute" (some empty_object) Write.lands begin_runs

abbrev later : List (String × LedgerOp × Write)
later =
    ("execute", decline, Write.lands)
    ∷ ("execute", record_answer none none, Write.fails)
    ∷ ("execute", unreachable, Write.unsynced)
    ∷ []

begun-IsSentStep_example : IsSentStep "execute" (calls env sent later)
begun-IsSentStep_example =
    begun-IsSentStep env held sent "execute" (some empty_object) Write.lands later begin_runs

abbrev unsent : Handle
unsent = (call env held "execute" (begin (some empty_object)) Write.fails).0

begin_fails :
    call env held "execute" (begin (some empty_object)) Write.fails
    ≡ (unsent, some LedgerError.write_failed)
unfolding call on_step find_step begin_step is_terminal check_body save put_step
begin_fails = refl

found_fresh : find_step "execute" held.run.steps ≡ some (fresh "execute")
unfolding find_step
found_fresh = refl

call-HasFailed_example : HasFailed held unsent "execute" Write.fails (fresh "execute")
call-HasFailed_example =
    call-HasFailed env held unsent "execute" (some empty_object) Write.fails (fresh "execute")
      LedgerError.write_failed found_fresh begin_fails

-- A body is not taken back by a failed `Begin`.
unsent_body :
    find_step "execute" unsent.run.steps
    ≡ some (record sent_execute { state = State.not_started; attempts = 0 })
unfolding call on_step find_step begin_step is_terminal check_body save put_step
unsent_body = refl

differs : ◌≢◌ {A = String} "simulate" "execute"
differs e = ground (arith, eq_iff "simulate" "execute")

sent_fixed : AllSteps (IsFixed digest "execute" "object") sent
sent_fixed =
    let steps : All (IsFixed digest "execute" "object") sent.run.steps =
      ((tt, λ e. absurd (differs e)), ((refl, λ _. refl), tt)) in
    (steps, steps)

abbrev resent : List (String × LedgerOp × Write)
resent = ("execute", begin none, Write.lands) ∷ ("execute", begin (some []), Write.lands) ∷ []

resent_runs :
    find_step "execute" (calls env sent resent).disk.steps
    ≡ some (record sent_execute { attempts = 2 })
unfolding calls call on_step find_step begin_step is_terminal check_body save put_step
resent_runs = refl

calls-body_example : (b : Bytes) × (some empty_object ≡ some b) × (digest b ≡ "object")
calls-body_example =
    calls-body env sent resent "execute" "object" "execute" (record sent_execute { attempts = 2 })
      sent_fixed (inr resent_runs) refl

sent-IsSpent : AllSteps IsSpent sent
unfolding has_plan_token
sent-IsSpent = ((λ _. refl, (λ _. refl, tt)), (λ _. refl, (λ _. refl, tt)))

calls-IsSpent_example : AllSteps IsSpent (calls env sent later)
calls-IsSpent_example = calls-IsSpent env sent later sent-IsSpent

made : create_run env (λ _. true) two_steps ≡ valid held
unfolding create_run validate_new validate_steps validate_step valid_key contains check_body all
made = refl

create_run-decode_record_example :
    decode_record digest "01" (some (calls env held later).disk)
    ≡ (none, some (calls env held later).disk)
create_run-decode_record_example =
    create_run-decode_record env (λ _. true) two_steps held later made (refl, (refl, tt))
      (omega arith)

-- A settled run with a live token, and one whose request is pending.
abbrev settled_run : Run
settled_run =
    run_of
      (record (fresh "execute") { state = State.terminal; plan_token = some "ferry_plan_x" } ∷ [])

abbrev directory : List Entry
directory =
    record { id = "01"; run = settled_run; held = false }
    ∷ record { id = "02"; run = run_of (sent_execute ∷ []); held = false }
    ∷ []

scrub_reports : (scrub 7 directory).1 ≡ "01" ∷ []
unfolding scrub scrub_entry scrub_run scrub_one has_plan_token is_terminal scrub_step
scrub_reports = refl

prune_reports : (prune 7 (scrub 7 directory).0).1 ≡ "01" ∷ []
unfolding scrub scrub_entry scrub_run scrub_one has_plan_token is_terminal scrub_step prune
    is_pruned prunable all
prune_reports = refl

orphans-prune_example : orphans "live" "" [] (prune 7 directory).0 ≡ orphans "live" "" [] directory
orphans-prune_example = orphans-prune "live" "" [] 7 directory

-- A response that holds a token of the shortest kind, and text after it.
abbrev answered_token : Bytes
answered_token = codes "{\"t\":\"ferry_plan_01234567x\",\"u\":1}"

token_swept : strip_plan_token (λ b. none) answered_token ≡ codes "{\"t\":\"[REDACTED]\",\"u\":1}"
unfolding strip_plan_token swept sweep contains_plan_token matches in_token
token_swept = refl

-- The answer is recorded, twice, the second time on a write that fails.
abbrev answers : List (String × LedgerOp × Write)
answers =
    (
      "execute",
      record_answer
          (some (record { status = 500; headers = []; body = answered_token; received_at = none }))
          none,
      Write.lands,
    )
    ∷ (
      "execute",
      record_answer
          (some (record { status = 500; headers = []; body = answered_token; received_at = none }))
          none,
      Write.fails,
    )
    ∷ []

sent-IsSwept : AllSteps IsSwept sent
sent-IsSwept = ((refl, (refl, tt)), (refl, (refl, tt)))

calls-IsSwept_example : AllSteps IsSwept (calls (stripping (λ b. none) env) sent answers)
calls-IsSwept_example = calls-IsSwept (λ b. none) env sent answers sent-IsSwept
