-- ===== src/Transfers/Begin.antt =====
-- internal/noun/transfers/money.go: `begin`, what a command that moves money opens before it writes or
-- sends anything. The guard and the ledger that it makes hold no state of their own here.
pub mod Opens
pub mod Asserts
mod Tests
use ferry_cli.Base.{
  String, ◌==◌, Bool, true, false, not, Option, none, some, List, [], ◌∷◌, ◌++◌, if◌then◌else◌,
  lookup,
}
use ferry_cli.Outcome.Class.{Class}
use ferry_cli.Outcome.Operation.{
  Operation, op_simulate_transfer, op_execute_transfer, op_get_command,
}
use ferry_cli.Cli.{Flag, FlagOp, on_flag}
use ferry_cli.Creds.{Environment, sandbox, live}
use ferry_cli.Creds.Store.{profile_name}
use ferry_cli.Noun.{
  Opened, stopped, opened, Globals, Deps, Local, profile_of, environment_text, Session, open_local,
  session, parse_environment,
}

-- The map `sessions`.
abbrev pub Sessions : Type 0
Sessions = List (Operation × Session)

-- The loop of `begin` over the operations.
unfoldable pub open_all : Local → List Operation → Sessions → Opened Sessions
open_all l [] ss = opened ss
open_all l (op ∷ ops) ss = elim (lookup op ss) [
  | some s ↦ open_all l ops ss
  | none ↦ elim (session l op) [ stopped c ↦ stopped c | opened s ↦ open_all l ops ((op, s) ∷ ss) ]
]

-- The environment of the credential of a session.
abbrev pub environment_in : Option Session → Option Environment
environment_in none = none
environment_in (some s) = s.match.credential.environment

abbrev pub same_environment : Environment → Environment → Bool
same_environment sandbox sandbox = true
same_environment live live = true
same_environment _ _ = false

abbrev pub asserted : Opened Environment → Option Environment → Opened Unit
asserted (stopped c) got = stopped c
asserted (opened want) none = stopped Class.refused_fix
asserted (opened want) (some got) =
    if not (same_environment got want) then stopped Class.refused_fix else opened tt

-- `assertEnvironment`, with the session of the first operation.
unfoldable pub assert_environment : Local → Option Session → Opened Unit
assert_environment l s =
    if l.globals.env == ""
    then opened tt
    else asserted (parse_environment l.globals.env) (environment_in s)

-- `isLive`.
abbrev pub is_live : Option Environment → Bool
is_live none = false
is_live (some sandbox) = false
is_live (some live) = true

-- The loop of `environment`.
unfoldable pub first_environment : Sessions → List Operation → String
first_environment ss [] = ""
first_environment ss (op ∷ ops) =
    let rest = first_environment ss ops in
    elim (environment_in (lookup op ss)) [ none ↦ rest | some e ↦ environment_text (some e) ]

-- `environment`.
abbrev pub runner_environment : Sessions → String
runner_environment ss =
    first_environment ss (op_execute_transfer ∷ op_simulate_transfer ∷ op_get_command ∷ [])

pub record Runner : Type 0 where
  pub local : Local
  pub sessions : Sessions
  pub live : Bool
  pub flag : Flag

abbrev pub runner_of : Flag → Local → Operation → Sessions → Runner
runner_of f l first ss = record {
  local = l;
  sessions = ss;
  live = is_live (environment_in (lookup first ss));
  flag = on_flag (FlagOp.note_profile (profile_of l) (runner_environment ss)) f;
}

abbrev pub begin_asserted : Flag → Local → Operation → Sessions → Opened Unit → Opened Runner
begin_asserted f l first ss (stopped c) = stopped c
begin_asserted f l first ss (opened x) = opened (runner_of f l first ss)

abbrev pub begin_opened : Flag → Local → Operation → Opened Sessions → Opened Runner
begin_opened f l first (stopped c) = stopped c
begin_opened f l first (opened ss) =
    begin_asserted f l first ss (assert_environment l (lookup first ss))

-- The operations that are checked: those of the command, and the poll's.
abbrev pub checked_operations : Operation → List Operation → List Operation
checked_operations first ops = (first ∷ ops) ++ (op_get_command ∷ [])

abbrev pub begin_at : Flag → Operation → List Operation → Opened Local → Opened Runner
begin_at f first ops (stopped c) = stopped c
begin_at f first ops (opened l) =
    begin_opened f l first (open_all l (checked_operations first ops) [])

-- `begin`, for a first operation and further ones.
unfoldable pub begin : Deps → Globals → Flag → Operation → List Operation → Opened Runner
unfolding on_flag
begin d g f first ops = begin_at f first ops (open_local d g)
