-- ===== src/Transfers/Begin/Tests.antt =====
-- A transfer that begins, and one that is refused, and each property of the credentials at them.
use ferry_cli.Base.{◌≡◌, refl, true, none, some, [], ◌∷◌, contains}
use ferry_cli.Outcome.Class.{Class}
use ferry_cli.Outcome.Operation.{op_execute_transfer, op_create_api_key, op_get_command}
use ferry_cli.Api.Meta.{codes}
use ferry_cli.Cli.{new_flag}
use ferry_cli.Creds.{api_key, live, Library}
use ferry_cli.Creds.Store.{Credential, Document, Match, OnDisk, load, credential_for, profile_name}
use ferry_cli.Noun.{
  Globals, Deps, Local, Session, open_local, session, open_session, opened, stopped, client_of,
  requirement_for, token_override, parse_environment,
}
use ferry_cli.Transfers.Begin.{Runner, runner_of, open_all, assert_environment, begin}
use ferry_cli.Transfers.Begin.Asserts.{IsBegun, begin-IsBegun}

abbrev library : Library
library = record { parse = λ raw. none; lower = λ x. x; trim = λ x. x }

abbrev key : Credential
key = record {
  token = codes "ferry_sk_live_0123456789012345678901234567890123456789012";
  prefix = codes "ferry_sk_live_01234567";
  environment = some live;
  principal_id = "p";
  stored_at = some 3;
}

abbrev document : Document
document = record {
  schema = 1;
  profiles =
      ("default", record { api_url = codes "https://h"; key = some key; personal = none }) ∷ [];
}

abbrev deps : Deps
deps = record {
  library = library;
  ferry_token = [];
  ferry_api_url = [];
  has_paths = true;
  on_disk = OnDisk.present 384 (some document);
  now = 7;
}

abbrev globals : Globals
globals = record { profile = ""; api_url = []; env = "live"; output = "text" }

abbrev local : Local
local = record { deps = deps; globals = globals; file = document; requested_api_url = [] }

abbrev match : Match
match = record {
  credential = key;
  class = api_key;
  profile = "default";
  api_url = codes "https://h";
}

abbrev executes : Session
executes = record {
  local = local;
  op = op_execute_transfer;
  match = match;
  client = client_of match;
}

session_opens : session local op_execute_transfer ≡ opened executes
unfolding session requirement_for token_override credential_for profile_name
session_opens = refl

mint_refused : open_session deps globals op_create_api_key ≡ stopped Class.refused_fix
unfolding open_session open_local contains load session requirement_for token_override
    credential_for profile_name
mint_refused = refl

abbrev polls : Session
polls = record { local = local; op = op_get_command; match = match; client = client_of match }

abbrev runner : Runner
runner =
    runner_of new_flag local op_execute_transfer
      ((op_get_command, polls) ∷ (op_execute_transfer, executes) ∷ [])

begins : begin deps globals new_flag op_execute_transfer [] ≡ opened runner
unfolding begin open_local contains load open_all session requirement_for token_override
    credential_for profile_name assert_environment parse_environment
begins = refl

begin-IsBegun_example : IsBegun deps globals new_flag op_execute_transfer [] runner
begin-IsBegun_example = begin-IsBegun deps globals new_flag op_execute_transfer [] runner begins
