-- ===== src/Noun.antt =====
-- internal/noun/precheck.go: what a command opens before it sends anything, and the check that refuses
-- a request that the profile cannot make. The messages of the refusals are left out, and so are the
-- trace and the clock that a client is built with.
pub mod Environments
pub mod Granted
pub mod Refusals
use ferry_cli.Base.{
  ℕ, String, ◌==◌, Bool, not, Option, none, some, List, [], ◌∷◌, if◌then◌else◌, lookup, contains,
}
use ferry_cli.Outcome.Class.{Class}
use ferry_cli.Outcome.Operation.{
  Operation, op_get_me, op_list_api_keys, op_create_api_key, op_get_api_key, op_revoke_api_key,
  op_list_corridors, op_get_corridor, op_simulate_transfer, op_execute_transfer, op_get_command,
}
use ferry_cli.Api.Target.{Bytes}
use ferry_cli.Creds.{
  CredentialClass, Environment, sandbox, live, Requirement, require_api_key, require_pat,
  require_either, classify_token, Library, Normalized, refused, canonical, normalize, is_empty,
}
use ferry_cli.Creds.Store.{
  Credential, Profile, Document, CredsError, new_document, profile_name, Done, failed, done, put,
  Match, credential_for, OnDisk, load,
}

-- The map `Requirements`.
abbrev pub requirements : List (Operation × Requirement)
requirements =
    (op_get_me, require_either)
    ∷ (op_list_api_keys, require_pat)
    ∷ (op_create_api_key, require_pat)
    ∷ (op_get_api_key, require_pat)
    ∷ (op_revoke_api_key, require_pat)
    ∷ (op_list_corridors, require_either)
    ∷ (op_get_corridor, require_either)
    ∷ (op_simulate_transfer, require_api_key)
    ∷ (op_execute_transfer, require_api_key)
    ∷ (op_get_command, require_api_key)
    ∷ []

-- `RequirementFor`.
unfoldable pub requirement_for : Operation → Option Requirement
unfolding lookup
requirement_for op = lookup op requirements

-- A result, or the class of the failure that stops the command before it sends.
pub data Opened (A : Type 0) : Type 0 where
  stopped : Class → Opened A
  opened : A → Opened A

pub record Globals : Type 0 where
  pub profile : String
  pub api_url : Bytes
  pub env : String
  pub output : String

-- What a command meets: the variables of its environment, whether the paths of its files are known, and
-- the credentials file.
pub record Deps : Type 0 where
  pub library : Library
  pub ferry_token : Bytes
  pub ferry_api_url : Bytes
  pub has_paths : Bool
  pub on_disk : OnDisk
  pub now : ℕ

pub record Local : Type 0 where
  pub deps : Deps
  pub globals : Globals
  pub file : Document
  pub requested_api_url : Bytes

-- `Local.Profile`.
abbrev pub profile_of : Local → String
profile_of l = profile_name l.globals.profile

abbrev pub requested_url : Deps → Globals → Bytes
requested_url d g = if is_empty g.api_url then d.ferry_api_url else g.api_url

abbrev pub local_at : Deps → Globals → Document → Bytes → Local
local_at d g file url = record { deps = d; globals = g; file = file; requested_api_url = url }

abbrev pub with_url : Deps → Globals → Document → Normalized → Opened Local
with_url d g file (refused why) = stopped Class.usage
with_url d g file (canonical url) = opened (local_at d g file url)

abbrev pub with_file : Deps → Globals → Done Document → Opened Local
with_file d g (failed why) = stopped Class.cli_fault
with_file d g (done file) =
    if is_empty (requested_url d g)
    then opened (local_at d g file [])
    else with_url d g file (normalize d.library (requested_url d g))

-- `OpenLocal`.
unfoldable pub open_local : Deps → Globals → Opened Local
open_local d g =
    if not (contains g.output ("text" ∷ "json" ∷ []))
    then stopped Class.usage
    else if not d.has_paths
    then stopped Class.cli_fault
    else with_file d g (load d.on_disk)

abbrev pub api_url_in : Option Profile → Bytes
api_url_in none = []
api_url_in (some p) = p.api_url

-- The endpoint that a token of the environment is for.
abbrev pub override_url : Local → Bytes
override_url l =
    if is_empty l.requested_api_url
    then api_url_in (lookup (profile_of l) l.file.profiles)
    else l.requested_api_url

abbrev pub override_credential : Local → Bytes → Credential
override_credential l raw = record {
  token = raw;
  prefix = [];
  environment = none;
  principal_id = "";
  stored_at = some l.deps.now;
}

-- The copy that the token is put into.
abbrev pub clone : Document → Document
clone d = record new_document { profiles = d.profiles }

abbrev pub put_override : Done Document → Opened (Option Document)
put_override (failed why) = stopped Class.usage
put_override (done d) = opened (some d)

abbrev pub override_of : Local → Bytes → Option CredentialClass → Opened (Option Document)
override_of l raw none = stopped Class.usage
override_of l raw (some class) =
    if is_empty (override_url l)
    then stopped Class.usage
    else put_override (
        put l.deps.library l.deps.now (profile_of l) (override_url l) (override_credential l raw)
          (clone l.file))

-- `tokenOverride`.
unfoldable pub token_override : Local → Opened (Option Document)
unfolding lookup
token_override l =
    let raw = l.deps.library.trim l.deps.ferry_token in
    if is_empty raw then opened none else override_of l raw (classify_token raw)

-- `environmentOf`.
abbrev pub environment_text : Option Environment → String
environment_text none = ""
environment_text (some sandbox) = "sandbox"
environment_text (some live) = "live"

-- What a client sends with.
pub record Client : Type 0 where
  pub base_url : Bytes
  pub token : Bytes
  pub environment : String

pub record Session : Type 0 where
  pub local : Local
  pub op : Operation
  pub match : Match
  pub client : Client

abbrev pub client_of : Match → Client
client_of m = record {
  base_url = m.api_url;
  token = m.credential.token;
  environment = environment_text m.credential.environment;
}

-- `refuseCredential`.
abbrev pub refuse_credential : CredsError → Class
refuse_credential CredsError.no_profile = Class.refused_fix
refuse_credential CredsError.no_credential_of_class = Class.refused_fix
refuse_credential CredsError.api_url_mismatch = Class.refused_fix
refuse_credential _ = Class.cli_fault

abbrev pub session_of : Local → Operation → Done Match → Opened Session
session_of l op (failed why) = stopped (refuse_credential why)
session_of l op (done m) = opened (record { local = l; op = op; match = m; client = client_of m })

abbrev pub override_or : Document → Option Document → Document
override_or file none = file
override_or file (some d) = d

abbrev pub with_override :
    Local → Operation → Requirement → Opened (Option Document) → Opened Session
with_override l op r (stopped c) = stopped c
with_override l op r (opened o) =
    session_of l op
      (credential_for l.deps.library (profile_of l) r l.requested_api_url (override_or l.file o))

abbrev pub with_requirement : Local → Operation → Option Requirement → Opened Session
with_requirement l op none = stopped Class.cli_fault
with_requirement l op (some r) = with_override l op r (token_override l)

-- `Local.Session`.
unfoldable pub session : Local → Operation → Opened Session
session l op = with_requirement l op (requirement_for op)

abbrev pub session_on : Operation → Opened Local → Opened Session
session_on op (stopped c) = stopped c
session_on op (opened l) = session l op

-- `Open`.
unfoldable pub open_session : Deps → Globals → Operation → Opened Session
open_session d g op = session_on op (open_local d g)

-- `ParseEnvironment`.
unfoldable pub parse_environment : String → Opened Environment
parse_environment raw =
    if "sandbox" == raw
    then opened sandbox
    else if "live" == raw
    then opened live
    else stopped Class.usage
