-- ===== src/Creds/Tests.antt =====
-- Runs of the credential store, and each property at a concrete input.
use ferry_cli.Base.{if◌then◌else◌, ◌≡◌, refl, true, false, none, some, [], ◌∷◌}
use ferry_cli.Api.Target.{Bytes}
use ferry_cli.Api.Meta.{codes}
use ferry_cli.Creds.{
  api_key, live, require_either, Library, Url, normalize, same_api_url, classify_token, same_bytes,
  trim_suffix, key_environment, environment_of, split_last, token_prefix,
}
use ferry_cli.Creds.Store.{
  Credential, Document, Match, new_document, done, put, credential_for, profile_name, set_profile,
}
use ferry_cli.Creds.View.{IsPut, put-IsPut}
use ferry_cli.Creds.Binding.{IsMatch, credential_for-IsMatch, same_api_url-ports}

abbrev plain : Bytes → Url
plain host = record {
  scheme = codes "http";
  host = host;
  has_user = false;
  raw_query = [];
  force_query = false;
  fragment = [];
  escaped_path = [];
}

-- A library that knows two URLs: "a", which is http://h, and "b", which is http://h:443.
abbrev library : Library
library = record {
  parse =
      λ raw. some (if same_bytes raw (codes "a") then plain (codes "h") else plain (codes "h:443"));
  lower = λ x. x;
  trim = λ x. x;
}

parses :
    (library.parse (codes "a") ≡ some (plain (codes "h")))
    × (library.parse (codes "b") ≡ some (plain (codes "h:443")))
unfolding same_bytes
parses = (refl, refl)

trims : codes "h" ≡ trim_suffix (codes ":443") (codes "h")
unfolding trim_suffix same_bytes
trims = refl

same_api_url-ports_example : same_api_url library (codes "a") (codes "b") ≡ true
same_api_url-ports_example =
    same_api_url-ports library (codes "a") (codes "b") (plain (codes "h")) (plain (codes "h:443"))
      (refl, refl) parses (refl, refl) (refl, refl) refl refl trims

abbrev key : Credential
key = record {
  token = codes "ferry_sk_live_0123456789012345678901234567890123456789012";
  prefix = [];
  environment = none;
  principal_id = "p";
  stored_at = some 3;
}

abbrev stored_key : Credential
stored_key = record key { prefix = codes "ferry_sk_live_01234567"; environment = some live }

abbrev stored_document : Document
stored_document = record {
  schema = 1;
  profiles =
      ("default", record { api_url = codes "http://h"; key = some stored_key; personal = none })
      ∷ [];
}

puts : put library 7 "" (codes "a") key new_document ≡ done stored_document
unfolding put normalize classify_token key_environment set_profile profile_name token_prefix
    environment_of split_last
puts = refl

put-IsPut_example : IsPut library 7 "" (codes "a") key new_document stored_document
put-IsPut_example = put-IsPut library 7 "" (codes "a") key new_document stored_document puts

abbrev match : Match
match = record {
  credential = stored_key;
  class = api_key;
  profile = "default";
  api_url = codes "http://h";
}

gives : credential_for library "" require_either [] stored_document ≡ done match
unfolding credential_for profile_name
gives = refl

credential_for-IsMatch_example : IsMatch library "" require_either [] stored_document match
credential_for-IsMatch_example =
    credential_for-IsMatch library "" require_either [] stored_document match gives
