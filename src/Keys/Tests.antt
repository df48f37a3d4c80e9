-- ===== src/Keys/Tests.antt =====
-- A request for a key, and each property at it.
use ferry_cli.Base.{◌≡◌, refl, true, false, none, some, [], ◌∷◌, arith, pos}
use ferry_cli.Api.Meta.{codes, signed, digits}
use ferry_cli.Noun.{opened}
use ferry_cli.Keys.{
  Formats, CreateFlags, CreateApiKeyRequest, build_body, parse_lifetime, scan_part, known_scope,
  unsnoc,
}
use ferry_cli.Keys.Lifetime.{of_days, parse_lifetime-days}
use ferry_cli.Keys.Request.{IsRequest, build_body-IsRequest}

abbrev formats : Formats
formats = record {
  trim = λ x. x;
  parse_duration = λ x. none;
  parse_time = λ x. true;
  format_time = λ t. [];
}

abbrev flags : CreateFlags
flags = record {
  name = codes "ci";
  scopes = codes "read,write,,read";
  expires_at = codes "2030-01-01T00:00:00Z";
  expires_in = [];
  set_at = true;
  set_in = false;
}

abbrev request : CreateApiKeyRequest
request = record {
  name = codes "ci";
  environment = "live";
  scopes = codes "read" ∷ codes "write" ∷ [];
  expires_at = codes "2030-01-01T00:00:00Z";
}

builds : build_body formats "live" flags 7 ≡ opened request
unfolding build_body scan_part known_scope
builds = refl

build_body-IsRequest_example : IsRequest formats "live" flags 7 request
build_body-IsRequest_example = build_body-IsRequest formats "live" flags 7 request builds

last_is : unsnoc (codes "106752d") ≡ some (codes "106752", 100)
unfolding unsnoc
last_is = refl

read_is : signed (codes "106752") ≡ some (pos 106_752)
unfolding digits
read_is = refl

-- A lifetime of 106752 days has passed.
parse_lifetime-days_example : parse_lifetime formats (codes "106752d") ≡ opened (of_days 106_752)
parse_lifetime-days_example =
    parse_lifetime-days formats (codes "106752d") (codes "106752") 106_752 last_is read_is
      (omega arith) (omega arith)
