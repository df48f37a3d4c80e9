-- ===== src/Creds/Store.antt =====
-- internal/creds/creds.go: `Put`, `Remove` and `For` on the document of profiles, and `Load`.
use ferry_cli.Base.{
  ℕ, String, ◌==◌, Bool, true, false, ◌&&◌, not, Option, none, some, List, [], ◌∷◌, eqb, ltb,
  if◌then◌else◌, lookup,
}
use Prim.Native.Nat.{bit_and}
use ferry_cli.Api.Target.{Bytes}
use ferry_cli.Creds.{
  CredentialClass, api_key, pat, Environment, Requirement, require_api_key, require_pat,
  require_either, classify_token, environment_of, token_prefix, Library, UrlError, Normalized,
  refused, canonical, normalize, same_api_url,
}

pub record Credential : Type 0 where
  pub token : Bytes
  pub prefix : Bytes
  pub environment : Option Environment
  pub principal_id : String
  pub stored_at : Option ℕ

pub record Profile : Type 0 where
  pub api_url : Bytes
  pub key : Option Credential
  pub personal : Option Credential

-- `File`: the document.
pub record Document : Type 0 where
  pub schema : ℕ
  pub profiles : List (String × Profile)

pub data CredsError : Type 0 where
  permissions_too_wide no_credential_of_class api_url_mismatch unknown_token_shape : CredsError
  no_profile unreadable schema_unsupported : CredsError
  bad_url : UrlError → CredsError

abbrev current_schema : ℕ
current_schema = 1

-- `NewFile`.
abbrev pub new_document : Document
new_document = record { schema = current_schema; profiles = [] }

-- The document with a profile put under a name.
unfoldable pub set_profile : String → Profile → List (String × Profile) → List (String × Profile)
set_profile name p [] = (name, p) ∷ []
set_profile name p ((n, q) ∷ rest) =
    if n == name then (name, p) ∷ rest else (n, q) ∷ set_profile name p rest

-- `delete`.
unfoldable pub delete_profile : String → List (String × Profile) → List (String × Profile)
delete_profile name [] = []
delete_profile name ((n, q) ∷ rest) =
    let left = delete_profile name rest in if n == name then left else (n, q) ∷ left

-- `DefaultProfile` for an empty name.
unfoldable pub profile_name : String → String
profile_name name = if name == "" then "default" else name

abbrev pub empty_profile : Profile
empty_profile = record { api_url = []; key = none; personal = none }

abbrev pub profile_or_empty : Option Profile → Profile
profile_or_empty none = empty_profile
profile_or_empty (some p) = p

abbrev pub has_bytes : Bytes → Bool
has_bytes [] = false
has_bytes (c ∷ cs) = true

-- The profile is bound to another URL.
abbrev pub is_bound_elsewhere : Library → Bytes → Option Profile → Bool
is_bound_elsewhere l url none = false
is_bound_elsewhere l url (some p) = has_bytes p.api_url && not (same_api_url l p.api_url url)

-- The credential as it is stored at the instant `now`.
abbrev pub completed : ℕ → Credential → Credential
completed now c = record c {
  prefix = token_prefix c.token;
  environment = environment_of c.token;
  stored_at = elim c.stored_at [ none ↦ some now | some t ↦ some t ];
}

abbrev pub with_credential : CredentialClass → Bytes → Credential → Profile → Profile
with_credential api_key url c p = record p { api_url = url; key = some c }
with_credential pat url c p = record p { api_url = url; personal = some c }

-- A result, or the error.
pub data Done (A : Type 0) : Type 0 where
  failed : CredsError → Done A
  done : A → Done A

abbrev pub put_classified :
    Library → ℕ → String → Bytes → Credential → Document → Option CredentialClass → Done Document
put_classified l now name url c d none = failed CredsError.unknown_token_shape
put_classified l now name url c d (some class) =
    if is_bound_elsewhere l url (lookup name d.profiles)
    then failed CredsError.api_url_mismatch
    else done (record {
      schema = if eqb d.schema 0 then current_schema else d.schema;
      profiles =
          set_profile name
            (with_credential class url (completed now c)
              (profile_or_empty (lookup name d.profiles)))
            d.profiles;
    })

abbrev pub put_normalized :
    Library → ℕ → String → Credential → Document → Normalized → Done Document
put_normalized l now name c d (refused why) = failed (CredsError.bad_url why)
put_normalized l now name c d (canonical url) =
    put_classified l now (profile_name name) url c d (classify_token c.token)

-- `Put`.
unfoldable pub put : Library → ℕ → String → Bytes → Credential → Document → Done Document
unfolding lookup
put l now name api_url c d = put_normalized l now name c d (normalize l api_url)

abbrev pub remove_from : String → Option CredentialClass → Document → Option Profile → Done Document
remove_from name class d none = failed CredsError.no_profile
remove_from name none d (some p) = done (record d { profiles = delete_profile name d.profiles })
remove_from name (some api_key) d (some p) =
    done (record d { profiles = set_profile name (record p { key = none }) d.profiles })
remove_from name (some pat) d (some p) =
    done (record d { profiles = set_profile name (record p { personal = none }) d.profiles })

-- `Remove`; without a class it removes both.
unfoldable pub remove : String → Option CredentialClass → Document → Done Document
unfolding lookup
remove name class d =
    remove_from (profile_name name) class d (lookup (profile_name name) d.profiles)

pub record Match : Type 0 where
  pub credential : Credential
  pub class : CredentialClass
  pub profile : String
  pub api_url : Bytes

abbrev pub pick : String → Bytes → CredentialClass → Option Credential → Option Match
pick name url class none = none
pick name url class (some c) =
    if has_bytes c.token
    then some (record { credential = c; class = class; profile = name; api_url = url })
    else none

abbrev pub or_else : Option Match → Option Match → Option Match
or_else none m = m
or_else (some k) m = some k

-- The credential of a profile that a requirement takes: an API key before a token of a person.
abbrev pub picked : String → Requirement → Profile → Option Match
picked name require_api_key p = pick name p.api_url api_key p.key
picked name require_pat p = pick name p.api_url pat p.personal
picked name require_either p =
    or_else (pick name p.api_url api_key p.key) (pick name p.api_url pat p.personal)

abbrev pub found_match : Option Match → Done Match
found_match none = failed CredsError.no_credential_of_class
found_match (some m) = done m

abbrev pub match_of : Library → String → Requirement → Bytes → Option Profile → Done Match
match_of l name r url none = failed CredsError.no_profile
match_of l name r url (some p) =
    if has_bytes url && not (same_api_url l p.api_url url)
    then failed CredsError.api_url_mismatch
    else found_match (picked name r p)

-- `For`.
unfoldable pub credential_for : Library → String → Requirement → Bytes → Document → Done Match
unfolding lookup
credential_for l name r url d =
    match_of l (profile_name name) r url (lookup (profile_name name) d.profiles)

-- What the file system and `json.Unmarshal` say of the credentials file.
pub data OnDisk : Type 0 where
  missing stat_failed : OnDisk
  present : ℕ → Option Document → OnDisk

-- `Load`: a mode wider than 0600 is refused before the file is read.
unfoldable pub load : OnDisk → Done Document
load missing = done new_document
load stat_failed = failed CredsError.unreadable
load (present mode none) =
    if not (eqb (bit_and mode 63) 0)
    then failed CredsError.permissions_too_wide
    else failed CredsError.unreadable
load (present mode (some d)) =
    if not (eqb (bit_and mode 63) 0)
    then failed CredsError.permissions_too_wide
    else if ltb current_schema d.schema
    then failed CredsError.schema_unsupported
    else done d
