-- ===== src/Creds.antt =====
-- internal/creds/creds.go: tokens, the canonical form of an API URL, and the document of profiles. A
-- token and a URL are lists of bytes. `url.Parse`, `strings.ToLower` and `strings.TrimSpace` are those
-- of a library, since they depend on Unicode tables and on the grammar of URLs.
pub mod SameBytes
pub mod Store
pub mod View
pub mod Binding
mod Tests
use ferry_cli.Base.{
  ℕ, String, Bool, true, false, ◌&&◌, ◌||◌, not, Option, none, some, List, [], ◌∷◌, ◌++◌, all, eqb,
  leb, length, if◌then◌else◌, is_some,
}
use ferry_cli.Api.Target.{Bytes}
use ferry_cli.Api.Meta.{codes}

-- `Class`.
pub data CredentialClass : Type 0 where
  api_key pat : CredentialClass

-- `Environment`.
pub data Environment : Type 0 where
  sandbox live : Environment

-- `Requirement`.
pub data Requirement : Type 0 where
  require_api_key require_pat require_either : Requirement

unfoldable pub same_bytes : Bytes → Bytes → Bool
same_bytes [] [] = true
same_bytes [] (d ∷ ds) = false
same_bytes (c ∷ cs) [] = false
same_bytes (c ∷ cs) (d ∷ ds) = eqb c d && same_bytes cs ds

-- What is left of a text that starts with another.
unfoldable pub after_prefix : Bytes → Bytes → Option Bytes
after_prefix [] cs = some cs
after_prefix (p ∷ ps) [] = none
after_prefix (p ∷ ps) (c ∷ cs) = if eqb p c then after_prefix ps cs else none

abbrev is_alphanumeric : ℕ → Bool
is_alphanumeric c = (leb 48 c && leb c 57) || ((leb 65 c && leb c 90) || (leb 97 c && leb c 122))

abbrev is_secret : Bytes → Bool
is_secret cs = eqb (length cs) 43 && all is_alphanumeric cs

abbrev starts_secret : String → Bytes → Bool
starts_secret head token = elim (after_prefix (codes head) token) [
  | none ↦ false
  | some rest ↦ is_secret rest
]

-- What `apiKeyRE` finds.
unfoldable pub key_environment : Bytes → Option Environment
unfolding after_prefix all
key_environment token =
    if starts_secret "ferry_sk_sandbox_" token
    then some sandbox
    else if starts_secret "ferry_sk_live_" token
    then some live
    else none

-- `patRE`.
unfoldable pub is_pat : Bytes → Bool
unfolding after_prefix all
is_pat token = starts_secret "ferry_pat_" token

-- `Classify`.
unfoldable pub classify_token : Bytes → Option CredentialClass
classify_token token =
    if is_some (key_environment token)
    then some api_key
    else if is_pat token
    then some pat
    else none

-- `EnvironmentOf`, for a token of either class.
unfoldable pub environment_of : Bytes → Option Environment
environment_of token = key_environment token

-- The text up to and with its last underscore, and what follows it.
unfoldable pub split_last : Bytes → Option (Bytes × Bytes)
split_last [] = none
split_last (c ∷ cs) = elim (split_last cs) [
  | some (before, after) ↦ some (c ∷ before, after)
  | none ↦ if eqb c 95 then some (c ∷ [], cs) else none
]

abbrev first_eight : Bytes → Bytes
first_eight (a ∷ b ∷ c ∷ d ∷ e ∷ f ∷ g ∷ h ∷ rest) = a ∷ b ∷ c ∷ d ∷ e ∷ f ∷ g ∷ h ∷ []
first_eight cs = cs

-- `Prefix`.
unfoldable pub token_prefix : Bytes → Bytes
token_prefix token = elim (split_last token) [
  | none ↦ []
  | some (before, after) ↦ before ++ first_eight after
]

-- What `url.Parse` finds.
pub record Url : Type 0 where
  pub scheme : Bytes
  pub host : Bytes
  pub has_user : Bool
  pub raw_query : Bytes
  pub force_query : Bool
  pub fragment : Bytes
  pub escaped_path : Bytes

pub record Library : Type 0 where
  pub parse : Bytes → Option Url
  pub lower : Bytes → Bytes
  pub trim : Bytes → Bytes

pub data UrlError : Type 0 where
  no_api_url bad_api_url : UrlError

pub data Normalized : Type 0 where
  refused : UrlError → Normalized
  canonical : Bytes → Normalized

-- `strings.TrimSuffix`.
unfoldable pub trim_suffix : Bytes → Bytes → Bytes
trim_suffix suffix [] = []
trim_suffix suffix (c ∷ cs) =
    let rest = trim_suffix suffix cs in if same_bytes (c ∷ cs) suffix then [] else c ∷ rest

abbrev pub is_empty : Bytes → Bool
is_empty [] = true
is_empty (c ∷ cs) = false

abbrev pub http : Bytes
http = codes "http"

abbrev pub https : Bytes
https = codes "https"

-- The host without the port that counts as the default.
abbrev pub host_of : Bytes → Bytes → Bytes
host_of scheme host =
    let bare = trim_suffix (codes ":443") host in
    if same_bytes scheme http then trim_suffix (codes ":80") bare else bare

abbrev pub is_plain : Url → Bool
is_plain u =
    not (is_empty u.host)
    && (not u.has_user && ((is_empty u.raw_query && not u.force_query) && is_empty u.fragment))

abbrev pub joined : Library → Bytes → Url → Bytes
joined l scheme u =
    scheme
    ++ (codes "://" ++ (host_of scheme (l.lower u.host) ++ trim_suffix (codes "/") u.escaped_path))

abbrev pub normalize_url : Library → Url → Normalized
normalize_url l u =
    let scheme = l.lower u.scheme in
    if not (same_bytes scheme http || same_bytes scheme https)
    then refused bad_api_url
    else if is_plain u
    then canonical (joined l scheme u)
    else refused bad_api_url

abbrev pub normalize_parsed : Library → Option Url → Normalized
normalize_parsed l none = refused bad_api_url
normalize_parsed l (some u) = normalize_url l u

-- `NormalizeAPIURL`.
unfoldable pub normalize : Library → Bytes → Normalized
unfolding same_bytes trim_suffix
normalize l raw =
    if is_empty (l.trim raw) then refused no_api_url else normalize_parsed l (l.parse raw)

abbrev pub both_canonical : Normalized → Normalized → Bool
both_canonical (canonical a) (canonical b) = same_bytes a b
both_canonical _ _ = false

-- `SameAPIURL`.
unfoldable pub same_api_url : Library → Bytes → Bytes → Bool
unfolding same_bytes
same_api_url l a b = both_canonical (normalize l a) (normalize l b)
