-- ===== src/Keys.antt =====
-- internal/noun/keys/create.go: what a request for a new API key is built from. `strings.TrimSpace`,
-- `time.ParseDuration` and the reading and writing of instants are a library's, since they depend on
-- Unicode tables and on the calendar. The messages of the refusals are left out.
pub mod KeyList
pub mod Scans
pub mod Scopes
pub mod Lifetime
pub mod Request
mod Tests
use ferry_cli.Base.{
  ℕ, ◌+◌, ◌-◌, ◌*◌, ◌%◌, ◌^◌, String, ◌==◌, Bool, true, false, ◌&&◌, ◌||◌, not, Option, none, some,
  List, [], ◌∷◌, ◌++◌, map, if◌then◌else◌, eqb, ltb, leb, ℤ, pos, negsuc,
}
use ferry_cli.Outcome.Class.{Class}
use ferry_cli.Api.Target.{Bytes}
use ferry_cli.Api.Meta.{codes, signed}
use ferry_cli.Api.Duration.{nanosecond, signed_64}
use ferry_cli.Creds.{same_bytes, is_empty}
use ferry_cli.Creds.{Environment}
use ferry_cli.Noun.{Opened, stopped, opened, environment_text, parse_environment}

-- What the code takes from the standard library.
pub record Formats : Type 0 where
  pub trim : Bytes → Bytes
  pub parse_duration : Bytes → Option ℤ
  pub parse_time : Bytes → Bool
  pub format_time : ℤ → Bytes

-- `api.Scopes`.
abbrev pub scopes : List Bytes
scopes = map codes (
    "read" ∷ "compliance:read" ∷ "write" ∷ "destinations:manage" ∷ "money:simulate"
    ∷ "money:execute" ∷ [])

unfoldable pub holds_bytes : Bytes → List Bytes → Bool
unfolding same_bytes
holds_bytes s [] = false
holds_bytes s (t ∷ ts) = same_bytes t s || holds_bytes s ts

-- `knownScope`.
unfoldable pub known_scope : Bytes → Bool
unfolding holds_bytes
known_scope scope = holds_bytes scope scopes

abbrev onto_first : ℕ → List Bytes → List Bytes
onto_first c [] = (c ∷ []) ∷ []
onto_first c (p ∷ ps) = (c ∷ p) ∷ ps

-- `strings.Split` at a comma.
unfoldable pub split_commas : Bytes → List Bytes
split_commas [] = [] ∷ []
split_commas (c ∷ cs) =
    let rest = split_commas cs in if eqb c 44 then [] ∷ rest else onto_first c rest

-- What the loop of `parseScopes` holds: the scopes so far, and whether one is not known.
pub record Scan : Type 0 where
  pub out : List Bytes
  pub bad : Bool

-- One round of the loop, on a part without its blanks. `seen` holds the scopes of `out`.
unfoldable pub scan_part : Bytes → Scan → Scan
unfolding holds_bytes
scan_part scope s =
    if is_empty scope
    then s
    else if not (known_scope scope)
    then record s { bad = true }
    else if holds_bytes scope s.out
    then s
    else record s { out = s.out ++ (scope ∷ []) }

unfoldable pub scan_parts : (Bytes → Bytes) → List Bytes → Scan → Scan
scan_parts trim [] s = s
scan_parts trim (part ∷ parts) s = scan_parts trim parts (scan_part (trim part) s)

abbrev pub no_scopes : List Bytes → Bool
no_scopes [] = true
no_scopes (s ∷ ss) = false

abbrev pub scanned : Scan → Opened (List Bytes)
scanned s =
    if s.bad
    then stopped Class.usage
    else if no_scopes s.out
    then stopped Class.usage
    else opened s.out

-- `parseScopes`.
unfoldable pub parse_scopes : Formats → Bytes → Opened (List Bytes)
unfolding scan_parts split_commas
parse_scopes l raw =
    if is_empty (l.trim raw)
    then stopped Class.usage
    else scanned (scan_parts l.trim (split_commas raw) (record { out = []; bad = false }))

-- The last byte of a text, and what stands before it.
unfoldable pub unsnoc : Bytes → Option (Bytes × ℕ)
unsnoc [] = none
unsnoc (c ∷ cs) = elim (unsnoc cs) [
  | none ↦ some ([], c)
  | some (before, last) ↦ some (c ∷ before, last)
]

abbrev pub day : ℕ
day = 24 * 3_600 * nanosecond

abbrev pub positive_duration : Option ℤ → Opened ℤ
positive_duration none = stopped Class.usage
positive_duration (some (negsuc n)) = stopped Class.usage
positive_duration (some (pos n)) = if eqb n 0 then stopped Class.usage else opened (pos n)

-- `time.Duration(n) * scale`, for a positive n: the product wraps around.
abbrev pub scaled : ℕ → ℕ → ℤ
scaled n scale = signed_64 (n * scale % 2 ^ 64)

abbrev pub counted_units : ℕ → Option ℤ → Opened ℤ
counted_units scale none = stopped Class.usage
counted_units scale (some (negsuc n)) = stopped Class.usage
counted_units scale (some (pos n)) =
    if eqb n 0 then stopped Class.usage else opened (scaled n scale)

-- The switch on the unit.
abbrev pub lifetime_of : Formats → Bytes → Option (Bytes × ℕ) → Opened ℤ
lifetime_of l trimmed none = stopped Class.usage
lifetime_of l trimmed (some (before, unit)) =
    if eqb unit 100
    then counted_units day (signed before)
    else if eqb unit 119
    then counted_units (7 * day) (signed before)
    else positive_duration (l.parse_duration trimmed)

-- `parseLifetime`.
unfoldable pub parse_lifetime : Formats → Bytes → Opened ℤ
unfolding unsnoc
parse_lifetime l raw = lifetime_of l (l.trim raw) (unsnoc (l.trim raw))

-- `createFlags`.
pub record CreateFlags : Type 0 where
  pub name : Bytes
  pub scopes : Bytes
  pub expires_at : Bytes
  pub expires_in : Bytes
  pub set_at : Bool
  pub set_in : Bool

-- `CreateAPIKeyRequest`. An empty `expires_at` is left out of the request.
pub record CreateApiKeyRequest : Type 0 where
  pub name : Bytes
  pub environment : String
  pub scopes : List Bytes
  pub expires_at : Bytes

-- `now.Add(d)`.
unfoldable pub add_duration : ℕ → ℤ → ℤ
add_duration now (pos d) = pos (now + d)
add_duration now (negsuc d) = if ltb d now then pos (now - (d + 1)) else negsuc (d - now)

abbrev pub expires_in : Formats → ℕ → Opened ℤ → Opened Bytes
expires_in l now (stopped c) = stopped c
expires_in l now (opened d) = opened (l.format_time (add_duration now d))

-- The switch on the two ways to name an expiry.
unfoldable pub expiry : Formats → ℕ → CreateFlags → Opened Bytes
unfolding add_duration parse_lifetime
expiry l now f =
    if f.set_at && f.set_in
    then stopped Class.usage
    else if f.set_at
    then if not (l.parse_time f.expires_at) then stopped Class.usage else opened f.expires_at
    else if f.set_in
    then expires_in l now (parse_lifetime l f.expires_in)
    else opened []

abbrev pub body_expiring :
    CreateFlags → Environment → List Bytes → Opened Bytes → Opened CreateApiKeyRequest
body_expiring f e ss (stopped c) = stopped c
body_expiring f e ss (opened at) = opened (record {
  name = f.name;
  environment = environment_text (some e);
  scopes = ss;
  expires_at = at;
})

abbrev pub body_scoped :
    Formats → ℕ → CreateFlags → Environment → Opened (List Bytes) → Opened CreateApiKeyRequest
body_scoped l now f e (stopped c) = stopped c
body_scoped l now f e (opened ss) = body_expiring f e ss (expiry l now f)

abbrev pub body_in : Formats → ℕ → CreateFlags → Opened Environment → Opened CreateApiKeyRequest
body_in l now f (stopped c) = stopped c
body_in l now f (opened e) = body_scoped l now f e (parse_scopes l f.scopes)

-- `buildBody`.
unfoldable pub build_body : Formats → String → CreateFlags → ℕ → Opened CreateApiKeyRequest
unfolding parse_scopes expiry parse_environment
build_body l env f now =
    if is_empty (l.trim f.name)
    then stopped Class.usage
    else if env == ""
    then stopped Class.usage
    else body_in l now f (parse_environment env)
