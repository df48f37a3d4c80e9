-- ===== src/Keys/Request.antt =====
-- The request that `keys create` sends.
use ferry_cli.Base.{
  ℕ, String, ◌==◌, ◌≡◌, refl, subst, false, ◌&&◌, arith, Bool-cases, inl, inr, List, some,
}
use ferry_cli.Api.Target.{Bytes}
use ferry_cli.Creds.{Environment, is_empty}
use ferry_cli.Noun.{Opened, stopped, opened, environment_text, parse_environment}
use ferry_cli.Noun.Environments.{parse_environment-environment_text}
use ferry_cli.Keys.{
  Formats, CreateFlags, CreateApiKeyRequest, parse_scopes, expiry, body_expiring, body_scoped,
  body_in, build_body,
}
use ferry_cli.Keys.Scopes.{IsParsed, parse_scopes-IsParsed}

-- What a request says: what the flags say, and no more.
pub record IsRequest (l : Formats) (env : String) (f : CreateFlags) (now : ℕ)
    (b : CreateApiKeyRequest) : Type 0 where
  pub has_name : is_empty (l.trim f.name) ≡ false
  pub same_name : b.name ≡ f.name
  pub in_environment : b.environment ≡ env
  pub of_scopes : IsParsed l f.scopes b.scopes
  pub one_expiry : (f.set_at && f.set_in) ≡ false
  pub of_expiry : expiry l now f ≡ opened b.expires_at

one_way :
    (l : Formats) (now : ℕ) (f : CreateFlags) (at : Bytes)
    → expiry l now f ≡ opened at
    → (f.set_at && f.set_in) ≡ false
unfolding expiry
one_way l now f at e = elim (Bool-cases (f.set_at && f.set_in)) [
  | inl both ↦ absurd (ground arith)
  | inr one ↦ one
]

body_expiring-IsRequest :
    (l : Formats) (env : String) (f : CreateFlags) (now : ℕ) (v : Environment) (ss : List Bytes)
    (x : Opened Bytes) (b : CreateApiKeyRequest)
    → is_empty (l.trim f.name) ≡ false
    → environment_text (some v) ≡ env
    → IsParsed l f.scopes ss
    → expiry l now f ≡ x
    → body_expiring f v ss x ≡ opened b
    → IsRequest l env f now b
body_expiring-IsRequest l env f now v ss (stopped c) b n t p x e = absurd (ground arith)
body_expiring-IsRequest l env f now v ss (opened at) b n t p x e =
    let made : CreateApiKeyRequest = record {
      name = f.name;
      environment = environment_text (some v);
      scopes = ss;
      expires_at = at;
    } in
    let is : made ≡ b = ground arith in
    subst (IsRequest l env f now) is (record {
      has_name = n;
      same_name = refl;
      in_environment = t;
      of_scopes = p;
      one_expiry = one_way l now f at x;
      of_expiry = x;
    })

body_scoped-IsRequest :
    (l : Formats) (env : String) (f : CreateFlags) (now : ℕ) (v : Environment)
    (x : Opened (List Bytes)) (b : CreateApiKeyRequest)
    → is_empty (l.trim f.name) ≡ false
    → environment_text (some v) ≡ env
    → parse_scopes l f.scopes ≡ x
    → body_scoped l now f v x ≡ opened b
    → IsRequest l env f now b
body_scoped-IsRequest l env f now v (stopped c) b n t p e = absurd (ground arith)
body_scoped-IsRequest l env f now v (opened ss) b n t p e =
    body_expiring-IsRequest l env f now v ss (expiry l now f) b n t
      (parse_scopes-IsParsed l f.scopes ss p) refl e

body_in-IsRequest :
    (l : Formats) (env : String) (f : CreateFlags) (now : ℕ) (x : Opened Environment)
    (b : CreateApiKeyRequest)
    → is_empty (l.trim f.name) ≡ false
    → parse_environment env ≡ x
    → body_in l now f x ≡ opened b
    → IsRequest l env f now b
body_in-IsRequest l env f now (stopped c) b n t e = absurd (ground arith)
body_in-IsRequest l env f now (opened v) b n t e =
    body_scoped-IsRequest l env f now v (parse_scopes l f.scopes) b n
      (parse_environment-environment_text env v t) refl e

-- The request for a key says what the flags say: the name that was given, which is not blank, the
-- environment that was given, the scopes that were named, each known and none twice, and an expiry by
-- one way at most.
pub build_body-IsRequest :
    (l : Formats) (env : String) (f : CreateFlags) (now : ℕ) (b : CreateApiKeyRequest)
    → build_body l env f now ≡ opened b
    → IsRequest l env f now b
unfolding build_body
build_body-IsRequest l env f now b e = elim (Bool-cases (is_empty (l.trim f.name))) [
  | inl n ↦ absurd (ground arith)
  | inr n ↦ elim (Bool-cases (env == "")) [
    | inl i ↦ absurd (ground arith)
    | inr i ↦ body_in-IsRequest l env f now (parse_environment env) b n refl (ground arith)
  ]
]
