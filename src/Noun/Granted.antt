-- ===== src/Noun/Granted.antt =====
-- Which credential a command sends with, and what it ends with when it is refused one.
use ferry_cli.Base.{
  String, ◌==◌, ◌≡◌, refl, ◌∙◌, ap, sym, subst, Bool, true, false, ◌&&◌, Option, none, some,
  if◌then◌else◌, arith, Bool-cases, inl, inr, ◌⊎◌,
}
use ferry_cli.Outcome.Operation.{Operation}
use ferry_cli.Api.Target.{Bytes}
use ferry_cli.Creds.{
  CredentialClass, api_key, pat, Requirement, classify_token, same_api_url, is_empty,
}
use ferry_cli.Creds.Store.{
  Credential, Document, profile_name, has_bytes, Done, failed, done, put, completed, Match,
  credential_for,
}
use ferry_cli.Creds.View.{holds, same_class, put-IsPut}
use ferry_cli.Creds.Binding.{accepts, credential_for-IsMatch}
use ferry_cli.Noun.{
  requirement_for, Opened, stopped, opened, Local, profile_of, override_url, override_credential,
  clone, put_override, override_of, token_override, Session, client_of, session_of, override_or,
  with_override, with_requirement, session,
}

-- A credential of the profile in the file, or the token of the environment, which is of its own class.
abbrev pub IsOwn : Local → Match → Type 0
IsOwn l m =
    (holds l.file (profile_name (profile_of l)) m.class ≡ some m.credential)
    ⊎ ((classify_token m.credential.token ≡ some m.class)
        × (m.credential.token ≡ l.deps.library.trim l.deps.ferry_token))

-- The credential is the invocation's own, of a class that the operation needs, bound to the endpoint
-- that the invocation asks for if it asks for one, and what the client sends with.
pub record IsGranted (l : Local) (op : Operation) (s : Session) : Type 0 where
  pub same_local : s.local ≡ l
  pub same_op : s.op ≡ op
  pub requirement : Requirement
  pub required : requirement_for op ≡ some requirement
  pub accepted : accepts requirement s.match.class ≡ true
  pub is_own : IsOwn l s.match
  pub same_url :
      (has_bytes l.requested_api_url ≡ false)
      ⊎ (same_api_url l.deps.library s.match.api_url l.requested_api_url ≡ true)
  pub sends_token : s.client.token ≡ s.match.credential.token
  pub sends_there : s.client.base_url ≡ s.match.api_url
  pub has_token : has_bytes s.client.token ≡ true

-- The document that a session reads holds the file's credentials, and the token of the environment.
abbrev Holds : Local → Document → Type 0
Holds l d =
    (k : CredentialClass) (c : Credential)
    → holds d (profile_name (profile_of l)) k ≡ some c
    → (holds l.file (profile_name (profile_of l)) k ≡ some c)
      ⊎ ((classify_token c.token ≡ some k) × (c.token ≡ l.deps.library.trim l.deps.ferry_token))

same_class_is : (a b : CredentialClass) → same_class a b ≡ true → a ≡ b
same_class_is api_key api_key e = refl
same_class_is pat pat e = refl
same_class_is api_key pat e = absurd (ground arith)
same_class_is pat api_key e = absurd (ground arith)

some_is :
    {A : Type 0} (b : Bool) (x y : A) (o : Option A)
    → (if b then some x else o) ≡ some y
    → ((b ≡ true) × (x ≡ y)) ⊎ (o ≡ some y)
some_is true x y o e = inl (refl, ground arith)
some_is false x y o e = inr e

and_right : (a b : Bool) → (a && b) ≡ true → b ≡ true
and_right a b e = ground arith

holds-clone : (d : Document) (n : String) (k : CredentialClass) → holds (clone d) n k ≡ holds d n k
unfolding holds
holds-clone d n k = refl

put-Holds :
    (l : Local) (raw url : Bytes) (d : Document)
    → raw ≡ l.deps.library.trim l.deps.ferry_token
    → put l.deps.library l.deps.now (profile_of l) url (override_credential l raw) (clone l.file)
      ≡ done d
    → Holds l d
put-Holds l raw url d is e k c h =
    let cred = override_credential l raw in
    let p = put-IsPut l.deps.library l.deps.now (profile_of l) url cred (clone l.file) d e in
    elim (some_is
      ((profile_name (profile_of l) == profile_name (profile_of l)) && same_class p.class k)
      (completed l.deps.now cred) c (holds (clone l.file) (profile_name (profile_of l)) k)
      (sym (p.entries (profile_name (profile_of l)) k) ∙ h)) [
        | inl (same, same_cred) ↦
            let token : raw ≡ c.token = ap (λ x. x.token) same_cred in
            let class : p.class ≡ k = same_class_is p.class k (and_right _ _ same) in
            inr (ap classify_token (sym token) ∙ (p.is_class ∙ ap some class), sym token ∙ is)
        | inr old ↦ inl (sym (holds-clone l.file _ k) ∙ old)
      ]

put_override-Holds :
    (l : Local) (raw url : Bytes) (o : Option Document) (x : Done Document)
    → raw ≡ l.deps.library.trim l.deps.ferry_token
    → put l.deps.library l.deps.now (profile_of l) url (override_credential l raw) (clone l.file)
      ≡ x
    → put_override x ≡ opened o
    → Holds l (override_or l.file o)
put_override-Holds l raw url o (failed why) is p e = absurd (ground arith)
put_override-Holds l raw url none (done d) is p e = absurd (ground arith)
put_override-Holds l raw url (some d') (done d) is p e =
    let same : d ≡ d' = ground arith in put-Holds l raw url d' is (p ∙ ap done same)

override_of-Holds :
    (l : Local) (raw : Bytes) (k : Option CredentialClass) (o : Option Document)
    → raw ≡ l.deps.library.trim l.deps.ferry_token
    → override_of l raw k ≡ opened o
    → Holds l (override_or l.file o)
override_of-Holds l raw none o is e = absurd (ground arith)
override_of-Holds l raw (some k) o is e = elim (Bool-cases (is_empty (override_url l))) [
  | inl empty ↦ absurd (ground arith)
  | inr url ↦ put_override-Holds l raw (override_url l) o _ is refl (ground arith)
]

-- The document that a session reads holds nothing but the file's credentials and the token.
token_override-Holds :
    (l : Local) (o : Option Document) → token_override l ≡ opened o → Holds l (override_or l.file o)
unfolding token_override
token_override-Holds l o e = elim (Bool-cases (is_empty (l.deps.library.trim l.deps.ferry_token))) [
  | inl empty ↦
      let is : o ≡ none = ground arith in
      subst (λ x. Holds l (override_or l.file x)) (sym is) (λ k c h. inl h)
  | inr token ↦
      override_of-Holds l (l.deps.library.trim l.deps.ferry_token)
        (classify_token (l.deps.library.trim l.deps.ferry_token)) o refl (ground arith)
]

session_of-IsGranted :
    (l : Local) (op : Operation) (r : Requirement) (d : Document) (x : Done Match) (s : Session)
    → requirement_for op ≡ some r
    → Holds l d
    → credential_for l.deps.library (profile_of l) r l.requested_api_url d ≡ x
    → session_of l op x ≡ opened s
    → IsGranted l op s
session_of-IsGranted l op r d (failed why) s req own m e = absurd (ground arith)
session_of-IsGranted l op r d (done m) s req own found e =
    let is : record { local = l; op = op; match = m; client = client_of m } ≡ s = ground arith in
    let i = credential_for-IsMatch l.deps.library (profile_of l) r l.requested_api_url d m found in
    subst (IsGranted l op) is (record {
      same_local = refl;
      same_op = refl;
      requirement = r;
      required = req;
      accepted = i.accepted;
      is_own =
          own m.class m.credential
            (subst (λ n. holds d n m.class ≡ some m.credential) i.of_profile i.is_held);
      same_url = i.same_url;
      sends_token = refl;
      sends_there = refl;
      has_token = i.has_token;
    })

with_override-IsGranted :
    (l : Local) (op : Operation) (r : Requirement) (x : Opened (Option Document)) (s : Session)
    → requirement_for op ≡ some r
    → token_override l ≡ x
    → with_override l op r x ≡ opened s
    → IsGranted l op s
with_override-IsGranted l op r (stopped c) s req t e = absurd (ground arith)
with_override-IsGranted l op r (opened o) s req t e =
    session_of-IsGranted l op r (override_or l.file o) _ s req (token_override-Holds l o t) refl e

with_requirement-IsGranted :
    (l : Local) (op : Operation) (o : Option Requirement) (s : Session)
    → requirement_for op ≡ o
    → with_requirement l op o ≡ opened s
    → IsGranted l op s
with_requirement-IsGranted l op none s req e = absurd (ground arith)
with_requirement-IsGranted l op (some r) s req e =
    with_override-IsGranted l op r (token_override l) s req refl e

-- A session sends with a token of a class that its operation needs: a credential that the profile holds
-- in the file, or the token of the environment, which stands in for its own class only. The client
-- calls the endpoint that the credential is bound to, which is the one that was asked for, if any was.
pub session-IsGranted :
    (l : Local) (op : Operation) (s : Session) → session l op ≡ opened s → IsGranted l op s
unfolding session
session-IsGranted l op s e = with_requirement-IsGranted l op (requirement_for op) s refl e
