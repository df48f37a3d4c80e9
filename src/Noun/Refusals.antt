-- ===== src/Noun/Refusals.antt =====
-- What a command ends with when nothing is opened for it, and what the operations require.
use ferry_cli.Base.{
  ◌≡◌, refl, subst, all, ◌||◌, lookup-all, ◌&&◌, Bool, true, false, not, Option, none, some, [],
  ◌∷◌, if◌then◌else◌, arith, lookup, contains, inl, inr, ◌⊎◌,
}
use ferry_cli.Outcome.Class.{Class, Money, properties}
use ferry_cli.Outcome.Operation.{Operation, OpClass, op_classes, class_of, is_money}
use ferry_cli.Api.Target.{Bytes}
use ferry_cli.Creds.{
  CredentialClass, Requirement, require_api_key, require_pat, classify_token, Normalized, refused,
  canonical, normalize, is_empty,
}
use ferry_cli.Creds.Store.{
  Document, CredsError, Done, failed, done, put, Match, credential_for, load,
}
use ferry_cli.Noun.{
  requirement_for, local_at, Opened, stopped, opened, Globals, Deps, Local, requested_url, with_url,
  with_file, open_local, override_url, override_credential, profile_of, clone, put_override,
  override_of, token_override, Session, refuse_credential, session_of, override_or, with_override,
  with_requirement, session, session_on, open_session,
}

-- A fault, a wrong command line, or a refusal.
abbrev pub IsRefusal : Class → Type 0
IsRefusal c =
    ((properties c).money ≡ Money.no)
    × ((c ≡ Class.cli_fault) ⊎ ((c ≡ Class.usage) ⊎ (c ≡ Class.refused_fix)))

is_fault : IsRefusal Class.cli_fault
unfolding properties
is_fault = (refl, inl refl)

is_usage : IsRefusal Class.usage
unfolding properties
is_usage = (refl, inr (inl refl))

is_refused : IsRefusal Class.refused_fix
unfolding properties
is_refused = (refl, inr (inr refl))

abbrev Refuses : {A : Type 0} → Opened A → Type 0
Refuses (stopped c) = IsRefusal c
Refuses (opened x) = Unit

refuse_credential-IsRefusal : (why : CredsError) → IsRefusal (refuse_credential why)
refuse_credential-IsRefusal CredsError.no_profile = is_refused
refuse_credential-IsRefusal CredsError.no_credential_of_class = is_refused
refuse_credential-IsRefusal CredsError.api_url_mismatch = is_refused
refuse_credential-IsRefusal CredsError.permissions_too_wide = is_fault
refuse_credential-IsRefusal CredsError.unknown_token_shape = is_fault
refuse_credential-IsRefusal CredsError.unreadable = is_fault
refuse_credential-IsRefusal CredsError.schema_unsupported = is_fault
refuse_credential-IsRefusal (CredsError.bad_url u) = is_fault

either-Refuses :
    {A : Type 0} (b : Bool) (x y : Opened A) → Refuses x → Refuses y → Refuses (if b then x else y)
either-Refuses true x y p q = p
either-Refuses false x y p q = q

with_url-Refuses :
    (d : Deps) (g : Globals) (f : Document) (n : Normalized) → Refuses (with_url d g f n)
with_url-Refuses d g f (refused why) = is_usage
with_url-Refuses d g f (canonical url) = tt

with_file-Refuses : (d : Deps) (g : Globals) (x : Done Document) → Refuses (with_file d g x)
with_file-Refuses d g (failed why) = is_fault
with_file-Refuses d g (done f) =
    either-Refuses {A = Local} (is_empty (requested_url d g)) (opened (local_at d g f []))
      (with_url d g f (normalize d.library (requested_url d g))) tt
      (with_url-Refuses d g f (normalize d.library (requested_url d g)))

open_local-Refuses : (d : Deps) (g : Globals) → Refuses (open_local d g)
unfolding open_local
open_local-Refuses d g =
    either-Refuses {A = Local} (not (contains g.output ("text" ∷ "json" ∷ [])))
      (stopped Class.usage)
      (if not d.has_paths then stopped Class.cli_fault else with_file d g (load d.on_disk)) is_usage
      (either-Refuses {A = Local} (not d.has_paths) (stopped Class.cli_fault)
        (with_file d g (load d.on_disk)) is_fault (with_file-Refuses d g (load d.on_disk)))

put_override-Refuses : (x : Done Document) → Refuses (put_override x)
put_override-Refuses (failed why) = is_usage
put_override-Refuses (done d) = tt

override_of-Refuses :
    (l : Local) (raw : Bytes) (k : Option CredentialClass) → Refuses (override_of l raw k)
override_of-Refuses l raw none = is_usage
override_of-Refuses l raw (some k) =
    let stored =
      put l.deps.library l.deps.now (profile_of l) (override_url l) (override_credential l raw)
        (clone l.file) in
    either-Refuses {A = Option Document} (is_empty (override_url l)) (stopped Class.usage)
      (put_override stored) is_usage (put_override-Refuses stored)

token_override-Refuses : (l : Local) → Refuses (token_override l)
unfolding token_override
token_override-Refuses l =
    let raw = l.deps.library.trim l.deps.ferry_token in
    either-Refuses {A = Option Document} (is_empty raw) (opened none)
      (override_of l raw (classify_token raw)) tt (override_of-Refuses l raw (classify_token raw))

session_of-Refuses : (l : Local) (op : Operation) (x : Done Match) → Refuses (session_of l op x)
session_of-Refuses l op (failed why) = refuse_credential-IsRefusal why
session_of-Refuses l op (done m) = tt

with_override-Refuses :
    (l : Local) (op : Operation) (r : Requirement) (x : Opened (Option Document))
    → Refuses x
    → Refuses (with_override l op r x)
with_override-Refuses l op r (stopped c) h = h
with_override-Refuses l op r (opened o) h =
    session_of-Refuses l op
      (credential_for l.deps.library (profile_of l) r l.requested_api_url (override_or l.file o))

with_requirement-Refuses :
    (l : Local) (op : Operation) (o : Option Requirement) → Refuses (with_requirement l op o)
with_requirement-Refuses l op none = is_fault
with_requirement-Refuses l op (some r) =
    with_override-Refuses l op r (token_override l) (token_override-Refuses l)

pub session-Refuses : (l : Local) (op : Operation) → Refuses (session l op)
unfolding session
session-Refuses l op = with_requirement-Refuses l op (requirement_for op)

session_on-Refuses : (op : Operation) (x : Opened Local) → Refuses x → Refuses (session_on op x)
session_on-Refuses op (stopped c) h = h
session_on-Refuses op (opened l) h = session-Refuses l op

open_session-Refuses : (d : Deps) (g : Globals) (op : Operation) → Refuses (open_session d g op)
unfolding open_session
open_session-Refuses d g op = session_on-Refuses op (open_local d g) (open_local-Refuses d g)

-- What stops a command before it sends is a fault of the command line tool, a wrong command line or a
-- refusal, which exit 1, 2 and 3 and say that no money moved.
pub open_session-IsRefusal :
    (d : Deps) (g : Globals) (op : Operation) (c : Class)
    → open_session d g op ≡ stopped c
    → IsRefusal c
open_session-IsRefusal d g op c e = subst (Refuses {A = Session}) e (open_session-Refuses d g op)

abbrev requires_key : Option Requirement → Bool
requires_key (some require_api_key) = true
requires_key _ = false

abbrev requires_pat : Option Requirement → Bool
requires_pat (some require_pat) = true
requires_pat _ = false

abbrev is_control : OpClass → Bool
is_control OpClass.control_create = true
is_control _ = false

abbrev is_kept_apart : Operation × OpClass → Bool
is_kept_apart (op, c) =
    (not (is_money c) || requires_key (requirement_for op))
    && (not (is_control c) || requires_pat (requirement_for op))

all_kept_apart : all is_kept_apart op_classes ≡ true
unfolding all requirement_for lookup
all_kept_apart = refl

key_required : (o : Option Requirement) → requires_key o ≡ true → o ≡ some require_api_key
key_required o e = ground arith

pat_required : (o : Option Requirement) → requires_pat o ≡ true → o ≡ some require_pat
pat_required o e = ground arith

kept_apart : (op : Operation) (c : OpClass) → class_of op ≡ some c → is_kept_apart (op, c) ≡ true
unfolding class_of
kept_apart op c e = lookup-all is_kept_apart op op_classes {v = c} all_kept_apart e

pub money_requires :
    (op : Operation) (c : OpClass)
    → class_of op ≡ some c
    → is_money c ≡ true
    → requirement_for op ≡ some require_api_key
money_requires op c e m = key_required (requirement_for op) (ground (arith, kept_apart op c e))

pub mint_requires :
    (op : Operation)
    → class_of op ≡ some OpClass.control_create
    → requirement_for op ≡ some require_pat
mint_requires op e =
    pat_required (requirement_for op) (ground (arith, kept_apart op OpClass.control_create e))
