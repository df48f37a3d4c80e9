-- ===== src/Transfers/Begin/Asserts.antt =====
-- What a transfer has checked when it begins.
use ferry_cli.Base.{
  String, ◌==◌, eq_iff, ◌≡◌, refl, ◌∙◌, ap, sym, subst, true, false, not, Option, none, some, List,
  [], ◌∷◌, ◌++◌, arith, lookup, contains, is_some,
}
use ferry_cli.Outcome.Operation.{Operation, op_get_command}
use ferry_cli.Cli.{Flag, FlagOp, on_flag}
use ferry_cli.Creds.{Environment, sandbox, live, Requirement}
use ferry_cli.Creds.Store.{Done, failed, done, Match, Document, credential_for}
use ferry_cli.Noun.{
  requirement_for, profile_of, override_or, Opened, stopped, opened, Globals, Deps, Local,
  environment_text, Session, open_local, session_of, with_override, with_requirement,
  token_override, session, parse_environment,
}
use ferry_cli.Noun.Environments.{parse_environment-environment_text}
use ferry_cli.Noun.Granted.{IsGranted, session-IsGranted}
use ferry_cli.Transfers.Begin.{
  runner_environment, Sessions, open_all, environment_in, same_environment, asserted,
  assert_environment, Runner, runner_of, begin_asserted, begin_opened, checked_operations, begin_at,
  begin,
}
use ferry_cli.Transfers.Begin.Opens.{AreOpened, AreAll, open_all-AreAll}

abbrev match_opened : Opened Session → Option Match
match_opened (stopped c) = none
match_opened (opened s) = some s.match

session_of-match :
    (l : Local) (a b : Operation) (x : Done Match)
    → match_opened (session_of l a x) ≡ match_opened (session_of l b x)
session_of-match l a b (failed why) = refl
session_of-match l a b (done m) = refl

with_override-match :
    (l : Local) (a b : Operation) (r : Requirement) (x : Opened (Option Document))
    → match_opened (with_override l a r x) ≡ match_opened (with_override l b r x)
with_override-match l a b r (stopped c) = refl
with_override-match l a b r (opened o) =
    session_of-match l a b
      (credential_for l.deps.library (profile_of l) r l.requested_api_url (override_or l.file o))

with_requirement-match :
    (l : Local) (a b : Operation) (o : Option Requirement)
    → match_opened (with_requirement l a o) ≡ match_opened (with_requirement l b o)
with_requirement-match l a b none = refl
with_requirement-match l a b (some r) = with_override-match l a b r (token_override l)

some_same : {A : Type 0} (x y : A) → some x ≡ some y → x ≡ y
some_same x y e = ground arith

-- Operations with one requirement are given one credential.
session-match :
    (l : Local) (a b : Operation) (s t : Session)
    → requirement_for a ≡ requirement_for b
    → session l a ≡ opened s
    → session l b ≡ opened t
    → s.match ≡ t.match
unfolding session
session-match l a b s t r e f =
    let same : match_opened (session l a) ≡ match_opened (session l b) =
      with_requirement-match l a b (requirement_for a)
      ∙ ap (λ o. match_opened (with_requirement l b o)) r in
    some_same s.match t.match (sym (ap match_opened e) ∙ (same ∙ ap match_opened f))

-- What a transfer holds when it begins: a session for each operation and for the poll, of a credential
-- that the operation needs; and if an environment was asserted, each credential of the kind that the
-- first operation takes is a key of that environment.
pub record IsBegun (d : Deps) (g : Globals) (f : Flag) (first : Operation) (ops : List Operation)
    (r : Runner) : Type 0 where
  pub of_local : open_local d g ≡ opened r.local
  pub granted :
      (op : Operation) (s : Session) → lookup op r.sessions ≡ some s → IsGranted r.local op s
  pub complete :
      (op : Operation)
      → contains op (checked_operations first ops) ≡ true
      → is_some (lookup op r.sessions) ≡ true
  pub of_environment :
      (op : Operation) (s : Session)
      → requirement_for op ≡ requirement_for first
      → lookup op r.sessions ≡ some s
      → (r.local.globals.env == "") ≡ false
      → environment_text s.match.credential.environment ≡ r.local.globals.env
  pub notes :
      r.flag ≡ on_flag (FlagOp.note_profile (profile_of r.local) (runner_environment r.sessions)) f

same_environment_is : (a b : Environment) → not (same_environment a b) ≡ false → a ≡ b
same_environment_is sandbox sandbox e = refl
same_environment_is live live e = refl
same_environment_is sandbox live e = absurd (ground arith)
same_environment_is live sandbox e = absurd (ground arith)

asserted_is :
    (raw : String) (p : Opened Environment) (got : Option Environment) (u : Unit)
    → parse_environment raw ≡ p
    → asserted p got ≡ opened u
    → environment_text got ≡ raw
asserted_is raw (stopped c) got u e f = absurd (ground arith)
asserted_is raw (opened want) none u e f = absurd (ground arith)
asserted_is raw (opened want) (some got) u e f =
    let free : not (same_environment got want) ≡ false = ground arith in
    ap (λ x. environment_text (some x)) (same_environment_is got want free)
    ∙ parse_environment-environment_text raw want e

asserts :
    (l : Local) (o : Option Session) (u : Unit)
    → assert_environment l o ≡ opened u
    → (l.globals.env == "") ≡ false
    → environment_text (environment_in o) ≡ l.globals.env
unfolding assert_environment
asserts l o u e n =
    asserted_is l.globals.env (parse_environment l.globals.env) (environment_in o) u refl
      (ground arith)

asserted_all :
    (l : Local) (first op : Operation) (ss : Sessions) (o : Option Session) (u : Unit) (s : Session)
    → AreOpened l ss
    → lookup first ss ≡ o
    → is_some o ≡ true
    → assert_environment l o ≡ opened u
    → (l.globals.env == "") ≡ false
    → requirement_for op ≡ requirement_for first
    → lookup op ss ≡ some s
    → environment_text s.match.credential.environment ≡ l.globals.env
asserted_all l first op ss none u s h f i e n r g = absurd (ground arith)
asserted_all l first op ss (some t) u s h f i e n r g =
    ap (λ m. environment_text m.credential.environment)
      (session-match l op first s t r (h op s g) (h first t f))
    ∙ asserts l (some t) u e n

contains_first : (k : String) (ks : List String) → contains k (k ∷ ks) ≡ true
unfolding contains
contains_first k ks = ground (arith, eq_iff k k)

begin_asserted-IsBegun :
    (d : Deps) (g : Globals) (f : Flag) (first : Operation) (ops : List Operation) (l : Local)
    (ss : Sessions) (x : Opened Unit) (r : Runner)
    → open_local d g ≡ opened l
    → AreAll l (checked_operations first ops) [] ss
    → assert_environment l (lookup first ss) ≡ x
    → begin_asserted f l first ss x ≡ opened r
    → IsBegun d g f first ops r
begin_asserted-IsBegun d g f first ops l ss (stopped c) r at all a e = absurd (ground arith)
begin_asserted-IsBegun d g f first ops l ss (opened u) r at all a e =
    let is : runner_of f l first ss ≡ r = ground arith in
    subst (IsBegun d g f first ops) is (record {
      of_local = at;
      granted = λ op s h. session-IsGranted l op s (all.are_opened op s h);
      complete = all.new;
      of_environment = λ op s q h n.
          asserted_all l first op ss (lookup first ss) u s all.are_opened refl
            (all.new first (contains_first first (ops ++ (op_get_command ∷ [])))) a n q h;
      notes = refl;
    })

none_opened : (l : Local) → AreOpened l []
unfolding lookup
none_opened l op s e = absurd (ground arith)

begin_opened-IsBegun :
    (d : Deps) (g : Globals) (f : Flag) (first : Operation) (ops : List Operation) (l : Local)
    (x : Opened Sessions) (r : Runner)
    → open_local d g ≡ opened l
    → open_all l (checked_operations first ops) [] ≡ x
    → begin_opened f l first x ≡ opened r
    → IsBegun d g f first ops r
begin_opened-IsBegun d g f first ops l (stopped c) r at a e = absurd (ground arith)
begin_opened-IsBegun d g f first ops l (opened ss) r at a e =
    begin_asserted-IsBegun d g f first ops l ss (assert_environment l (lookup first ss)) r at
      (open_all-AreAll l (checked_operations first ops) [] ss (none_opened l) a) refl e

begin_at-IsBegun :
    (d : Deps) (g : Globals) (f : Flag) (first : Operation) (ops : List Operation)
    (x : Opened Local) (r : Runner)
    → open_local d g ≡ x
    → begin_at f first ops x ≡ opened r
    → IsBegun d g f first ops r
begin_at-IsBegun d g f first ops (stopped c) r at e = absurd (ground arith)
begin_at-IsBegun d g f first ops (opened l) r at e =
    begin_opened-IsBegun d g f first ops l _ r at refl e

-- A transfer that begins holds a session for each of its operations and for the poll, of a credential
-- that the operation needs; and if an environment was asserted, every credential of the kind that its
-- first operation takes is a key of that environment. It notes the profile and its environment.
pub begin-IsBegun :
    (d : Deps) (g : Globals) (f : Flag) (first : Operation) (ops : List Operation) (r : Runner)
    → begin d g f first ops ≡ opened r
    → IsBegun d g f first ops r
unfolding begin
begin-IsBegun d g f first ops r e = begin_at-IsBegun d g f first ops (open_local d g) r refl e
