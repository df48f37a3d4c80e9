-- ===== src/Creds/View.antt =====
-- The document of profiles as a map from a profile and a class to a credential, and from a profile to
-- the URL that it is bound to.
use ferry_cli.Base.{
  ℕ, String, ◌==◌, eq_iff, ◌≡◌, refl, ◌∙◌, ap, sym, subst, Bool, true, false, ◌&&◌, Option, none,
  some, List, [], ◌∷◌, if◌then◌else◌, arith, lookup, Bool-cases, inl, inr,
}
use ferry_cli.Api.Target.{Bytes}
use ferry_cli.Creds.{
  CredentialClass, api_key, pat, classify_token, Library, Normalized, refused, canonical, normalize,
  same_api_url,
}
use ferry_cli.Creds.Store.{
  Credential, Profile, Document, CredsError, set_profile, delete_profile, profile_name,
  profile_or_empty, has_bytes, is_bound_elsewhere, completed, with_credential, failed, done,
  put_classified, put_normalized, put,
}

-- The credential of a class that a profile holds.
abbrev pub of_class : CredentialClass → Profile → Option Credential
of_class api_key p = p.key
of_class pat p = p.personal

abbrev pub class_in : CredentialClass → Option Profile → Option Credential
class_in class none = none
class_in class (some p) = of_class class p

-- The abstract store.
unfoldable pub holds : Document → String → CredentialClass → Option Credential
unfolding lookup
holds d name class = class_in class (lookup name d.profiles)

abbrev pub url_in : Option Profile → Option Bytes
url_in none = none
url_in (some p) = some p.api_url

unfoldable pub bound_to : Document → String → Option Bytes
unfolding lookup
bound_to d name = url_in (lookup name d.profiles)

abbrev pub same_class : CredentialClass → CredentialClass → Bool
same_class api_key api_key = true
same_class pat pat = true
same_class _ _ = false

-- The class that is removed is this one, or both are.
abbrev pub covers : Option CredentialClass → CredentialClass → Bool
covers none class = true
covers (some c) class = same_class c class

lookup-set_profile :
    (k name : String) (p : Profile) (ps : List (String × Profile))
    → lookup k (set_profile name p ps) ≡ (if name == k then some p else lookup k ps)
unfolding lookup set_profile
lookup-set_profile k name p [] = refl
lookup-set_profile k name p ((n, q) ∷ rest) =
    ground (arith, eq_iff n name, eq_iff n k, eq_iff name k, lookup-set_profile k name p rest)

lookup-delete_profile :
    (k name : String) (ps : List (String × Profile))
    → lookup k (delete_profile name ps) ≡ (if name == k then none else lookup k ps)
unfolding lookup delete_profile
lookup-delete_profile k name [] = ground arith
lookup-delete_profile k name ((n, q) ∷ rest) =
    ground (arith, eq_iff n name, eq_iff n k, eq_iff name k, lookup-delete_profile k name rest)

-- What `Put` does to the abstract store: one entry and one binding, of a token of a known class, on a
-- profile that was not bound to another URL.
pub record IsPut (l : Library) (now : ℕ) (name : String) (raw : Bytes) (c : Credential)
    (d d' : Document) : Type 0 where
  pub class : CredentialClass
  pub is_class : classify_token c.token ≡ some class
  pub url : Bytes
  pub is_url : normalize l raw ≡ canonical url
  pub not_elsewhere :
      (old : Bytes)
      → bound_to d (profile_name name) ≡ some old
      → has_bytes old ≡ true
      → same_api_url l old url ≡ true
  pub entries :
      (n : String) (k : CredentialClass)
      → holds d' n k ≡ (
          if (profile_name name == n) && same_class class k
          then some (completed now c)
          else holds d n k)
  pub bindings :
      (n : String) → bound_to d' n ≡ (if profile_name name == n then some url else bound_to d n)

class_with :
    (class k : CredentialClass) (url : Bytes) (c : Credential) (o : Option Profile)
    → of_class k (with_credential class url c (profile_or_empty o))
      ≡ (if same_class class k then some c else class_in k o)
class_with api_key api_key url c o = refl
class_with pat pat url c o = refl
class_with api_key pat url c none = refl
class_with api_key pat url c (some p) = refl
class_with pat api_key url c none = refl
class_with pat api_key url c (some p) = refl

url_with :
    (class : CredentialClass) (url : Bytes) (c : Credential) (p : Profile)
    → (with_credential class url c p).api_url ≡ url
url_with api_key url c p = refl
url_with pat url c p = refl

entry_of_set :
    (n name : String) (k : CredentialClass) (p : Profile) (b : Bool) (x : Option Credential)
    (ps : List (String × Profile))
    → of_class k p ≡ (if b then x else class_in k (lookup name ps))
    → class_in k (lookup n (set_profile name p ps))
      ≡ (if (name == n) && b then x else class_in k (lookup n ps))
entry_of_set n name k p b x ps e = elim (Bool-cases (name == n)) [
  | inl same ↦
      let is : name ≡ n = (eq_iff name n).0 same in
      let at_n = subst (λ m. of_class k p ≡ (if b then x else class_in k (lookup m ps))) is e in
      rw (lookup-set_profile n name p ps, same) at_n
  | inr other ↦ rw (lookup-set_profile n name p ps, other) refl
]

url_of_set :
    (n name : String) (p : Profile) (url : Bytes) (ps : List (String × Profile))
    → p.api_url ≡ url
    → url_in (lookup n (set_profile name p ps))
      ≡ (if name == n then some url else url_in (lookup n ps))
url_of_set n name p url ps e = elim (Bool-cases (name == n)) [
  | inl same ↦ rw (lookup-set_profile n name p ps, same) (ap some e)
  | inr other ↦ rw (lookup-set_profile n name p ps, other) refl
]

not_bound_elsewhere :
    (l : Library) (url old : Bytes) (o : Option Profile)
    → is_bound_elsewhere l url o ≡ false
    → url_in o ≡ some old
    → has_bytes old ≡ true
    → same_api_url l old url ≡ true
not_bound_elsewhere l url old none e f g = absurd (ground arith)
not_bound_elsewhere l url old (some p) e f g =
    let is : p.api_url ≡ old = ground arith in
    subst (λ u. has_bytes u ≡ true → same_api_url l u url ≡ true) is (λ h. ground arith) g

if_done :
    {A : Type 0} (b : Bool) (why : CredsError) (x y : A)
    → (if b then failed why else done x) ≡ done y
    → (b ≡ false) × (x ≡ y)
if_done true why x y e = absurd (ground arith)
if_done false why x y e = (refl, ground arith)

put_classified-IsPut :
    (l : Library) (now : ℕ) (name : String) (raw url : Bytes) (c : Credential) (d d' : Document)
    (o : Option CredentialClass)
    → normalize l raw ≡ canonical url
    → classify_token c.token ≡ o
    → put_classified l now (profile_name name) url c d o ≡ done d'
    → IsPut l now name raw c d d'
unfolding holds bound_to
put_classified-IsPut l now name raw url c d d' none u t e = absurd (ground arith)
put_classified-IsPut l now name raw url c d d' (some class) u t e =
    let key = profile_name name in
    let old = lookup key d.profiles in
    let p = with_credential class url (completed now c) (profile_or_empty old) in
    let (free, is) = if_done (is_bound_elsewhere l url old) _ _ d' e in
    record {
      class = class;
      is_class = t;
      url = url;
      is_url = u;
      not_elsewhere = λ o f g. not_bound_elsewhere l url o old free f g;
      entries = λ n k.
          ap (λ x. class_in k (lookup n x.profiles)) (sym is)
          ∙ entry_of_set n key k p (same_class class k) (some (completed now c)) d.profiles
              (class_with class k url (completed now c) old);
      bindings = λ n.
          ap (λ x. url_in (lookup n x.profiles)) (sym is)
          ∙ url_of_set n key p url d.profiles
              (url_with class url (completed now c) (profile_or_empty old));
    }

put_normalized-IsPut :
    (l : Library) (now : ℕ) (name : String) (raw : Bytes) (c : Credential) (d d' : Document)
    (u : Normalized)
    → normalize l raw ≡ u
    → put_normalized l now name c d u ≡ done d'
    → IsPut l now name raw c d d'
put_normalized-IsPut l now name raw c d d' (refused why) u e = absurd (ground arith)
put_normalized-IsPut l now name raw c d d' (canonical url) u e =
    put_classified-IsPut l now name raw url c d d' (classify_token c.token) u refl e

-- `Put` refines an update of a map: when it succeeds, the token is of a known class and the URL has a
-- canonical form; exactly the entry of that profile and class changes, to the completed credential, and
-- exactly that profile is bound, to the canonical URL, to which it was bound before if it was bound.
pub put-IsPut :
    (l : Library) (now : ℕ) (name : String) (raw : Bytes) (c : Credential) (d d' : Document)
    → put l now name raw c d ≡ done d'
    → IsPut l now name raw c d d'
unfolding put
put-IsPut l now name raw c d d' e =
    put_normalized-IsPut l now name raw c d d' (normalize l raw) refl e
