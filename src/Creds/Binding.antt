-- ===== src/Creds/Binding.antt =====
-- The credential that a command is given, and the URL that it is bound to.
use ferry_cli.Base.{
  ℕ, suc, String, ◌≡◌, refl, ◌∙◌, ap, sym, subst, Bool, true, false, ◌&&◌, not, Option, none, some,
  [], ◌∷◌, ◌++◌, if◌then◌else◌, arith, lookup, Bool-cases, inl, inr, ◌⊎◌, length, length-append,
}
use ferry_cli.Api.Target.{Bytes}
use ferry_cli.Api.Meta.{codes}
use ferry_cli.Creds.{
  CredentialClass, api_key, pat, Requirement, require_api_key, require_pat, require_either, Library,
  Url, canonical, same_bytes, trim_suffix, http, host_of, is_empty, is_plain, joined, normalize,
  both_canonical, same_api_url,
}
use ferry_cli.Creds.Store.{
  Profile, Document, CredsError, profile_name, has_bytes, Done, failed, done, Match, picked,
  found_match, match_of, credential_for,
}
use ferry_cli.Creds.View.{holds, bound_to, of_class, class_in, url_in}

-- The classes that a requirement accepts.
abbrev pub accepts : Requirement → CredentialClass → Bool
accepts require_api_key api_key = true
accepts require_api_key pat = false
accepts require_pat api_key = false
accepts require_pat pat = true
accepts require_either class = true

-- A credential of the profile, of a class that is accepted, bound to the URL that is called.
pub record IsMatch (l : Library) (name : String) (r : Requirement) (url : Bytes) (d : Document)
    (m : Match) : Type 0 where
  pub of_profile : m.profile ≡ profile_name name
  pub is_held : holds d m.profile m.class ≡ some m.credential
  pub is_bound : bound_to d m.profile ≡ some m.api_url
  pub same_url : (has_bytes url ≡ false) ⊎ (same_api_url l m.api_url url ≡ true)
  pub accepted : accepts r m.class ≡ true
  pub has_token : has_bytes m.credential.token ≡ true

-- A credential that is picked is the one that the profile holds.
abbrev IsPicked : String → Profile → Requirement → Match → Type 0
IsPicked name p r m =
    (m.profile ≡ name)
    × (of_class m.class p ≡ some m.credential)
    × (m.api_url ≡ p.api_url)
    × (accepts r m.class ≡ true)
    × (has_bytes m.credential.token ≡ true)

picked-IsPicked :
    (name : String) (r : Requirement) (p : Profile) (m : Match)
    → picked name r p ≡ some m
    → IsPicked name p r m
picked-IsPicked name require_api_key p m e = ground arith
picked-IsPicked name require_pat p m e = ground arith
picked-IsPicked name require_either p m e = ground arith

found_done : (o : Option Match) (m : Match) → found_match o ≡ done m → o ≡ some m
found_done none m e = absurd (ground arith)
found_done (some k) m e = ground arith

if_failed :
    {A : Type 0} (b : Bool) (why : CredsError) (x : Done A) (y : A)
    → (if b then failed why else x) ≡ done y
    → (b ≡ false) × (x ≡ done y)
if_failed true why x y e = absurd (ground arith)
if_failed false why x y e = (refl, e)

allowed :
    (l : Library) (url bound : Bytes)
    → (has_bytes url && not (same_api_url l bound url)) ≡ false
    → (has_bytes url ≡ false) ⊎ (same_api_url l bound url ≡ true)
allowed l url bound e = elim (Bool-cases (has_bytes url)) [
  | inl h ↦ inr (ground arith)
  | inr h ↦ inl h
]

match_of-IsMatch :
    (l : Library) (name : String) (r : Requirement) (url : Bytes) (d : Document) (m : Match)
    (o : Option Profile)
    → lookup (profile_name name) d.profiles ≡ o
    → match_of l (profile_name name) r url o ≡ done m
    → IsMatch l name r url d m
unfolding holds bound_to
match_of-IsMatch l name r url d m none f e = absurd (ground arith)
match_of-IsMatch l name r url d m (some p) f e =
    let (free, found) = if_failed (has_bytes url && not (same_api_url l p.api_url url)) _ _ m e in
    let (of, is, bound, ok, token) =
      picked-IsPicked (profile_name name) r p m
        (found_done (picked (profile_name name) r p) m found) in
    let at : lookup m.profile d.profiles ≡ some p = ap (λ n. lookup n d.profiles) of ∙ f in
    record {
      of_profile = of;
      is_held = ap (class_in m.class) at ∙ is;
      is_bound = ap url_in at ∙ ap some (sym bound);
      same_url =
          allowed l url m.api_url
            (subst (λ u. (has_bytes url && not (same_api_url l u url)) ≡ false) (sym bound) free);
      accepted = ok;
      has_token = token;
    }

-- What `For` gives is a credential that the profile holds, of a class that the requirement accepts,
-- with a token; and it is bound to the URL that the invocation asks for, if it asks for one.
pub credential_for-IsMatch :
    (l : Library) (name : String) (r : Requirement) (url : Bytes) (d : Document) (m : Match)
    → credential_for l name r url d ≡ done m
    → IsMatch l name r url d m
unfolding credential_for
credential_for-IsMatch l name r url d m e =
    match_of-IsMatch l name r url d m (lookup (profile_name name) d.profiles) refl e

same_bytes-length : (xs ys : Bytes) → same_bytes xs ys ≡ true → length xs ≡ length ys
unfolding same_bytes
same_bytes-length [] [] e = refl
same_bytes-length [] (y ∷ ys) e = absurd (ground arith)
same_bytes-length (x ∷ xs) [] e = absurd (ground arith)
same_bytes-length (x ∷ xs) (y ∷ ys) e = ap suc (same_bytes-length xs ys (ground arith))

same_bytes_self : (xs : Bytes) → same_bytes xs xs ≡ true
unfolding same_bytes
same_bytes_self [] = refl
same_bytes_self (x ∷ xs) = ground (arith, same_bytes_self xs)

longer : (x : ℕ) (xs ys : Bytes) → same_bytes (x ∷ (xs ++ ys)) ys ≡ false
longer x xs ys = elim (Bool-cases (same_bytes (x ∷ (xs ++ ys)) ys)) [
  | inl e ↦ absurd (omega (arith, same_bytes-length (x ∷ (xs ++ ys)) ys e, length-append xs ys))
  | inr e ↦ e
]

trim_whole : (y : ℕ) (ys : Bytes) → trim_suffix (y ∷ ys) (y ∷ ys) ≡ []
unfolding trim_suffix
trim_whole y ys = rw (same_bytes_self (y ∷ ys)) refl

trim_suffix-append : (xs : Bytes) (y : ℕ) (ys : Bytes) → trim_suffix (y ∷ ys) (xs ++ (y ∷ ys)) ≡ xs
unfolding trim_suffix
trim_suffix-append [] y ys = trim_whole y ys
trim_suffix-append (x ∷ xs) y ys = rw (longer x xs (y ∷ ys), trim_suffix-append xs y ys) refl

-- The default port of one scheme is dropped of the other as well.
http_ports :
    (l : Library) (u v : Url)
    → l.lower v.host ≡ l.lower u.host ++ codes ":443"
    → l.lower u.host ≡ trim_suffix (codes ":443") (l.lower u.host)
    → host_of http (l.lower v.host) ≡ host_of http (l.lower u.host)
unfolding same_bytes
http_ports l u v e bare =
    ap (λ h. trim_suffix (codes ":80") h)
      (ap (trim_suffix (codes ":443")) e
        ∙ (trim_suffix-append (l.lower u.host) 58 (52 ∷ 52 ∷ 51 ∷ []) ∙ bare))

normalize_is :
    (l : Library) (raw : Bytes) (u : Url)
    → is_empty (l.trim raw) ≡ false
    → l.parse raw ≡ some u
    → l.lower u.scheme ≡ http
    → is_plain u ≡ true
    → normalize l raw ≡ canonical (joined l http u)
unfolding normalize same_bytes
normalize_is l raw u some_text parsed scheme plain = rw (some_text, parsed, scheme, plain) refl

-- Two endpoints pass for one: a plain http URL with the port 443, and the same URL without a port, which
-- is the port 80, are the same API URL to `SameAPIURL`.
pub same_api_url-ports :
    (l : Library) (a b : Bytes) (u v : Url)
    → (is_empty (l.trim a) ≡ false) × (is_empty (l.trim b) ≡ false)
    → (l.parse a ≡ some u) × (l.parse b ≡ some v)
    → (l.lower u.scheme ≡ http) × (l.lower v.scheme ≡ http)
    → (is_plain u ≡ true) × (is_plain v ≡ true)
    → v.escaped_path ≡ u.escaped_path
    → l.lower v.host ≡ l.lower u.host ++ codes ":443"
    → l.lower u.host ≡ trim_suffix (codes ":443") (l.lower u.host)
    → same_api_url l a b ≡ true
unfolding same_api_url
same_api_url-ports l a b u v (ta, tb) (pa, pb) (su, sv) (fu, fv) path port bare =
    let joins : joined l http v ≡ joined l http u =
      ap (λ h. http ++ (codes "://" ++ (h ++ trim_suffix (codes "/") v.escaped_path)))
        (http_ports l u v port bare)
      ∙ ap
          (λ p.
            http ++ (codes "://" ++ (host_of http (l.lower u.host) ++ trim_suffix (codes "/") p)))
          path in
    ap (λ x. both_canonical x (normalize l b)) (normalize_is l a u ta pa su fu)
    ∙ (ap (both_canonical (canonical (joined l http u))) (normalize_is l b v tb pb sv fv)
        ∙ (ap (same_bytes (joined l http u)) joins ∙ same_bytes_self (joined l http u)))
