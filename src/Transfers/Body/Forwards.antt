-- ===== src/Transfers/Body/Forwards.antt =====
-- What is sent of a document that the caller names.
use ferry_cli.Base.{
  ℕ, ◌==◌, ◌≡◌, refl, ◌∙◌, ap, sym, subst, Bool, true, false, not, Option, none, some, [], ◌∷◌,
  ◌++◌, if◌then◌else◌, arith, eqb, eqb_iff, Bool-cases, inl, inr, ◌⊎◌,
}
use ferry_cli.Outcome.Class.{Class}
use ferry_cli.Api.Target.{Bytes}
use ferry_cli.Creds.{is_empty}
use ferry_cli.Noun.{Opened, stopped, opened}
use ferry_cli.Transfers.Body.{
  BodyFlags, Reads, changed_field_flags, no_flags, trim_trailing_newline, checked_object,
  read_contents, read_body, build_body,
}

abbrev newline : Bytes
newline = 10 ∷ []

trimmed_is :
    (raw : Bytes) → (trim_trailing_newline raw ≡ raw) ⊎ (trim_trailing_newline raw ++ newline ≡ raw)
unfolding trim_trailing_newline
trimmed_is [] = inl refl
trimmed_is (c ∷ []) = elim (Bool-cases (eqb c 10)) [
  | inl e ↦ let is : c ≡ 10 = ground (arith, eqb_iff c 10) in inr (rw e (ap (λ x. x ∷ []) (sym is)))
  | inr e ↦ inl (rw e refl)
]
trimmed_is (c ∷ d ∷ cs) = elim (trimmed_is (d ∷ cs)) [
  | inl e ↦ inl (ap (λ x. c ∷ x) e)
  | inr e ↦ inr (ap (λ x. c ∷ x) e)
]

-- The bytes that are sent are those of the source, or those before its last newline: not empty, UTF-8,
-- and an object with a key. No flag of a field was typed beside them.
pub record IsForwarded (r : Reads) (f : BodyFlags) (raw : Bytes) : Type 0 where
  pub no_conflict : no_flags (changed_field_flags r) ≡ true
  pub contents : Bytes
  pub are_read : r.contents f.body ≡ some contents
  pub verbatim : (raw ≡ contents) ⊎ (raw ++ newline ≡ contents)
  pub not_empty : is_empty raw ≡ false
  pub utf8 : r.is_utf8 raw ≡ true
  pub keys : ℕ
  pub is_object : r.object_keys raw ≡ some keys
  pub some_key : eqb keys 0 ≡ false

if_opened :
    {A : Type 0} (b : Bool) (c : Class) (x : Opened A) (y : A)
    → (if b then stopped c else x) ≡ opened y
    → (b ≡ false) × (x ≡ opened y)
if_opened true c x y e = absurd (ground arith)
if_opened false c x y e = (refl, e)

checked_object_is :
    (body raw : Bytes) (o : Option ℕ)
    → checked_object body o ≡ opened raw
    → (body ≡ raw) × (k : ℕ) × (o ≡ some k) × (eqb k 0 ≡ false)
checked_object_is body raw none e = absurd (ground arith)
checked_object_is body raw (some k) e =
    let (n, f) = if_opened (eqb k 0) _ _ raw e in (ground arith, k, refl, n)

read-IsForwarded :
    (r : Reads) (f : BodyFlags) (raw : Bytes) (o : Option Bytes)
    → no_flags (changed_field_flags r) ≡ true
    → r.contents f.body ≡ o
    → read_contents r o ≡ opened raw
    → IsForwarded r f raw
read-IsForwarded r f raw none n h e = absurd (ground arith)
read-IsForwarded r f raw (some contents) n h e =
    let body = trim_trailing_newline contents in
    let (some_byte, e1) = if_opened (is_empty body) _ _ raw e in
    let (valid, e2) = if_opened (not (r.is_utf8 body)) _ _ raw e1 in
    let (is, k, object, some_key) = checked_object_is body raw (r.object_keys body) e2 in
    record {
      no_conflict = n;
      contents = contents;
      are_read = h;
      verbatim = subst (λ x. (x ≡ contents) ⊎ (x ++ newline ≡ contents)) is (trimmed_is contents);
      not_empty = subst (λ x. is_empty x ≡ false) is some_byte;
      utf8 = subst (λ x. r.is_utf8 x ≡ true) is (ground arith);
      keys = k;
      is_object = subst (λ x. r.object_keys x ≡ some k) is object;
      some_key = some_key;
    }

is_true : (b : Bool) → not b ≡ false → b ≡ true
is_true b e = ground arith

named :
    (r : Reads) (f : BodyFlags)
    → (f.body == "") ≡ false
    → build_body r f
      ≡ (if not (no_flags (changed_field_flags r)) then stopped Class.usage else read_body r f.body)
unfolding build_body
named r f b = rw b refl

-- A document that the caller names is sent as it was read, less one newline at its end: no flag that
-- describes the request is typed beside it, and it is UTF-8 text of an object with at least one key.
pub build_body-IsForwarded :
    (r : Reads) (f : BodyFlags) (raw : Bytes)
    → (f.body == "") ≡ false
    → build_body r f ≡ opened raw
    → IsForwarded r f raw
unfolding read_body
build_body-IsForwarded r f raw b e =
    let (free, read) =
      if_opened (not (no_flags (changed_field_flags r))) _ _ raw (sym (named r f b) ∙ e) in
    read-IsForwarded r f raw (r.contents f.body) (is_true (no_flags (changed_field_flags r)) free)
      refl read
