-- ===== src/Transfers/Body/Metadata.antt =====
-- The object that the pairs of `--metadata` make.
use ferry_cli.Base.{
  ℕ, ◌≡◌, refl, ◌∙◌, ap, sym, subst, Bool, true, false, ◌&&◌, ◌||◌, not, Option, none, some, List,
  [], ◌∷◌, ◌++◌, map, if◌then◌else◌, arith, all, eqb, eqb_iff, Bool-cases, Option-cases, is_some,
  inl, inr, ◌⊎◌,
}
use ferry_cli.Outcome.Class.{Class}
use ferry_cli.Api.Target.{Bytes}
use ferry_cli.Creds.{same_bytes, is_empty}
use ferry_cli.Creds.SameBytes.{same_bytes-sym, same_bytes_is}
use ferry_cli.Noun.{Opened, stopped, opened}
use ferry_cli.Transfers.Body.{
  Metadata, no_metadata, with_entry, after_byte, cut, is_seen, add_pair, add_pairs, parse_metadata,
}

-- The pair that makes an entry.
abbrev pub pair_of : Bytes × Bytes → Bytes
pair_of (key, value) = key ++ (61 ∷ value)

-- No key is empty, holds an equals sign, or is one of an earlier entry.
abbrev pub is_key : Bytes → Bool
is_key k = not (is_empty k) && all (λ c. not (eqb c 61)) k

-- The entries that pairs say, in the order of the pairs.
abbrev pub Entries : Type 0
Entries = List (Bytes × Bytes)

unfoldable pub is_among : Bytes → Entries → Bool
is_among k [] = false
is_among k ((j, v) ∷ es) = same_bytes j k || is_among k es

unfoldable pub are_keys : Entries → Bool
are_keys [] = true
are_keys ((k, v) ∷ es) = (is_key k && not (is_among k es)) && are_keys es

-- The value of a key.
unfoldable pub value_of : Bytes → Entries → Option Bytes
value_of k [] = none
value_of k ((j, v) ∷ es) = let rest = value_of k es in if same_bytes j k then some v else rest

abbrev IsCut : Bytes → Bytes × Bytes → Type 0
IsCut p e = (pair_of e ≡ p) × (all (λ c. not (eqb c 61)) e.0 ≡ true)

after_byte_is :
    (c : ℕ) (o : Option (Bytes × Bytes)) (e : Bytes × Bytes)
    → after_byte c o ≡ some e
    → (v : Bytes × Bytes) × (o ≡ some v) × (e ≡ (c ∷ v.0, v.1))
after_byte_is c none e h = absurd (ground arith)
after_byte_is c (some (k, v)) e h = let is : (c ∷ k, v) ≡ e = ground arith in ((k, v), refl, sym is)

cut_byte : (c : ℕ) (cs : Bytes) → eqb c 61 ≡ false → cut (c ∷ cs) ≡ after_byte c (cut cs)
unfolding cut
cut_byte c cs n = rw n refl

cut_later :
    (c : ℕ) (cs : Bytes) (e : Bytes × Bytes)
    → eqb c 61 ≡ false
    → cut (c ∷ cs) ≡ some e
    → (v : Bytes × Bytes) × (cut cs ≡ some v) × (e ≡ (c ∷ v.0, v.1))
cut_later c cs e n h = after_byte_is c (cut cs) e (sym (cut_byte c cs n) ∙ h)

cut-IsCut : (p : Bytes) (e : Bytes × Bytes) → cut p ≡ some e → IsCut p e
unfolding cut all
cut-IsCut [] e h = absurd (ground arith)
cut-IsCut (c ∷ cs) e h = elim (Bool-cases (eqb c 61)) [
  | inl i ↦
      let is : ([], cs) ≡ e = ground arith in
      let sign : c ≡ 61 = ground (arith, eqb_iff c 61) in
      subst (IsCut (c ∷ cs)) is (ap (λ x. x ∷ cs) (sym sign), refl)
  | inr n ↦
      let (v, f, is) = cut_later c cs e n h in
      let (joined, free) = cut-IsCut cs v f in
      subst (IsCut (c ∷ cs)) (sym is) (ap (λ x. c ∷ x) joined, ground arith)
]

is_among-append :
    (k j : Bytes) (v : Bytes) (es : Entries)
    → is_among k (es ++ ((j, v) ∷ [])) ≡ (is_among k es || same_bytes j k)
unfolding is_among
is_among-append k j v [] = ground arith
is_among-append k j v ((i, w) ∷ es) = ground (arith, is_among-append k j v es)

are_keys-append :
    (es : Entries) (k v : Bytes)
    → are_keys es ≡ true
    → is_key k ≡ true
    → is_among k es ≡ false
    → are_keys (es ++ ((k, v) ∷ [])) ≡ true
unfolding are_keys is_among
are_keys-append [] k v a i h = ground arith
are_keys-append ((j, w) ∷ es) k v a i h =
    ground (arith, are_keys-append es k v, is_among-append j k v es, same_bytes-sym k j)

value_of-among : (k : Bytes) (es : Entries) → is_some (value_of k es) ≡ is_among k es
unfolding value_of is_among
value_of-among k [] = refl
value_of-among k ((j, v) ∷ es) = ground (arith, value_of-among k es)

not_among : (k : Bytes) (es : Entries) → is_among k es ≡ false → value_of k es ≡ none
not_among k es h = elim (Option-cases (value_of k es)) [
  | inl e ↦ e
  | inr (v, e) ↦ absurd (ground (arith, value_of-among k es))
]

value_of-append :
    (j k v : Bytes) (es : Entries)
    → is_among k es ≡ false
    → value_of j (es ++ ((k, v) ∷ [])) ≡ (if same_bytes k j then some v else value_of j es)
unfolding value_of is_among
value_of-append j k v [] h = refl
value_of-append j k v ((i, w) ∷ es) h = elim (Bool-cases (same_bytes k j)) [
  | inl s ↦
      let same : k ≡ j = same_bytes_is k j s in
      let differs : same_bytes i j ≡ false = ground (arith, same) in
      ground (arith, value_of-append j k v es)
  | inr s ↦ ground (arith, value_of-append j k v es)
]

-- The object holds the entries.
abbrev Holds : Metadata → Entries → Type 0
Holds m es = (k : Bytes) → m k ≡ value_of k es

Holds-with_entry :
    (m : Metadata) (es : Entries) (k v : Bytes)
    → is_among k es ≡ false
    → Holds m es
    → Holds (with_entry m k v) (es ++ ((k, v) ∷ []))
unfolding with_entry
Holds-with_entry m es k v h a j =
    ap (λ o. if same_bytes k j then some v else o) (a j) ∙ sym (value_of-append j k v es h)

moved :
    (m : Entries) (e : Bytes × Bytes) (p : Bytes) (ps : List Bytes)
    → pair_of e ≡ p
    → map pair_of (m ++ (e ∷ [])) ++ ps ≡ map pair_of m ++ (p ∷ ps)
moved [] e p ps h = ap (λ x. x ∷ ps) h
moved (d ∷ m) e p ps h = ap (λ x. pair_of d ∷ x) (moved m e p ps h)

if_opened :
    {A : Type 0} (b : Bool) (c : Class) (x : Opened A) (y : A)
    → (if b then stopped c else x) ≡ opened y
    → (b ≡ false) × (x ≡ opened y)
if_opened true c x y e = absurd (ground arith)
if_opened false c x y e = (refl, e)

-- An entry that is added.
record IsAdded (p : Bytes) (m n : Metadata) : Type 0 where
  entry : Bytes × Bytes
  made : pair_of entry ≡ p
  key : is_key entry.0 ≡ true
  fresh : is_seen entry.0 m ≡ false
  same : with_entry m entry.0 entry.1 ≡ n

opened_is : {A : Type 0} (x y : A) → opened x ≡ opened y → x ≡ y
opened_is x y e = ground arith

add_pair-IsAdded :
    (p : Bytes) (m n : Metadata) (o : Option (Bytes × Bytes))
    → cut p ≡ o
    → add_pair m o ≡ opened n
    → IsAdded p m n
add_pair-IsAdded p m n none h e = absurd (ground arith)
add_pair-IsAdded p m n (some (k, v)) h e =
    let (some_byte, e1) = if_opened (is_empty k) _ _ n e in
    let (fresh, e2) = if_opened (is_seen k m) _ _ n e1 in
    let (made, free) = cut-IsCut p (k, v) h in
    record {
      entry = (k, v);
      made = made;
      key = ground arith;
      fresh = fresh;
      same = opened_is _ n e2;
    }

opened_or_stopped :
    {A : Type 0} (o : Opened A) → ((x : A) × (o ≡ opened x)) ⊎ ((c : Class) × (o ≡ stopped c))
opened_or_stopped (stopped c) = inr (c, refl)
opened_or_stopped (opened x) = inl (x, refl)

add_pairs_next :
    (p : Bytes) (ps : List Bytes) (m n : Metadata)
    → add_pair m (cut p) ≡ opened n
    → add_pairs (p ∷ ps) m ≡ add_pairs ps n
unfolding add_pairs
add_pairs_next p ps m n e = rw (add_pairs, e) refl

add_pairs_stops :
    (p : Bytes) (ps : List Bytes) (m : Metadata) (c : Class)
    → add_pair m (cut p) ≡ stopped c
    → add_pairs (p ∷ ps) m ≡ stopped c
unfolding add_pairs
add_pairs_stops p ps m c e = rw (add_pairs, e) refl

stopped_is : {A : Type 0} (c : Class) (o : Opened A) (x : A) → o ≡ stopped c → o ≡ opened x → ⊥
stopped_is c o x e f = ground arith

no_pairs : (m out : Metadata) → add_pairs [] m ≡ opened out → m ≡ out
unfolding add_pairs
no_pairs m out e = opened_is m out e

append_nil : (ps : List Bytes) → ps ≡ ps ++ []
append_nil [] = refl
append_nil (p ∷ ps) = ap (λ x. p ∷ x) (append_nil ps)

-- What the object is, once the pairs `said` are in.
pub record IsObject (said : List Bytes) (m : Metadata) : Type 0 where
  pub entries : Entries
  pub keys : are_keys entries ≡ true
  pub said_is : map pair_of entries ≡ said
  pub holds : (k : Bytes) → m k ≡ value_of k entries

append_assoc : (xs ys zs : List Bytes) → (xs ++ ys) ++ zs ≡ xs ++ (ys ++ zs)
append_assoc [] ys zs = refl
append_assoc (x ∷ xs) ys zs = ap (λ l. x ∷ l) (append_assoc xs ys zs)

added-IsObject :
    (said : List Bytes) (p : Bytes) (m n : Metadata)
    → IsObject said m
    → IsAdded p m n
    → IsObject (said ++ (p ∷ [])) n
added-IsObject said p m n o i =
    let (k, v) = i.entry in
    let fresh : is_among i.entry.0 o.entries ≡ false =
      sym (value_of-among i.entry.0 o.entries) ∙ (ap is_some (sym (o.holds i.entry.0)) ∙ i.fresh) in
    record {
      entries = o.entries ++ (i.entry ∷ []);
      keys = are_keys-append o.entries i.entry.0 i.entry.1 o.keys i.key fresh;
      said_is =
          append_nil (map pair_of (o.entries ++ (i.entry ∷ [])))
          ∙ (moved o.entries i.entry p [] i.made ∙ ap (λ l. l ++ (p ∷ [])) o.said_is);
      holds =
          subst (λ x. Holds x (o.entries ++ (i.entry ∷ []))) i.same
            (Holds-with_entry m o.entries i.entry.0 i.entry.1 fresh o.holds);
    }

add_pairs-IsObject :
    (ps said : List Bytes) (m out : Metadata)
    → IsObject said m
    → add_pairs ps m ≡ opened out
    → IsObject (said ++ ps) out
add_pairs-IsObject [] said m out o e =
    subst (λ s. IsObject s out) (append_nil said) (subst (IsObject said) (no_pairs m out e) o)
add_pairs-IsObject (p ∷ ps) said m out o e = elim (opened_or_stopped (add_pair m (cut p))) [
  | inr (c, f) ↦ absurd (stopped_is c _ out (add_pairs_stops p ps m c f) e)
  | inl (n, f) ↦
      subst (λ s. IsObject s out) (append_assoc said (p ∷ []) ps)
        (add_pairs-IsObject ps (said ++ (p ∷ [])) n out
          (added-IsObject said p m n o (add_pair-IsAdded p m n (cut p) refl f))
          (sym (add_pairs_next p ps m n f) ∙ e))
]

nothing-IsObject : IsObject [] no_metadata
unfolding are_keys value_of
nothing-IsObject = record { entries = []; keys = refl; said_is = refl; holds = λ k. refl }

-- The object of the pairs of `--metadata` that are accepted: each pair is a key without an equals sign,
-- such a sign and a value; no key is empty or stands in two pairs; and the object holds under each key
-- the value of its pair, and nothing under any other.
pub parse_metadata-IsObject :
    (pairs : List Bytes) (m : Metadata) → parse_metadata pairs ≡ opened m → IsObject pairs m
unfolding parse_metadata
parse_metadata-IsObject pairs m e = add_pairs-IsObject pairs [] no_metadata m nothing-IsObject e
