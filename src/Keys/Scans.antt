-- ===== src/Keys/Scans.antt =====
-- What the loop over the scopes holds.
use ferry_cli.Base.{
  ◌≡◌, refl, ◌∙◌, ap, sym, subst, Bool, true, false, ◌&&◌, ◌||◌, not, List, [], ◌∷◌, ◌++◌, map,
  arith, all, Bool-cases, inl, inr,
}
use ferry_cli.Api.Target.{Bytes}
use ferry_cli.Creds.{same_bytes, is_empty}
use ferry_cli.Creds.SameBytes.{same_bytes_is, same_bytes-sym}
use ferry_cli.Keys.{holds_bytes, known_scope, Scan, scan_part, scan_parts}

-- No text stands twice.
unfoldable pub distinct : List Bytes → Bool
distinct [] = true
distinct (s ∷ ss) = not (holds_bytes s ss) && distinct ss

holds_bytes-append :
    (x y : Bytes) (xs : List Bytes)
    → holds_bytes x (xs ++ (y ∷ [])) ≡ (holds_bytes x xs || same_bytes y x)
unfolding holds_bytes
holds_bytes-append x y [] = ground arith
holds_bytes-append x y (z ∷ zs) = ground (arith, holds_bytes-append x y zs)

distinct-append :
    (xs : List Bytes) (y : Bytes)
    → distinct xs ≡ true
    → holds_bytes y xs ≡ false
    → distinct (xs ++ (y ∷ [])) ≡ true
unfolding distinct holds_bytes
distinct-append [] y d h = refl
distinct-append (x ∷ xs) y d h =
    ground (arith, distinct-append xs y, holds_bytes-append x y xs, same_bytes-sym y x)

all-append :
    (xs : List Bytes) (y : Bytes)
    → all known_scope xs ≡ true
    → known_scope y ≡ true
    → all known_scope (xs ++ (y ∷ [])) ≡ true
unfolding all
all-append [] y a k = ground arith
all-append (x ∷ xs) y a k = ground (arith, all-append xs y)

-- What the loop holds.
pub record AreScanned (s : Scan) : Type 0 where
  pub are_known : all known_scope s.out ≡ true
  pub are_distinct : distinct s.out ≡ true

scan_part-AreScanned : (p : Bytes) (s : Scan) → AreScanned s → AreScanned (scan_part p s)
unfolding scan_part
scan_part-AreScanned p s h = elim (Bool-cases (is_empty p)) [
  | inl e ↦ rw e h
  | inr e ↦ elim (Bool-cases (known_scope p)) [
    | inr k ↦ rw (e, k) (record { are_known = h.are_known; are_distinct = h.are_distinct })
    | inl k ↦ elim (Bool-cases (holds_bytes p s.out)) [
      | inl i ↦ rw (e, k, i) h
      | inr i ↦
          rw (e, k, i)
            (record {
              are_known = all-append s.out p h.are_known k;
              are_distinct = distinct-append s.out p h.are_distinct i;
            })
    ]
  ]
]

pub scan_parts-AreScanned :
    (trim : Bytes → Bytes) (ps : List Bytes) (s : Scan)
    → AreScanned s
    → AreScanned (scan_parts trim ps s)
unfolding scan_parts
scan_parts-AreScanned trim [] s h = h
scan_parts-AreScanned trim (p ∷ ps) s h =
    scan_parts-AreScanned trim ps (scan_part (trim p) s) (scan_part-AreScanned (trim p) s h)

-- The scope is one that the loop keeps.
abbrev pub keeps : Bytes → Bool
keeps x = not (is_empty x) && known_scope x

-- What a round adds: the part, if the loop keeps it and does not hold it.
adds : Bytes → Scan → Bool
adds p s = keeps p && not (holds_bytes p s.out)

scan_kept : (p : Bytes) (s : Scan) → adds p s ≡ true → (scan_part p s).out ≡ s.out ++ (p ∷ [])
unfolding scan_part adds
scan_kept p s e =
    let empty : is_empty p ≡ false = ground arith in
    let known : known_scope p ≡ true = ground arith in
    let held : holds_bytes p s.out ≡ false = ground arith in rw (empty, known, held) refl

scan_left : (p : Bytes) (s : Scan) → adds p s ≡ false → (scan_part p s).out ≡ s.out
unfolding scan_part adds
scan_left p s e = elim (Bool-cases (is_empty p)) [
  | inl i ↦ rw i refl
  | inr i ↦ elim (Bool-cases (known_scope p)) [
    | inr k ↦ rw (i, k) refl
    | inl k ↦ let held : holds_bytes p s.out ≡ true = ground arith in rw (i, k, held) refl
  ]
]

scan_part-bad :
    (p : Bytes) (s : Scan)
    → (scan_part p s).bad ≡ (s.bad || (not (is_empty p) && not (known_scope p)))
unfolding scan_part
scan_part-bad p s = elim (Bool-cases (is_empty p)) [
  | inl i ↦ rw i (ground arith)
  | inr i ↦ elim (Bool-cases (known_scope p)) [
    | inr k ↦ rw (i, k) (ground arith)
    | inl k ↦ elim (Bool-cases (holds_bytes p s.out)) [
      | inl h ↦ rw (i, k, h) (ground arith)
      | inr h ↦ rw (i, k, h) (ground arith)
    ]
  ]
]

held_same :
    (p : Bytes) (s : Scan)
    → (holds_bytes p s.out || (adds p s && true)) ≡ (holds_bytes p s.out || (keeps p && true))
unfolding adds
held_same p s = ground arith

held_after :
    (p x : Bytes) (s : Scan)
    → holds_bytes x (scan_part p s).out ≡ (holds_bytes x s.out || (adds p s && same_bytes p x))
held_after p x s = elim (Bool-cases (adds p s)) [
  | inl a ↦ ap (holds_bytes x) (scan_kept p s a) ∙ (holds_bytes-append x p s.out ∙ ground arith)
  | inr a ↦ ap (holds_bytes x) (scan_left p s a) ∙ ground arith
]

neither : (h a k : Bool) → (h || (a && false)) ≡ (h || (k && false))
neither h a k = ground arith

at_same :
    (h a k : Bool) (p x : Bytes)
    → (b : Bool) → same_bytes p x ≡ b
    → (h || (a && b)) ≡ (h || (k && b))
    → (h || (a && same_bytes p x)) ≡ (h || (k && same_bytes p x))
at_same h a k p x b e f = subst (λ c. (h || (a && c)) ≡ (h || (k && c))) (sym e) f

held_kept :
    (p x : Bytes) (s : Scan)
    → holds_bytes x (scan_part p s).out ≡ (holds_bytes x s.out || (keeps x && same_bytes p x))
held_kept p x s = elim (Bool-cases (same_bytes p x)) [
  | inl e ↦
      held_after p x s
      ∙ at_same (holds_bytes x s.out) (adds p s) (keeps x) p x true e (
          subst
            (λ z.
              (holds_bytes z s.out || (adds p s && true))
              ≡ (holds_bytes z s.out || (keeps z && true)))
            (same_bytes_is p x e) (held_same p s))
  | inr e ↦
      held_after p x s
      ∙ at_same (holds_bytes x s.out) (adds p s) (keeps x) p x false e
          (neither (holds_bytes x s.out) (adds p s) (keeps x))
]

or_assoc : (a k b c : Bool) → ((a || (k && b)) || (k && c)) ≡ (a || (k && (b || c)))
or_assoc a k b c = ground arith

-- The loop holds, of what it meets, what it keeps.
pub scan_parts-holds :
    (trim : Bytes → Bytes) (ps : List Bytes) (s : Scan) (x : Bytes)
    → holds_bytes x (scan_parts trim ps s).out
      ≡ (holds_bytes x s.out || (keeps x && holds_bytes x (map trim ps)))
unfolding scan_parts holds_bytes
scan_parts-holds trim [] s x = ground arith
scan_parts-holds trim (p ∷ ps) s x =
    scan_parts-holds trim ps (scan_part (trim p) s) x
    ∙ (ap (λ b. b || (keeps x && holds_bytes x (map trim ps))) (held_kept (trim p) x s)
        ∙ or_assoc (holds_bytes x s.out) (keeps x) (same_bytes (trim p) x)
            (holds_bytes x (map trim ps)))

pub any_unknown : List Bytes → Bool
any_unknown [] = false
any_unknown (p ∷ ps) = (not (is_empty p) && not (known_scope p)) || any_unknown ps

pub scan_parts-bad :
    (trim : Bytes → Bytes) (ps : List Bytes) (s : Scan)
    → (scan_parts trim ps s).bad ≡ (s.bad || any_unknown (map trim ps))
unfolding scan_parts any_unknown
scan_parts-bad trim [] s = ground arith
scan_parts-bad trim (p ∷ ps) s =
    ground (arith, scan_parts-bad trim ps (scan_part (trim p) s), scan_part-bad (trim p) s)

pub unknown_held :
    (x : Bytes) (ps : List Bytes)
    → any_unknown ps ≡ false
    → holds_bytes x ps ≡ true
    → is_empty x ≡ false
    → keeps x ≡ true
unfolding any_unknown holds_bytes
unknown_held x [] e h n = absurd (ground arith)
unknown_held x (p ∷ ps) e h n = elim (Bool-cases (same_bytes p x)) [
  | inl i ↦ let is = same_bytes_is p x i in subst (λ z. keeps z ≡ true) is (ground arith)
  | inr i ↦ unknown_held x ps (ground arith) (ground arith) n
]
