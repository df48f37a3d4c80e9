-- ===== src/Api/Target.antt =====
-- internal/api/client.go: `Expand`, which fills a templated path, over the bytes of the path.
use ferry_cli.Base.{
  ℕ, zero, suc, ◌+◌, ◌-◌, ◌/◌, ◌%◌, ◌≡◌, refl, ap, Bool, true, false, ◌&&◌, ◌||◌, not, Option, none,
  some, List, [], ◌∷◌, ◌++◌, arith, ltb, leb, eqb, if◌then◌else◌, length, drop, ◌∙◌, Bool-cases,
  Option-cases, inl, inr, eqb_iff, All,
}

abbrev pub Bytes : Type 0
Bytes = List ℕ

unfoldable pub is_prefix : Bytes → Bytes → Bool
is_prefix [] s = true
is_prefix (p ∷ ps) [] = false
is_prefix (p ∷ ps) (c ∷ cs) = eqb p c && is_prefix ps cs

-- `strings.Contains`.
unfoldable pub has_part : Bytes → Bytes → Bool
unfolding is_prefix
has_part p [] = is_prefix p []
has_part p (c ∷ cs) = is_prefix p (c ∷ cs) || has_part p cs

-- `strings.ReplaceAll` for a part that is not empty; `skip` bytes of a match are still to pass.
unfoldable pub replace_from : ℕ → Bytes → Bytes → Bytes → Bytes
unfolding is_prefix
replace_from skip part new [] = []
replace_from (suc k) part new (c ∷ cs) = replace_from k part new cs
replace_from zero part new (c ∷ cs) =
    let matched = new ++ replace_from (length part - 1) part new cs in
    let passed = c ∷ replace_from 0 part new cs in
    if is_prefix part (c ∷ cs) then matched else passed

-- A byte that `url.PathEscape` leaves alone: a letter, a digit, or one of `-_.~$&+=:@`.
unfoldable pub unescaped : ℕ → Bool
unescaped c =
    (leb 48 c && leb c 57)
    || ((leb 65 c && leb c 90)
        || ((leb 97 c && leb c 122)
            || (eqb c b'-'
                || (eqb c b'_'
                    || (eqb c b'.'
                        || (eqb c b'~'
                            || (eqb c b'$'
                                || (eqb c b'&'
                                    || (eqb c b'+'
                                        || (eqb c b'=' || (eqb c b':' || eqb c b'@')))))))))))

unfoldable pub hex_digit : ℕ → ℕ
hex_digit n = if ltb n 10 then 48 + n else 55 + n

-- `url.PathEscape`.
unfoldable pub path_escape : Bytes → Bytes
unfolding unescaped hex_digit
path_escape [] = []
path_escape (c ∷ cs) =
    (if unescaped c then c ∷ [] else b'%' ∷ hex_digit (c / 16) ∷ hex_digit (c % 16) ∷ [])
    ++ path_escape cs

abbrev pub placeholder : Bytes → Bytes
placeholder name = b'{' ∷ (name ++ b'}' ∷ [])

abbrev is_nil : Bytes → Bool
is_nil [] = true
is_nil (_ ∷ _) = false

-- One round of the loop over the parameters.
unfoldable pub fill : Bytes → Bytes → Bytes → Option Bytes
unfolding has_part replace_from path_escape
fill name value out =
    if not (has_part (placeholder name) out)
    then none
    else if is_nil value
    then none
    else some (replace_from 0 (placeholder name) (path_escape value) out)

abbrev and_then : Option Bytes → (Bytes → Option Bytes) → Option Bytes
and_then none f = none
and_then (some b) f = f b

-- `Expand`: the parameters come in the order in which the map is ranged over.
unfoldable pub expand : Bytes → List (Bytes × Bytes) → Option Bytes
unfolding fill
expand out [] = if has_part (b'{' ∷ []) out then none else some out
expand out ((name, value) ∷ params) = and_then (fill name value out) (λ next. expand next params)

-- How many path separators a path has.
unfoldable pub slashes : Bytes → ℕ
slashes [] = 0
slashes (c ∷ cs) = (if eqb c b'/' then 1 else 0) + slashes cs

slashes-cons : (c : ℕ) (s t : Bytes) → slashes s ≡ slashes t → slashes (c ∷ s) ≡ slashes (c ∷ t)
unfolding slashes
slashes-cons c s t h = omega arith

slashes-append : (s t : Bytes) → slashes (s ++ t) ≡ slashes s + slashes t
unfolding slashes
slashes-append [] t = omega arith
slashes-append (c ∷ s) t = ground (arith, slashes-append s t)

unescaped_ne : (c : ℕ) → unescaped c ≡ true → eqb c b'/' ≡ false
unfolding unescaped
unescaped_ne c h = elim (Bool-cases (eqb c b'/')) [
  | inl e ↦ cc (ap unescaped ((eqb_iff c b'/').0 e), h)
  | inr e ↦ e
]

hex_digit_ne : (n : ℕ) → eqb (hex_digit n) b'/' ≡ false
unfolding hex_digit
hex_digit_ne n = ground arith

slashes-escaped :
    (c : ℕ)
    → slashes (if unescaped c then c ∷ [] else b'%' ∷ hex_digit (c / 16) ∷ hex_digit (c % 16) ∷ [])
      ≡ 0
unfolding slashes
slashes-escaped c = elim (Bool-cases (unescaped c)) [
  | inl e ↦ rw e (ground (arith, unescaped_ne c e))
  | inr e ↦ rw e (ground (arith, hex_digit_ne (c / 16), hex_digit_ne (c % 16)))
]

slashes-path_escape : (s : Bytes) → slashes (path_escape s) ≡ 0
unfolding slashes path_escape
slashes-path_escape [] = refl
slashes-path_escape (c ∷ s) =
    slashes-append
      (if unescaped c then c ∷ [] else b'%' ∷ hex_digit (c / 16) ∷ hex_digit (c % 16) ∷ [])
      (path_escape s)
    ∙ ground (arith, slashes-path_escape s, slashes-escaped c)

-- A match takes no separator away.
slashes-drop :
    (p s : Bytes) → is_prefix p s ≡ true → slashes p ≡ 0 → slashes (drop (length p) s) ≡ slashes s
unfolding slashes is_prefix
slashes-drop [] s h z = refl
slashes-drop (p ∷ ps) [] h z = cc
slashes-drop (p ∷ ps) (c ∷ cs) h z = ground (arith, slashes-drop ps cs)

slashes-drop_pred : (n : ℕ) (cs : Bytes) → slashes (drop (suc n - 1) cs) ≡ slashes (drop n cs)
slashes-drop_pred n cs =
    let e : suc n - 1 ≡ n = omega arith in ap (λ (k : ℕ). slashes (drop k cs)) e

slashes-replace_from :
    (k : ℕ) (p : ℕ) (ps new s : Bytes)
    → slashes (p ∷ ps) ≡ 0
    → slashes new ≡ 0
    → slashes (replace_from k (p ∷ ps) new s) ≡ slashes (drop k s)
unfolding replace_from
slashes-replace_from zero p ps new [] z w = refl
slashes-replace_from (suc k) p ps new [] z w = refl
slashes-replace_from (suc k) p ps new (c ∷ cs) z w = slashes-replace_from k p ps new cs z w
slashes-replace_from zero p ps new (c ∷ cs) z w = elim (Bool-cases (is_prefix (p ∷ ps) (c ∷ cs))) [
  | inl e ↦ rw e (
      slashes-append new (replace_from (length (p ∷ ps) - 1) (p ∷ ps) new cs)
      ∙ omega (
        arith,
        w,
        slashes-replace_from (length (p ∷ ps) - 1) p ps new cs z w,
        slashes-drop (p ∷ ps) (c ∷ cs) e z,
        slashes-drop_pred (length ps) cs,
      ))
  | inr e ↦ rw e (slashes-cons c _ _ (slashes-replace_from 0 p ps new cs z w))
]

slashes-placeholder : (name : Bytes) → slashes name ≡ 0 → slashes (placeholder name) ≡ 0
unfolding slashes
slashes-placeholder name h = ground (arith, slashes-append name (b'}' ∷ []))

slashes-fill :
    (name value out next : Bytes)
    → slashes name ≡ 0
    → fill name value out ≡ some next
    → slashes next ≡ slashes out
unfolding fill
slashes-fill name value out next z h = ground (
  arith,
  slashes-replace_from 0 b'{' (name ++ b'}' ∷ []) (path_escape value) out
      (slashes-placeholder name z) (slashes-path_escape value),
)

-- No parameter, whatever bytes it holds, adds a path segment or takes one away: the filled path has
-- as many separators as the template, if the names of the parameters have none.
pub slashes-expand :
    (out : Bytes) (params : List (Bytes × Bytes)) (path : Bytes)
    → All (λ (p : Bytes × Bytes). slashes p.0 ≡ 0) params
    → expand out params ≡ some path
    → slashes path ≡ slashes out
unfolding expand
slashes-expand out [] path names h = ground arith
slashes-expand out ((name, value) ∷ params) path names h =
    elim (Option-cases (fill name value out)) [
      | inl e ↦ absurd (ground arith)
      | inr (next, e) ↦
          slashes-expand next params path names.1 (ground arith)
          ∙ slashes-fill name value out next names.0 e
    ]
