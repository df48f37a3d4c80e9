-- ===== src/Runs/Token/Swept.antt =====
-- No plan token is left in a response that is stored.
use ferry_cli.Base.{
  ℕ, zero, suc, ◌≡◌, refl, ◌∙◌, ap, subst, Bool, true, false, ◌&&◌, ◌||◌, Option, [], ◌∷◌, ◌++◌,
  eqb, arith, Bool-cases, inl, inr, all,
}
use ferry_cli.Api.Target.{Bytes}
use ferry_cli.Api.Meta.{codes}
use ferry_cli.Runs.Token.{
  in_token, matches, starts_token, contains_plan_token, redacted_token, sweep, structural_or, swept,
  strip_plan_token,
}

kept_is :
    (c : ℕ) (cs : Bytes) → starts_token (c ∷ cs) ≡ false → sweep false (c ∷ cs) ≡ c ∷ sweep false cs
unfolding sweep
kept_is c cs e = rw e refl

dropped_is :
    (c : ℕ) (cs : Bytes)
    → starts_token (c ∷ cs) ≡ true
    → sweep false (c ∷ cs) ≡ redacted_token ++ sweep true cs
unfolding sweep
dropped_is c cs e = rw e refl

sweep_nil : sweep false [] ≡ []
unfolding sweep
sweep_nil = refl

bracket_outside : in_token 91 ≡ false
unfolding in_token
bracket_outside = refl

-- The head of a token after its first character.
abbrev head_rest : Bytes
head_rest = codes "erry_plan_"

rest_in_token : all in_token head_rest ≡ true
unfolding all in_token
rest_in_token = refl

-- A bracket is of no token.
no_bracket : (p : ℕ) → in_token p ≡ true → eqb p 91 ≡ false
unfolding in_token
no_bracket p e = ground arith

and_true : (a b : Bool) → (a && b) ≡ true → (a ≡ true) × (b ≡ true)
and_true true true e = (refl, refl)
and_true true false e = absurd (ground arith)
and_true false b e = absurd (ground arith)

both_true : (a b : Bool) → a ≡ true → b ≡ true → (a && b) ≡ true
both_true a b e f = rw (e, f) refl

not_both : (b : Bool) → b ≡ true → b ≡ false → ⊥
not_both b e f = ground arith

bracket_run : (n : ℕ) (xs : Bytes) → matches [] (suc n) (91 ∷ xs) ≡ false
unfolding matches
bracket_run n xs = rw bracket_outside refl

contradicted : (a b : Bool) → (a && b) ≡ true → a ≡ false → ⊥
contradicted a b e f = ground arith

-- What matches after a sweep matched before it, if the text that it starts with is of a token.
matches-sweep :
    (cs ps : Bytes) (n : ℕ)
    → all in_token ps ≡ true
    → matches ps n (sweep false cs) ≡ true
    → matches ps n cs ≡ true
unfolding matches all
matches-sweep [] ps n a e = subst (λ x. matches ps n x ≡ true) sweep_nil e
matches-sweep (c ∷ cs) [] zero a e = refl
matches-sweep (c ∷ cs) [] (suc n) a e = elim (Bool-cases (starts_token (c ∷ cs))) [
  | inl s ↦ absurd (
      not_both _ (subst (λ x. matches [] (suc n) x ≡ true) (dropped_is c cs s) e)
        (bracket_run n (codes "REDACTED]" ++ sweep true cs)))
  | inr s ↦
      let (x, y) = and_true _ _ (subst (λ x. matches [] (suc n) x ≡ true) (kept_is c cs s) e) in
      both_true (in_token c) _ x (matches-sweep cs [] n refl y)
]
matches-sweep (c ∷ cs) (p ∷ ps) n a e = elim (Bool-cases (starts_token (c ∷ cs))) [
  | inl s ↦ absurd (
      contradicted _ _ (subst (λ x. matches (p ∷ ps) n x ≡ true) (dropped_is c cs s) e)
        (no_bracket p (and_true _ _ a).0))
  | inr s ↦
      let (x, y) = and_true _ _ (subst (λ x. matches (p ∷ ps) n x ≡ true) (kept_is c cs s) e) in
      both_true (eqb p c) _ x (matches-sweep cs ps n (and_true _ _ a).1 y)
]

-- What starts no token starts none after the sweep of what follows.
starts_none :
    (c : ℕ) (cs : Bytes) → starts_token (c ∷ cs) ≡ false → starts_token (c ∷ sweep false cs) ≡ false
unfolding matches
starts_none c cs e = elim (Bool-cases (starts_token (c ∷ sweep false cs))) [
  | inl s ↦
      let (x, y) = and_true _ _ s in
      absurd (not_both _ (both_true _ _ x (matches-sweep cs head_rest 8 rest_in_token y)) e)
  | inr s ↦ s
]

-- A token begins with a letter of the alphabet.
outside_none : (c : ℕ) (cs : Bytes) → in_token c ≡ false → starts_token (c ∷ cs) ≡ false
unfolding matches in_token
outside_none c cs e = ground arith

or_false : (a b : Bool) → a ≡ false → b ≡ false → (a || b) ≡ false
or_false a b e f = rw (e, f) refl

-- The text that a token is replaced by starts none.
redacted_none :
    (cs : Bytes)
    → contains_plan_token cs ≡ false
    → contains_plan_token (redacted_token ++ cs) ≡ false
unfolding contains_plan_token matches
redacted_none cs e = e

cons_none :
    (c : ℕ) (cs : Bytes)
    → starts_token (c ∷ cs) ≡ false
    → contains_plan_token cs ≡ false
    → contains_plan_token (c ∷ cs) ≡ false
unfolding contains_plan_token
cons_none c cs e f = or_false _ _ e f

run_dropped : (c : ℕ) (cs : Bytes) → in_token c ≡ true → sweep true (c ∷ cs) ≡ sweep true cs
unfolding sweep
run_dropped c cs e = rw e refl

run_ended : (c : ℕ) (cs : Bytes) → in_token c ≡ false → sweep true (c ∷ cs) ≡ c ∷ sweep false cs
unfolding sweep
run_ended c cs e = rw e refl

sweep_all_nil : sweep true [] ≡ []
unfolding sweep
sweep_all_nil = refl

sweep-contains : (dropping : Bool) (cs : Bytes) → contains_plan_token (sweep dropping cs) ≡ false
unfolding contains_plan_token
sweep-contains true [] = ap contains_plan_token sweep_all_nil
sweep-contains false [] = ap contains_plan_token sweep_nil
sweep-contains true (c ∷ cs) = elim (Bool-cases (in_token c)) [
  | inl e ↦ ap contains_plan_token (run_dropped c cs e) ∙ sweep-contains true cs
  | inr e ↦
      ap contains_plan_token (run_ended c cs e)
      ∙ cons_none c (sweep false cs) (outside_none c (sweep false cs) e) (sweep-contains false cs)
]
sweep-contains false (c ∷ cs) = elim (Bool-cases (starts_token (c ∷ cs))) [
  | inl e ↦
      ap contains_plan_token (dropped_is c cs e)
      ∙ redacted_none (sweep true cs) (sweep-contains true cs)
  | inr e ↦
      ap contains_plan_token (kept_is c cs e)
      ∙ cons_none c (sweep false cs) (starts_none c cs e) (sweep-contains false cs)
]

swept-contains : (body : Bytes) → contains_plan_token (swept body) ≡ false
unfolding swept
swept-contains body = elim (Bool-cases (contains_plan_token body)) [
  | inl e ↦ rw e (sweep-contains false body)
  | inr e ↦ rw e e
]

-- Whatever the structural pass does, a response that is stored contains no plan token.
pub strip_plan_token-contains :
    (structural : Bytes → Option Bytes) (body : Bytes)
    → contains_plan_token (strip_plan_token structural body) ≡ false
unfolding strip_plan_token contains_plan_token
strip_plan_token-contains structural [] = refl
strip_plan_token-contains structural (c ∷ cs) = swept-contains (structural_or structural (c ∷ cs))
