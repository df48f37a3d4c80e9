-- ===== src/Transfers/Begin/Opens.antt =====
-- The sessions that a transfer opens.
use ferry_cli.Base.{
  ◌==◌, eq_iff, ◌≡◌, refl, ◌∙◌, ap, sym, subst, true, Option, none, some, List, [], ◌∷◌, arith,
  lookup, contains, Bool-cases, inl, inr, ◌⊎◌, is_some,
}
use ferry_cli.Outcome.Class.{Class}
use ferry_cli.Outcome.Operation.{Operation}
use ferry_cli.Noun.{Opened, stopped, opened, Local, Session, session}
use ferry_cli.Transfers.Begin.{Sessions, open_all}

-- Every session is the one that its operation opens.
abbrev pub AreOpened : Local → Sessions → Type 0
AreOpened l ss = (op : Operation) (s : Session) → lookup op ss ≡ some s → session l op ≡ opened s

found_or_none : {A : Type 0} (o : Option A) → ((x : A) × (o ≡ some x)) ⊎ (o ≡ none)
found_or_none none = inr refl
found_or_none (some x) = inl (x, refl)

opened_or_stopped :
    {A : Type 0} (o : Opened A) → ((x : A) × (o ≡ opened x)) ⊎ ((c : Class) × (o ≡ stopped c))
opened_or_stopped (stopped c) = inr (c, refl)
opened_or_stopped (opened x) = inl (x, refl)

stopped_is : {A : Type 0} (c : Class) (o : Opened A) (x : A) → o ≡ stopped c → o ≡ opened x → ⊥
stopped_is c o x e f = ground arith

module _ (l : Local) (op : Operation) (ops : List Operation) (ss : Sessions) where
  opens_held : (s : Session) → lookup op ss ≡ some s → open_all l (op ∷ ops) ss ≡ open_all l ops ss
  unfolding open_all
  opens_held s e = rw (open_all, e) refl

  opens_new :
      (s : Session)
      → lookup op ss ≡ none
      → session l op ≡ opened s
      → open_all l (op ∷ ops) ss ≡ open_all l ops ((op, s) ∷ ss)
  unfolding open_all
  opens_new s e f = rw (open_all, e, f) refl

  opens_stopped :
      (c : Class)
      → lookup op ss ≡ none
      → session l op ≡ stopped c
      → open_all l (op ∷ ops) ss ≡ stopped c
  unfolding open_all
  opens_stopped c e f = rw (open_all, e, f) refl

AreOpened-add :
    (l : Local) (op : Operation) (s : Session) (ss : Sessions)
    → session l op ≡ opened s
    → AreOpened l ss
    → AreOpened l ((op, s) ∷ ss)
unfolding lookup
AreOpened-add l op s ss e h k t f = elim (Bool-cases (op == k)) [
  | inl same ↦
      let is : op ≡ k = (eq_iff op k).0 same in
      let of : s ≡ t = ground arith in subst (λ x. session l x ≡ opened t) is (e ∙ ap opened of)
  | inr other ↦ h k t (ground arith)
]

-- What the loop comes to: the sessions are those that their operations open, and none is missing.
pub record AreAll (l : Local) (ops : List Operation) (ss out : Sessions) : Type 0 where
  pub are_opened : AreOpened l out
  pub old : (op : Operation) → is_some (lookup op ss) ≡ true → is_some (lookup op out) ≡ true
  pub new : (op : Operation) → contains op ops ≡ true → is_some (lookup op out) ≡ true

is_added :
    (op k : Operation) (s : Session) (ss : Sessions)
    → is_some (lookup k ss) ≡ true
    → is_some (lookup k ((op, s) ∷ ss)) ≡ true
unfolding lookup
is_added op k s ss e = ground arith

is_found :
    (op : Operation) (s : Session) (ss : Sessions) → is_some (lookup op ((op, s) ∷ ss)) ≡ true
unfolding lookup
is_found op s ss = ground (arith, eq_iff op op)

first_or_later :
    (k op : Operation) (ops : List Operation)
    → contains k (op ∷ ops) ≡ true
    → (op ≡ k) ⊎ (contains k ops ≡ true)
unfolding contains
first_or_later k op ops e = elim (Bool-cases (k == op)) [
  | inl same ↦ inl (sym ((eq_iff k op).0 same))
  | inr other ↦ inr (ground arith)
]

new_too :
    (op : Operation) (ops : List Operation) (out : Sessions)
    → is_some (lookup op out) ≡ true
    → ((k : Operation) → contains k ops ≡ true → is_some (lookup k out) ≡ true)
    → (k : Operation) → contains k (op ∷ ops) ≡ true
    → is_some (lookup k out) ≡ true
new_too op ops out first later k e = elim (first_or_later k op ops e) [
  | inl is ↦ subst (λ x. is_some (lookup x out) ≡ true) is first
  | inr c ↦ later k c
]

nothing_more :
    (l : Local) (ss out : Sessions)
    → AreOpened l ss
    → open_all l [] ss ≡ opened out
    → AreAll l [] ss out
unfolding open_all contains
nothing_more l ss out h e =
    let is : ss ≡ out = ground arith in
    record {
      are_opened = subst (AreOpened l) is h;
      old = λ k x. subst (λ y. is_some (lookup k y) ≡ true) is x;
      new = λ k x. absurd (ground arith);
    }

pub open_all-AreAll :
    (l : Local) (ops : List Operation) (ss out : Sessions)
    → AreOpened l ss
    → open_all l ops ss ≡ opened out
    → AreAll l ops ss out
open_all-AreAll l [] ss out h e = nothing_more l ss out h e
open_all-AreAll l (op ∷ ops) ss out h e = elim (found_or_none (lookup op ss)) [
  | inl (s, f) ↦
      let i = open_all-AreAll l ops ss out h (sym (opens_held l op ops ss s f) ∙ e) in
      record {
        are_opened = i.are_opened;
        old = i.old;
        new = new_too op ops out (i.old op (ap is_some f)) i.new;
      }
  | inr f ↦ elim (opened_or_stopped (session l op)) [
    | inr (c, g) ↦ absurd (stopped_is c _ out (opens_stopped l op ops ss c f g) e)
    | inl (s, g) ↦
        let i =
          open_all-AreAll l ops ((op, s) ∷ ss) out (AreOpened-add l op s ss g h)
            (sym (opens_new l op ops ss s f g) ∙ e) in
        record {
          are_opened = i.are_opened;
          old = λ k x. i.old k (is_added op k s ss x);
          new = new_too op ops out (i.old op (is_found op s ss)) i.new;
        }
  ]
]
