-- ===== src/Keys/KeyList/Followed.antt =====
-- The pages that `keys list` follows, and the keys that it lists.
use ferry_cli.Base.{
  ℕ, zero, suc, ◌+◌, String, ◌==◌, ◌≡◌, ◌||◌, refl, ◌∙◌, ap, sym, subst, Bool, true, false, not,
  Option, none, some, List, [], ◌∷◌, ◌++◌, if◌then◌else◌, eqb, leb, arith, Bool-cases, inl, inr,
}
use ferry_cli.Outcome.Class.{Class, Outcome}
use ferry_cli.Keys.KeyList.{
  max_pages, Query, Page, Reply, answered, refused, reported, listed, too_many_pages, waiting,
  still_running, Listing, next_cursor_of, ends_with, sent, next_query, list_pages,
}
use ferry_cli.Keys.KeyList.Pages.{
  reply_cases, after_nothing, after_failure, after_answer, cursor_of, answered_with,
}

not_some : (c : String) → none ≡ some c → ⊥
not_some c e = ground arith

cursor_followed :
    (all more : Bool) (o : Option String) (c : String)
    → next_cursor_of all more o ≡ some c
    → (all ≡ true) × (more ≡ true) × (o ≡ some c)
cursor_followed all more none c e = absurd (ground arith)
cursor_followed all more (some d) c e = elim (Bool-cases (not all || (not more || d == ""))) [
  | inl b ↦ absurd (ground arith)
  | inr b ↦ (ground arith, ground arith, ground arith)
]

is_zero : (n : ℕ) → not (eqb n 0) ≡ false → n ≡ 0
is_zero n e = ground arith

module _ {Key : Type 0} where
  -- The pages of a run of requests: each but the last has more, and the next request is the same with
  -- the cursor that it carried.
  pub data Follows (reply : ℕ → Query → Reply Key) (all : Bool)
      : ℕ → Query → List Query → List Key → Page Key → Type 0 where
    last_page :
        {pages : ℕ} {q : Query} (o : Outcome) (page : Page Key)
        → reply pages q ≡ answered o page
        → o.exit ≡ 0
        → Follows reply all pages q (q ∷ []) page.data_of page
    next_page :
        {pages : ℕ} {q : Query} {qs : List Query} {keys : List Key} {last : Page Key} (o : Outcome)
        (page : Page Key) (c : String)
        → reply pages q ≡ answered o page
        → o.exit ≡ 0
        → all ≡ true
        → page.has_more ≡ true
        → page.next_cursor ≡ some c
        → Follows reply all (pages + 1) (record q { cursor = some c }) qs keys last
        → Follows reply all pages q (q ∷ qs) (page.data_of ++ keys) last

  -- What a run of the loop lists.
  record IsFollowed (reply : ℕ → Query → Reply Key) (all : Bool) (q : Query) (keys : List Key)
      (pages : ℕ) (l : Listing Key) (out : List Key) (last : Page Key) : Type 0 where
    more : List Key
    added : keys ++ more ≡ out
    follows : Follows reply all pages q l.sends more last

  listed_is : (a b : List Key) (p r : Page Key) → listed a p ≡ listed b r → (a ≡ b) × (p ≡ r)
  listed_is a b p r e = (ground arith, ground arith)

  not_taken : (b : Bool) (x y : Listing Key) → b ≡ false → (if b then x else y).ended ≡ y.ended
  not_taken b x y e = rw e refl

  taken : (b : Bool) (x y : Listing Key) → b ≡ true → (if b then x else y).ended ≡ x.ended
  taken b x y e = rw e refl

  reported_not : (o : Outcome) (a : List Key) (p : Page Key) → reported o ≡ listed a p → ⊥
  reported_not o a p e = ground arith

  too_many_not : (a : List Key) (p : Page Key) → too_many_pages ≡ listed a p → ⊥
  too_many_not a p e = ground arith

  append_assoc : (xs ys zs : List Key) → xs ++ (ys ++ zs) ≡ (xs ++ ys) ++ zs
  append_assoc [] ys zs = refl
  append_assoc (x ∷ xs) ys zs = ap (λ l. x ∷ l) (append_assoc xs ys zs)

  last-IsFollowed :
      (reply : ℕ → Query → Reply Key) (all : Bool) (pages : ℕ) (q : Query) (keys : List Key)
      (o : Outcome) (page last : Page Key) (out : List Key)
      → reply pages q ≡ answered o page
      → o.exit ≡ 0
      → listed (keys ++ page.data_of) page ≡ listed out last
      → IsFollowed reply all q keys pages
          (sent q (ends_with (listed (keys ++ page.data_of) page)))
          out
          last
  last-IsFollowed reply all pages q keys o page last out r z e =
      let (same, is) = listed_is (keys ++ page.data_of) out page last e in
      record {
        more = page.data_of;
        added = same;
        follows = subst (Follows reply all pages q (q ∷ []) page.data_of) is (last_page o page r z);
      }

  next-IsFollowed :
      (reply : ℕ → Query → Reply Key) (all : Bool) (pages : ℕ) (q : Query) (keys : List Key)
      (o : Outcome) (page last : Page Key) (c : String) (rest : Listing Key) (out : List Key)
      → reply pages q ≡ answered o page
      → o.exit ≡ 0
      → cursor_of all page ≡ some c
      → IsFollowed reply all
          (next_query q (some c))
          (keys ++ page.data_of)
          (pages + 1)
          rest
          out
          last
      → IsFollowed reply all q keys pages (sent q rest) out last
  next-IsFollowed reply all pages q keys o page last c rest out r z k i =
      let (every, more, at) = cursor_followed all page.has_more page.next_cursor c k in
      record {
        more = page.data_of ++ i.more;
        added = append_assoc keys page.data_of i.more ∙ i.added;
        follows = next_page o page c r z every more at i.follows;
      }

  answered_with-IsFollowed :
      (reply : ℕ → Query → Reply Key) (all : Bool) (pages : ℕ) (q : Query) (keys : List Key)
      (o : Outcome) (page : Page Key) (cursor : Option String) (rest : Listing Key) (out : List Key)
      (last : Page Key)
      → reply pages q ≡ answered o page
      → cursor_of all page ≡ cursor
      → ((c : String)
          → cursor ≡ some c
          → rest.ended ≡ listed out last
          → IsFollowed reply all
              (next_query q (some c))
              (keys ++ page.data_of)
              (pages + 1)
              rest
              out
              last)
      → (answered_with pages q keys o page cursor rest).ended ≡ listed out last
      → IsFollowed reply all q keys pages (answered_with pages q keys o page cursor rest) out last
  answered_with-IsFollowed reply all pages q keys o page none rest out last r c h e =
      let over = not (eqb o.exit 0) in
      elim (Bool-cases over) [
        | inl b ↦ absurd (reported_not o out last (sym (taken over _ _ b) ∙ e))
        | inr b ↦ rw b (
            last-IsFollowed reply all pages q keys o page last out r (is_zero o.exit b)
              (sym (not_taken over _ _ b) ∙ e))
      ]
  answered_with-IsFollowed reply all pages q keys o page (some c) rest out last r k h e =
      let over = not (eqb o.exit 0) in
      let full = leb max_pages (pages + 1) in
      elim (Bool-cases over) [
        | inl b ↦ absurd (reported_not o out last (sym (taken over _ _ b) ∙ e))
        | inr b ↦ elim (Bool-cases full) [
          | inl m ↦
              absurd (too_many_not out last (sym (not_taken over _ _ b ∙ taken full _ _ m) ∙ e))
          | inr m ↦
              rw (b, m)
                (next-IsFollowed reply all pages q keys o page last c rest out r (is_zero o.exit b)
                  k (h c refl (sym (not_taken over _ _ b ∙ not_taken full _ _ m) ∙ e)))
        ]
      ]

  running_not : (a : List Key) (p : Page Key) → still_running ≡ listed a p → ⊥
  running_not a p e = ground arith

  waiting_not : (a : List Key) (p : Page Key) → waiting ≡ listed a p → ⊥
  waiting_not a p e = ground arith

  refused_not : (c : Class) (a : List Key) (p : Page Key) → refused c ≡ listed a p → ⊥
  refused_not c a p e = ground arith

  none_left :
      (reply : ℕ → Query → Reply Key) (all : Bool) (q : Query) (keys : List Key) (pages : ℕ)
      → (list_pages reply all zero q keys pages).ended ≡ still_running
  unfolding list_pages
  none_left reply all q keys pages = refl

  list_pages-IsFollowed :
      (reply : ℕ → Query → Reply Key) (all : Bool) (fuel : ℕ) (q : Query) (keys : List Key)
      (pages : ℕ) (out : List Key) (last : Page Key)
      → (list_pages reply all fuel q keys pages).ended ≡ listed out last
      → IsFollowed reply all q keys pages (list_pages reply all fuel q keys pages) out last
  list_pages-IsFollowed reply all zero q keys pages out last e =
      absurd (running_not out last (sym (none_left reply all q keys pages) ∙ e))
  list_pages-IsFollowed reply all (suc fuel) q keys pages out last e =
      elim (reply_cases (reply pages q)) [
        | inl f ↦ absurd (
            waiting_not out last
              (sym (ap (λ l. l.ended) (after_nothing reply all fuel q keys pages f)) ∙ e))
        | inr (inl (c, f)) ↦ absurd (
            refused_not c out last
              (sym (ap (λ l. l.ended) (after_failure reply all fuel q keys pages c f)) ∙ e))
        | inr (inr (o, page, f)) ↦
            let is = after_answer reply all fuel q keys pages o page f in
            let cursor = cursor_of all page in
            subst (λ l. IsFollowed reply all q keys pages l out last) (sym is)
              (answered_with-IsFollowed reply all pages q keys o page cursor
                (list_pages reply all fuel (next_query q cursor) (keys ++ page.data_of) (pages + 1))
                out last f refl
                (λ c k g.
                  subst
                    (λ x.
                      IsFollowed reply all (next_query q x) (keys ++ page.data_of) (pages + 1)
                        (list_pages reply all fuel (next_query q cursor) (keys ++ page.data_of)
                          (pages + 1))
                        out last)
                    k
                    (list_pages-IsFollowed reply all fuel (next_query q cursor)
                      (keys ++ page.data_of) (pages + 1) out last g))
                (sym (ap (λ l. l.ended) is) ∙ e))
      ]

  -- The keys of a listing are those of the pages, in order, that its requests brought: each was
  -- answered with exit 0, and a further one was sent only if all were asked for and the answer had
  -- more, as the same query with the cursor that the answer carried.
  pub list_pages-Follows :
      (reply : ℕ → Query → Reply Key) (all : Bool) (fuel : ℕ) (q : Query) (out : List Key)
      (last : Page Key)
      → (list_pages reply all fuel q [] 0).ended ≡ listed out last
      → Follows reply all 0 q (list_pages reply all fuel q [] 0).sends out last
  list_pages-Follows reply all fuel q out last e =
      let i = list_pages-IsFollowed reply all fuel q [] 0 out last e in
      subst (λ x. Follows reply all 0 q (list_pages reply all fuel q [] 0).sends x last) i.added
        i.follows
