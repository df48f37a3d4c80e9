-- ===== src/Keys/KeyList/Pages.antt =====
-- The pages that `keys list` follows.
use ferry_cli.Base.{
  ℕ, zero, suc, ◌+◌, ◌≤◌, ◌<◌, String, ◌≡◌, ◌⊎◌, refl, sym, subst, Bool, true, false, not, Option,
  none, some, List, [], ◌++◌, if◌then◌else◌, eqb, leb, arith, length, Bool-cases, inl, inr,
}
use ferry_cli.Outcome.Class.{Class, Outcome}
use ferry_cli.Outcome.Operation.{op_list_api_keys}
use ferry_cli.Noun.{Opened, stopped, opened, Deps, Globals, Session, open_session}
use ferry_cli.Keys.KeyList.{
  max_pages, ListFlags, Query, Page, Reply, unreturned, failed, answered, Ended, refused, reported,
  waiting, still_running, Listing, next_cursor_of, ends_with, sent, at_page, next_query, list_pages,
  query_for, list_query, list_session, run_list,
}

module _ {Key : Type 0} where
  abbrev pub has_ended : Ended Key → Bool
  has_ended waiting = false
  has_ended still_running = false
  has_ended _ = true

  -- After a number of calls at most it ends, or waits in the last of them, which is stuck.
  abbrev pub Stops : Type 0 → ℕ → Listing Key → Type 0
  Stops Stuck n l =
      ((has_ended l.ended ≡ true) ⊎ ((l.ended ≡ waiting) × Stuck)) × (length l.sends ≤ n)

  pub reply_cases :
      (r : Reply Key)
      → (r ≡ unreturned)
        ⊎ (((c : Class) × (r ≡ failed c))
            ⊎ ((o : Outcome) × (page : Page Key) × (r ≡ answered o page)))
  reply_cases unreturned = inl refl
  reply_cases (failed c) = inr (inl (c, refl))
  reply_cases (answered o page) = inr (inr (o, page, refl))

  -- What follows an answer.
  abbrev pub answered_with :
      ℕ → Query → List Key → Outcome → Page Key → Option String → Listing Key → Listing Key
  answered_with pages q keys o page cursor rest = sent q (
      if not (eqb o.exit 0)
      then ends_with (reported o)
      else at_page pages (keys ++ page.data_of) page cursor rest)

  abbrev pub cursor_of : Bool → Page Key → Option String
  cursor_of all page = next_cursor_of all page.has_more page.next_cursor

  module _ (reply : ℕ → Query → Reply Key) (all : Bool) (fuel : ℕ) (q : Query) (keys : List Key)
      (pages : ℕ) where
    pub after_nothing :
        reply pages q ≡ unreturned
        → list_pages reply all (suc fuel) q keys pages ≡ sent q (ends_with waiting)
    unfolding list_pages
    after_nothing e = rw (list_pages, e) refl

    pub after_failure :
        (c : Class)
        → reply pages q ≡ failed c
        → list_pages reply all (suc fuel) q keys pages ≡ sent q (ends_with (refused c))
    unfolding list_pages
    after_failure c e = rw (list_pages, e) refl

    pub after_answer :
        (o : Outcome) (page : Page Key)
        → reply pages q ≡ answered o page
        → list_pages reply all (suc fuel) q keys pages
          ≡ answered_with pages q keys o page (cursor_of all page) (
              list_pages reply all fuel
                (next_query q (cursor_of all page))
                (keys ++ page.data_of)
                (pages + 1))
    unfolding list_pages
    after_answer o page e = rw (list_pages, e) refl

  answered_with-Stops :
      (Stuck : Type 0) (fuel pages : ℕ) (q : Query) (keys : List Key) (o : Outcome)
      (page : Page Key) (cursor : Option String) (rest : Listing Key)
      → (pages + 1 < max_pages → Stops Stuck fuel rest)
      → Stops Stuck (suc fuel) (answered_with pages q keys o page cursor rest)
  answered_with-Stops Stuck fuel pages q keys o page none rest h =
      elim (Bool-cases (not (eqb o.exit 0))) [
        | inl e ↦ rw e (inl refl, omega arith)
        | inr e ↦ rw e (inl refl, omega arith)
      ]
  answered_with-Stops Stuck fuel pages q keys o page (some c) rest h =
      elim (Bool-cases (not (eqb o.exit 0))) [
        | inl e ↦ rw e (inl refl, omega arith)
        | inr e ↦ elim (Bool-cases (leb max_pages (pages + 1))) [
          | inl m ↦ rw (e, m) (inl refl, omega arith)
          | inr m ↦ let (done, short) = h (ground arith) in rw (e, m) (done, omega (arith, short))
        ]
      ]

  list_pages-Stops :
      (Stuck : Type 0) (reply : ℕ → Query → Reply Key) (all : Bool) (fuel : ℕ) (q : Query)
      (keys : List Key) (pages : ℕ)
      → ((n : ℕ) (p : Query) → reply n p ≡ unreturned → Stuck)
      → pages < max_pages
      → max_pages ≤ fuel + pages
      → Stops Stuck fuel (list_pages reply all fuel q keys pages)
  list_pages-Stops Stuck reply all zero q keys pages stuck h k = absurd (omega arith)
  list_pages-Stops Stuck reply all (suc fuel) q keys pages stuck h k =
      elim (reply_cases (reply pages q)) [
        | inl e ↦
            subst (Stops Stuck (suc fuel)) (sym (after_nothing reply all fuel q keys pages e))
              (inr (refl, stuck pages q e), omega arith)
        | inr (inl (c, e)) ↦
            subst (Stops Stuck (suc fuel)) (sym (after_failure reply all fuel q keys pages c e))
              (inl refl, omega arith)
        | inr (inr (o, page, e)) ↦
            subst (Stops Stuck (suc fuel)) (sym (after_answer reply all fuel q keys pages o page e))
              (answered_with-Stops Stuck fuel pages q keys o page (cursor_of all page)
                (list_pages reply all fuel (next_query q (cursor_of all page))
                  (keys ++ page.data_of) (pages + 1))
                (λ m.
                  list_pages-Stops Stuck reply all fuel (next_query q (cursor_of all page))
                    (keys ++ page.data_of) (pages + 1) stuck m (omega (arith, k))))
      ]

  list_query-Stops :
      (Stuck : Type 0) (reply : ℕ → Query → Reply Key) (all : Bool) (x : Opened Query)
      → ((n : ℕ) (q : Query) → reply n q ≡ unreturned → Stuck)
      → Stops Stuck max_pages (list_query reply all x)
  list_query-Stops Stuck reply all (stopped c) stuck = (inl refl, omega arith)
  list_query-Stops Stuck reply all (opened q) stuck =
      list_pages-Stops Stuck reply all max_pages q [] 0 stuck (omega arith) (omega arith)

  -- A call of `Session.Do` that does not return.
  abbrev pub IsStuck : (Session → ℕ → Query → Reply Key) → Type 0
  IsStuck reply = (s : Session) × (n : ℕ) × (q : Query) × (reply s n q ≡ unreturned)

  list_session-Stops :
      (reply : Session → ℕ → Query → Reply Key) (f : ListFlags) (env : String) (x : Opened Session)
      → Stops (IsStuck reply) max_pages (list_session reply f env x)
  list_session-Stops reply f env (stopped c) = (inl refl, omega arith)
  list_session-Stops reply f env (opened s) =
      list_query-Stops (IsStuck reply) (reply s) f.all (query_for env f) (λ n q e. (s, n, q, e))

  -- `keys list` calls `Session.Do` twenty times at most, whatever comes of the calls, and then ends;
  -- it fails to end only in a call that does not return, and then there is such a call.
  pub run_list-Stops :
      (reply : Session → ℕ → Query → Reply Key) (d : Deps) (g : Globals) (f : ListFlags)
      → Stops (IsStuck reply) max_pages (run_list reply d g f)
  unfolding run_list
  run_list-Stops reply d g f = list_session-Stops reply f g.env (open_session d g op_list_api_keys)
