-- ===== src/Keys/KeyList.antt =====
-- internal/noun/keys/list.go: the query of `keys list` and the loop over the pages of its answer. A key
-- is what the server lists, of any type; printing and encoding the keys is left out.
pub mod Pages
pub mod Followed
mod Tests
use ferry_cli.Base.{
  ℕ, zero, suc, ◌+◌, String, ◌==◌, Bool, true, false, ◌||◌, not, Option, none, some, List, [], ◌∷◌,
  ◌++◌, if◌then◌else◌, eqb, leb, ltb, contains, ℤ, pos, negsuc,
}
use ferry_cli.Outcome.Class.{Class, Outcome}
use ferry_cli.Outcome.Operation.{op_list_api_keys}
use ferry_cli.Creds.{Environment}
use ferry_cli.Noun.{
  Opened, stopped, opened, Deps, Globals, Session, environment_text, open_session,
  parse_environment,
}

-- `MaxPages`.
abbrev pub max_pages : ℕ
max_pages = 20

-- `Statuses`.
abbrev pub statuses : List String
statuses = "active" ∷ "all" ∷ []

-- `knownStatus`.
abbrev pub known_status : String → Bool
known_status s = contains s statuses

-- `listFlags`.
pub record ListFlags : Type 0 where
  pub status : String
  pub limit : ℤ
  pub cursor : String
  pub all : Bool
  pub set_status : Bool
  pub set_limit : Bool
  pub set_cursor : Bool

-- The `url.Values` of the request: one value at most under each key.
pub record Query : Type 0 where
  pub environment : Option String
  pub status : Option String
  pub limit : Option ℕ
  pub cursor : Option String

abbrev pub empty_query : Query
empty_query = record { environment = none; status = none; limit = none; cursor = none }

abbrev with_cursor : ListFlags → Query → Opened Query
with_cursor f q =
    if not f.set_cursor
    then opened q
    else if f.cursor == ""
    then stopped Class.usage
    else opened (record q { cursor = some f.cursor })

abbrev limit_of : ListFlags → Query → ℤ → Opened Query
limit_of f q (negsuc n) = stopped Class.usage
limit_of f q (pos n) =
    if ltb n 1 then stopped Class.usage else with_cursor f (record q { limit = some n })

abbrev with_limit : ListFlags → Query → Opened Query
with_limit f q = if not f.set_limit then with_cursor f q else limit_of f q f.limit

abbrev with_status : ListFlags → Query → Opened Query
with_status f q =
    if not f.set_status
    then with_limit f q
    else if not (known_status f.status)
    then stopped Class.usage
    else with_limit f (record q { status = some f.status })

abbrev with_environment : ListFlags → Opened Environment → Opened Query
with_environment f (stopped c) = stopped c
with_environment f (opened e) =
    with_status f (record empty_query { environment = some (environment_text (some e)) })

-- `queryFor`.
unfoldable pub query_for : String → ListFlags → Opened Query
unfolding contains parse_environment
query_for env f =
    if env == "" then with_status f empty_query else with_environment f (parse_environment env)

-- `List`: a page.
pub record Page (Key : Type 0) : Type 0 where
  pub data_of : List Key
  pub has_more : Bool
  pub next_cursor : Option String

-- What a call of `Session.Do` comes to, which may send its request more than once: an error before it
-- was sent, a classified answer and its page, or a call that resends without end and never returns.
pub data Reply (Key : Type 0) : Type 0 where
  unreturned : Reply Key
  failed : Class → Reply Key
  answered : Outcome → Page Key → Reply Key

-- How the command ends, or that it waits in `Session.Do` for ever.
pub data Ended (Key : Type 0) : Type 0 where
  refused : Class → Ended Key
  reported : Outcome → Ended Key
  listed : List Key → Page Key → Ended Key
  too_many_pages waiting still_running : Ended Key

-- The queries that `Session.Do` was called with, and the end.
pub record Listing (Key : Type 0) : Type 0 where
  pub sends : List Query
  pub ended : Ended Key

-- The cursor that is followed: of an answer that has more, under `--all`.
abbrev pub next_cursor_of : Bool → Bool → Option String → Option String
next_cursor_of all has_more none = none
next_cursor_of all has_more (some c) = if not all || (not has_more || c == "") then none else some c

-- The copy of the query, with the cursor.
abbrev pub next_query : Query → Option String → Query
next_query q none = q
next_query q (some c) = record q { cursor = some c }

module _ {Key : Type 0} where
  abbrev pub ends_with : Ended Key → Listing Key
  ends_with e = record { sends = []; ended = e }

  abbrev pub sent : Query → Listing Key → Listing Key
  sent q l = record l { sends = q ∷ l.sends }

  abbrev pub at_page : ℕ → List Key → Page Key → Option String → Listing Key → Listing Key
  at_page pages keys page none rest = ends_with (listed keys page)
  at_page pages keys page (some c) rest =
      if leb max_pages (pages + 1) then ends_with too_many_pages else rest

  -- The loop of `runList`. What comes of a call depends on its number.
  unfoldable pub list_pages :
      (ℕ → Query → Reply Key) → Bool → ℕ → Query → List Key → ℕ → Listing Key
  list_pages reply all zero q keys pages = ends_with still_running
  list_pages reply all (suc fuel) q keys pages = elim (reply pages q) [
    | unreturned ↦ sent q (ends_with waiting)
    | failed c ↦ sent q (ends_with (refused c))
    | answered o page ↦
        let cursor = next_cursor_of all page.has_more page.next_cursor in
        let collected = keys ++ page.data_of in
        let rest = list_pages reply all fuel (next_query q cursor) collected (pages + 1) in
        sent q (
          if not (eqb o.exit 0)
          then ends_with (reported o)
          else at_page pages collected page cursor rest)
  ]

  abbrev list_query : (ℕ → Query → Reply Key) → Bool → Opened Query → Listing Key
  list_query reply all (stopped c) = ends_with (refused c)
  list_query reply all (opened q) = list_pages reply all max_pages q [] 0

  abbrev list_session :
      (Session → ℕ → Query → Reply Key) → ListFlags → String → Opened Session → Listing Key
  list_session reply f env (stopped c) = ends_with (refused c)
  list_session reply f env (opened s) = list_query (reply s) f.all (query_for env f)

  -- `runList`.
  unfoldable pub run_list :
      (Session → ℕ → Query → Reply Key) → Deps → Globals → ListFlags → Listing Key
  unfolding list_pages
  run_list reply d g f = list_session reply f g.env (open_session d g op_list_api_keys)
