-- ===== src/Keys/KeyList/Tests.antt =====
-- A listing of two pages, and each property at it.
use ferry_cli.Base.{ℕ, zero, suc, ◌≡◌, refl, true, false, none, some, [], ◌∷◌, pos}
use ferry_cli.Outcome.Class.{Class, new_outcome, properties}
use ferry_cli.Creds.{Library}
use ferry_cli.Creds.Store.{OnDisk}
use ferry_cli.Noun.{Deps, Globals}
use ferry_cli.Keys.KeyList.{
  max_pages, ListFlags, Query, empty_query, Page, Reply, unreturned, answered, waiting, listed,
  list_pages, run_list,
}
use ferry_cli.Keys.KeyList.Pages.{Stops, IsStuck, run_list-Stops}
use ferry_cli.Keys.KeyList.Followed.{Follows, list_pages-Follows}

abbrev first : Page ℕ
first = record { data_of = 1 ∷ 2 ∷ []; has_more = true; next_cursor = some "c" }

abbrev second : Page ℕ
second = record { data_of = 3 ∷ []; has_more = false; next_cursor = none }

abbrev server : ℕ → Query → Reply ℕ
server zero q = answered (new_outcome Class.done [] []) first
server (suc n) q = answered (new_outcome Class.done [] []) second

lists : (list_pages server true max_pages empty_query [] 0).ended ≡ listed (1 ∷ 2 ∷ 3 ∷ []) second
unfolding list_pages new_outcome properties
lists = refl

list_pages-Follows_example :
    Follows server true 0 empty_query
      (list_pages server true max_pages empty_query [] 0).sends
      (1 ∷ 2 ∷ 3 ∷ [])
      second
list_pages-Follows_example =
    list_pages-Follows server true max_pages empty_query (1 ∷ 2 ∷ 3 ∷ []) second lists

abbrev library : Library
library = record { parse = λ raw. none; lower = λ x. x; trim = λ x. x }

abbrev deps : Deps
deps = record {
  library = library;
  ferry_token = [];
  ferry_api_url = [];
  has_paths = true;
  on_disk = OnDisk.missing;
  now = 7;
}

abbrev globals : Globals
globals = record { profile = ""; api_url = []; env = "live"; output = "text" }

abbrev flags : ListFlags
flags = record {
  status = "all";
  limit = pos 20;
  cursor = "";
  all = true;
  set_status = true;
  set_limit = true;
  set_cursor = false;
}

run_list-Stops_example :
    Stops (IsStuck (λ s. server)) max_pages (run_list (λ s. server) deps globals flags)
run_list-Stops_example = run_list-Stops (λ s. server) deps globals flags

-- The second call of `Do` resends without end.
abbrev stuck_server : ℕ → Query → Reply ℕ
stuck_server zero q = answered (new_outcome Class.done [] []) first
stuck_server (suc n) q = unreturned

hangs : (list_pages stuck_server true max_pages empty_query [] 0).ended ≡ waiting
unfolding list_pages new_outcome properties
hangs = refl
