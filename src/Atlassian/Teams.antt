-- ===== src/Atlassian/Teams.antt =====
-- lookup/plugins/atlassian.py, _iter_team_pages and preload_teams_cache.
--
-- The server's answer to a request is a function of the cursor. The loop over the pages has fuel, one
-- unit for each page; `none` is a run out of fuel. A page is stored before the next is requested; as
-- the requests do not read the cache, the pages are first collected here.
pub mod Pages
pub mod Preloading
use thaum.Prelude.{
  ℕ, zero, suc, ◌+◌, Bool, true, false, not, ◌&&◌, Option, none, some, List, [], ◌∷◌, if◌then◌else◌,
}
use thaum.Text.{Text, codes, truthy, strip}
use thaum.Identity.{ThaumTeam, default_ttl}
use thaum.Lookup.Cache.{Cache}
use thaum.Lookup.Teams.{cache_team}

-- An entry of a page: `str(... or "")` of its id and name, where it is an object.
pub data TeamEntry : Type 0 where
  no_object : TeamEntry
  team_entry : (team_id display_name : Text) → TeamEntry

-- The answer: an exception, JSON that is no object, or a page with its entities (where they are a list) and
-- its cursor (where that is a text).
pub data TeamAnswer : Type 0 where
  raises no_page : TeamAnswer
  team_page : Option (List TeamEntry) → (cursor : Option Text) → TeamAnswer

-- The batches, and whether the iteration ended without an exception.
pub record TeamPages : Type 0 where
  pub batches : List (List TeamEntry)
  pub complete : Bool

unfoldable pub entities_of : Option (List TeamEntry) → List TeamEntry
entities_of none = []
entities_of (some entities) = entities

nonempty : Text → Option Text
nonempty [] = none
nonempty (c ∷ s) = some (c ∷ s)

unfoldable pub next_cursor : Option Text → Option Text
unfolding strip nonempty
next_cursor none = none
next_cursor (some cursor) = nonempty (strip cursor)

unfoldable pub add_batch : List TeamEntry → Option TeamPages → Option TeamPages
add_batch batch none = none
add_batch batch (some pages) = some (record pages { batches = batch ∷ pages.batches })

-- The rest of the iteration after a page.
after_page : List TeamEntry → Option Text → (Text → Option TeamPages) → Option TeamPages
unfolding add_batch
after_page batch none go_on = some (record { batches = batch ∷ []; complete = true })
after_page batch (some cursor) go_on = add_batch batch (go_on cursor)

on_answer : TeamAnswer → (Text → Option TeamPages) → Option TeamPages
unfolding after_page entities_of next_cursor
on_answer raises go_on = some (record { batches = []; complete = false })
on_answer no_page go_on = some (record { batches = [] ∷ []; complete = true })
on_answer (team_page entities cursor) go_on =
    after_page (entities_of entities) (next_cursor cursor) go_on

unfoldable pub iter_team_pages : ℕ → (Option Text → TeamAnswer) → Option Text → Option TeamPages
unfolding on_answer
iter_team_pages zero ask cursor = none
iter_team_pages (suc n) ask cursor =
    on_answer (ask cursor) (λ next. iter_team_pages n ask (some next))

abbrev pub atlassian : Text
atlassian = codes "atlassian"

abbrev pub jira : Text
jira = codes "jira"

unfoldable pub preloaded_team : Text → Text → ThaumTeam
preloaded_team display team_id = record {
  team_name = display;
  lookup_id = some team_id;
  alert_id = some team_id;
  members = [];
  last_cached = 0;
  ttl = default_ttl;
}

-- The cache, and how many teams were stored.
abbrev pub Preloaded : Type 0
Preloaded = Cache × ℕ

-- An exception of `cache_team` is logged.
counted : Preloaded → Option Cache → Preloaded
counted (c, total) none = (c, total)
counted (c, total) (some c') = (c', total + 1)

unfoldable pub preload_entry :
    (enforced : Bool) (fallback_ttl : ℕ) → TeamEntry → Preloaded → Preloaded
unfolding counted strip preloaded_team cache_team
preload_entry enforced fallback_ttl no_object done = done
preload_entry enforced fallback_ttl (team_entry team_id display_name) done =
    let tid = strip team_id in
    let display = strip display_name in
    if truthy tid && truthy display
    then counted done
        (cache_team enforced fallback_ttl (some (jira, tid)) (preloaded_team display tid) done.0)
    else done

unfoldable pub preload_entries :
    (enforced : Bool) (fallback_ttl : ℕ) → List TeamEntry → Preloaded → Preloaded
unfolding preload_entry
preload_entries enforced fallback_ttl [] done = done
preload_entries enforced fallback_ttl (entry ∷ entries) done =
    preload_entries enforced fallback_ttl entries (preload_entry enforced fallback_ttl entry done)

unfoldable pub preload_batches :
    (enforced : Bool) (fallback_ttl : ℕ) → List (List TeamEntry) → Preloaded → Preloaded
unfolding preload_entries
preload_batches enforced fallback_ttl [] done = done
preload_batches enforced fallback_ttl (batch ∷ batches) done =
    preload_batches enforced fallback_ttl batches (preload_entries enforced fallback_ttl batch done)

preload_pages :
    (enforced : Bool) (fallback_ttl : ℕ) → Cache → Option TeamPages → Option (Bool × Preloaded)
unfolding preload_batches
preload_pages enforced fallback_ttl c none = none
preload_pages enforced fallback_ttl c (some pages) =
    some (pages.complete, preload_batches enforced fallback_ttl pages.batches (c, 0))

-- Whether it returns (or an exception leaves it), with what it stored.
unfoldable pub preload_teams_cache :
    ℕ
    → (enforced : Bool) (fallback_ttl : ℕ) → (Option Text → TeamAnswer)
    → Cache
    → Option (Bool × Preloaded)
unfolding iter_team_pages preload_pages
preload_teams_cache n enforced fallback_ttl ask c =
    preload_pages enforced fallback_ttl c (iter_team_pages n ask none)
