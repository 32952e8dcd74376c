-- ===== src/Jira/Teams.antt =====
-- alerts/plugins/jira/teams.py: the names and ids of the teams, with the snapshots in the identity cache.
--
-- `casefold` of a name is a parameter. `none` as the answer of Jira is an exception of the request.
pub mod Fresh
mod Tests
use thaum.Prelude.{ℕ, Bool, ◌&&◌, Option, none, some, List, [], ◌∷◌, if◌then◌else◌, drop}
use thaum.Text.{Text, codes, truthy, or_else, strip, lower, starts_with}
use thaum.Dict.{Dict, get, set}
use thaum.Identity.{ThaumTeam, default_ttl}
use thaum.Lookup.Cache.{Cache}
use thaum.Lookup.Teams.{cache_team}

-- The two dictionaries of the plugin.
pub record Folded : Type 0 where
  pub team_name_by_folded : Dict Text
  pub team_id_by_folded : Dict Text

-- The text `team:` before the name, in any case, is dropped.
without_prefix : Text → Text
unfolding strip lower starts_with
without_prefix name = if starts_with (lower name) (codes "team:") then strip (drop 5 name) else name

unfoldable pub canonical_team_ref : (Text → Text) → Text → Dict Text → Text
unfolding without_prefix strip get
canonical_team_ref casefold team_ref team_name_by_folded =
    let name = without_prefix (strip team_ref) in
    elim (get (casefold name) team_name_by_folded) [
      | none ↦ name
      | some canonical ↦ or_else canonical name
    ]

-- An element of the answer that is an object: `str` of its name and id, and the clock when its team is made.
pub record TeamItem : Type 0 where
  pub team_name : Text
  pub team_id : Text
  pub now : ℕ

unfoldable pub named_team : TeamItem → ThaumTeam
unfolding strip
named_team item = record {
  team_name = strip item.team_name;
  lookup_id = some (strip item.team_id);
  alert_id = some (strip item.team_id);
  members = [];
  last_cached = item.now;
  ttl = default_ttl;
}

-- An exception of `cache_team` is logged.
or_kept : Cache → Option Cache → Cache
or_kept c none = c
or_kept c (some c') = c'

fold_item : (Text → Text) → TeamItem → Folded → Folded
unfolding set strip
fold_item casefold item folded = record {
  team_name_by_folded =
      set (casefold (strip item.team_name)) (strip item.team_name) folded.team_name_by_folded;
  team_id_by_folded =
      set (casefold (strip item.team_name)) (strip item.team_id) folded.team_id_by_folded;
}

unfoldable pub cache_item : (lookup enforced : Bool) (fallback_ttl : ℕ) → TeamItem → Cache → Cache
unfolding or_kept named_team cache_team strip
cache_item lookup enforced fallback_ttl item c =
    if lookup
    then or_kept c (
        cache_team enforced fallback_ttl (some (codes "jira", strip item.team_id)) (named_team item)
          c)
    else c

unfoldable pub refresh_item :
    (Text → Text)
    → (lookup enforced : Bool) (fallback_ttl : ℕ) → Option TeamItem
    → Folded × Cache
    → Folded × Cache
unfolding fold_item cache_item strip
refresh_item casefold lookup enforced fallback_ttl none (folded, c) = (folded, c)
refresh_item casefold lookup enforced fallback_ttl (some item) (folded, c) =
    if truthy (strip item.team_name) && truthy (strip item.team_id)
    then (fold_item casefold item folded, cache_item lookup enforced fallback_ttl item c)
    else (folded, c)

unfoldable pub refresh_items :
    (Text → Text)
    → (lookup enforced : Bool) (fallback_ttl : ℕ) → List (Option TeamItem)
    → Folded × Cache
    → Folded × Cache
unfolding refresh_item
refresh_items casefold lookup enforced fallback_ttl [] state = state
refresh_items casefold lookup enforced fallback_ttl (item ∷ items) state =
    refresh_items casefold lookup enforced fallback_ttl items
      (refresh_item casefold lookup enforced fallback_ttl item state)

refresh_from :
    (Text → Text)
    → (lookup enforced : Bool) (fallback_ttl : ℕ) → Option (List (Option TeamItem))
    → Folded × Cache
    → Option (Folded × Cache)
unfolding refresh_items
refresh_from casefold lookup enforced fallback_ttl none state = none
refresh_from casefold lookup enforced fallback_ttl (some items) state =
    some (refresh_items casefold lookup enforced fallback_ttl items state)

refresh_if_empty : Dict Text → Option (Folded × Cache) → Folded × Cache → Option (Folded × Cache)
refresh_if_empty [] refreshed state = refreshed
refresh_if_empty (n ∷ names) refreshed state = some state

-- Nothing is done where the names are there; an answer that has no list of teams is an empty one.
unfoldable pub refresh_team_cache :
    (Text → Text)
    → (lookup enforced : Bool) (fallback_ttl : ℕ) → Option (List (Option TeamItem))
    → Folded × Cache
    → Option (Folded × Cache)
unfolding refresh_from refresh_if_empty
refresh_team_cache casefold lookup enforced fallback_ttl answer state =
    refresh_if_empty state.0.team_name_by_folded
      (refresh_from casefold lookup enforced fallback_ttl answer state) state
