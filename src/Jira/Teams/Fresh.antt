-- ===== src/Jira/Teams/Fresh.antt =====
-- alerts/plugins/jira/teams.py, refresh_team_cache over lookup/base.py: what it makes of a cached team.
use thaum.Prelude.{
  ℕ, ◌-◌, ◌≡◌, refl, sym, ap, ◌∙◌, subst, Bool, true, false, ◌&&◌, Option, none, some, List, [],
  ◌∷◌, ◌++◌, ltb, if◌then◌else◌, if-elim,
}
use thaum.Text.{Text, codes, text_eq, truthy, strip}
use thaum.Table.{find_row}
use thaum.Identity.{ThaumTeam, default_ttl, is_fresh}
use thaum.Lookup.Cache.{TeamRow, Cache, of_team}
use thaum.Lookup.Teams.{present, get_team_by_name, cache_team}
use thaum.Lookup.Teams.Platform.{get_team_by_name-cache_team_other}
use thaum.Lookup.Teams.Kept.{cache_team-row, cache_team-keeps_row}
use thaum.Jira.Teams.{
  Folded, TeamItem, named_team, or_kept, fold_item, cache_item, refresh_item, refresh_items,
  refresh_from, refresh_if_empty, refresh_team_cache,
}
use thaum.Lookup.Teams.Snapshot.{snapshot_row, get_team_by_name-cache_team}

-- Elements with other names than this one.
abbrev pub HasOtherItems : Text → List (Option TeamItem) → Type 0
HasOtherItems name [] = Unit
HasOtherItems name (none ∷ items) = HasOtherItems name items
HasOtherItems name (some item ∷ items) =
    (text_eq (strip item.team_name) name ≡ false) × HasOtherItems name items

abbrev Holds : Text → (Text → List Text → Option Text) → Text → ThaumTeam → Cache → Type 0
Holds plugin close name t c =
    (row : TeamRow) × (find_row (of_team name) c.teams ≡ some row)
    × (get_team_by_name plugin close name c ≡ some t)

module _ (casefold : Text → Text) (enforced : Bool) (fallback_ttl : ℕ) (plugin : Text)
    (close : Text → List Text → Option Text) where
  or_kept-Holds :
      (name : Text) (t : ThaumTeam) (item : TeamItem) (c : Cache) (o : Option Cache)
      → text_eq (strip item.team_name) name ≡ false
      → Holds plugin close name t c
      → cache_team enforced fallback_ttl
          (some (codes "jira", strip item.team_id))
          (named_team item)
          c
        ≡ o
      → Holds plugin close name t (or_kept c o)
  unfolding or_kept named_team
  or_kept-Holds name t item c none apart holds fails = holds
  or_kept-Holds name t item c (some c') apart (row, there, named) stored =
      let mapping : Option (Text × Text) = some (codes "jira", strip item.team_id) in
      (
        row,
        cache_team-keeps_row enforced fallback_ttl mapping (named_team item) c c' stored name row
            apart there,
        get_team_by_name-cache_team_other plugin close enforced fallback_ttl mapping
              (named_team item) c c' name row stored apart there
            ∙ named,
      )

  cache_item-Holds :
      (name : Text) (t : ThaumTeam) (item : TeamItem) (c : Cache)
      → text_eq (strip item.team_name) name ≡ false
      → Holds plugin close name t c
      → Holds plugin close name t (cache_item true enforced fallback_ttl item c)
  unfolding cache_item
  cache_item-Holds name t item c apart holds = or_kept-Holds name t item c _ apart holds refl

  refresh_item-Holds :
      (name : Text) (t : ThaumTeam) (item : TeamItem) (folded : Folded) (c : Cache)
      → text_eq (strip item.team_name) name ≡ false
      → Holds plugin close name t c
      → Holds plugin close name t
          (refresh_item casefold true enforced fallback_ttl (some item) (folded, c)).1
  unfolding refresh_item
  refresh_item-Holds name t item folded c apart holds =
      if-elim (λ (s : Folded × Cache). Holds plugin close name t s.1)
        (truthy (strip item.team_name) && truthy (strip item.team_id))
        (fold_item casefold item folded, cache_item true enforced fallback_ttl item c) (folded, c)
        (λ _. cache_item-Holds name t item c apart holds) (λ _. holds)

  refresh_items-Holds :
      (name : Text) (t : ThaumTeam) (items : List (Option TeamItem)) (state : Folded × Cache)
      → HasOtherItems name items
      → Holds plugin close name t state.1
      → Holds plugin close name t (refresh_items casefold true enforced fallback_ttl items state).1
  unfolding refresh_items refresh_item
  refresh_items-Holds name t [] state other holds = holds
  refresh_items-Holds name t (none ∷ items) state other holds =
      refresh_items-Holds name t items state other holds
  refresh_items-Holds name t (some item ∷ items) (folded, c) (apart, other) holds =
      refresh_items-Holds name t items
        (refresh_item casefold true enforced fallback_ttl (some item) (folded, c)) other
        (refresh_item-Holds name t item folded c apart holds)

  refresh_items-append :
      (xs ys : List (Option TeamItem)) (state : Folded × Cache)
      → refresh_items casefold true enforced fallback_ttl (xs ++ ys) state
        ≡ refresh_items casefold true enforced fallback_ttl ys
            (refresh_items casefold true enforced fallback_ttl xs state)
  unfolding refresh_items
  refresh_items-append [] ys state = refl
  refresh_items-append (x ∷ xs) ys state =
      refresh_items-append xs ys (refresh_item casefold true enforced fallback_ttl x state)

  -- The snapshot of a team without members commits.
  named_team-stored :
      (item : TeamItem) (c : Cache)
      → (c' : Cache) × (cache_team enforced fallback_ttl
            (some (codes "jira", strip item.team_id))
            (named_team item)
            c
          ≡ some c')
  unfolding cache_team named_team
  named_team-stored item c = (_, refl)

  refresh_item-stored :
      (item : TeamItem) (folded : Folded) (c c' : Cache)
      → truthy (strip item.team_name) ≡ true
      → truthy (strip item.team_id) ≡ true
      → cache_team enforced fallback_ttl
          (some (codes "jira", strip item.team_id))
          (named_team item)
          c
        ≡ some c'
      → (refresh_item casefold true enforced fallback_ttl (some item) (folded, c)).1 ≡ c'
  unfolding refresh_item cache_item or_kept
  refresh_item-stored item folded c c' name_there id_there stored =
      let both : (truthy (strip item.team_name) && truthy (strip item.team_id)) ≡ true =
        rw (name_there, id_there) refl in
      let chosen : Bool → Folded × Cache = λ b.
        if b
        then (fold_item casefold item folded, cache_item true enforced fallback_ttl item c)
        else (folded, c) in
      ap (λ b. (chosen b).1) both ∙ ap (or_kept c) stored

  item-Holds :
      (item : TeamItem) (state : Folded × Cache)
      → truthy (strip item.team_name) ≡ true
      → truthy (strip item.team_id) ≡ true
      → (t : ThaumTeam) × Holds plugin close
          (strip item.team_name)
          t
          (refresh_item casefold true enforced fallback_ttl (some item) state).1
        × (t.members ≡ [])
        × (t.last_cached ≡ item.now)
        × (t.ttl ≡ default_ttl)
  unfolding named_team present
  item-Holds item (folded, c) name_there id_there =
      let mapping : Option (Text × Text) = some (codes "jira", strip item.team_id) in
      let (c', stored) = named_team-stored item c in
      let (t, found, called, clock, ttl, members) =
        get_team_by_name-cache_team plugin close enforced fallback_ttl mapping (named_team item) c
          c' stored in
      (
        t,
        subst (λ d. Holds plugin close (strip item.team_name) t d)
            (sym (refresh_item-stored item folded c c' name_there id_there stored))
            (
              snapshot_row fallback_ttl (named_team item),
              cache_team-row enforced fallback_ttl mapping (named_team item) c c' stored,
              found,
            ),
        members,
        clock,
        ttl,
      )

-- Filling the empty cache of names with a lookup plugin empties the teams that Jira lists: a listed team
-- is then found by its name without members, and counts as fresh for four hours from the clock at its
-- snapshot, so that its members are not fetched before. Its name stands in no later element of the
-- list; name and id are not blank.
pub refresh_team_cache-fresh :
    (casefold : Text → Text) (enforced : Bool) (fallback_ttl : ℕ) (plugin : Text)
    (close : Text → List Text → Option Text) (before after : List (Option TeamItem))
    (item : TeamItem) (folded : Folded) (c : Cache)
    → folded.team_name_by_folded ≡ []
    → truthy (strip item.team_name) ≡ true
    → truthy (strip item.team_id) ≡ true
    → HasOtherItems (strip item.team_name) after
    → (folded' : Folded) × (c' : Cache) × (t : ThaumTeam) × (refresh_team_cache casefold true
          enforced fallback_ttl
          (some (before ++ some item ∷ after))
          (folded, c)
        ≡ some (folded', c'))
      × (get_team_by_name plugin close (strip item.team_name) c' ≡ some t)
      × (t.members ≡ [])
      × ((now : ℕ) → is_fresh now t ≡ ltb (now - item.now) default_ttl)
unfolding refresh_team_cache refresh_from refresh_if_empty is_fresh
refresh_team_cache-fresh casefold enforced fallback_ttl plugin close before after item folded c
      empty name_there id_there other =
    let start = refresh_items casefold true enforced fallback_ttl before (folded, c) in
    let middle = refresh_item casefold true enforced fallback_ttl (some item) start in
    let done = refresh_items casefold true enforced fallback_ttl after middle in
    let (t, holds, members, clock, ttl) =
      item-Holds casefold enforced fallback_ttl plugin close item start name_there id_there in
    let (row, there, found) =
      refresh_items-Holds casefold enforced fallback_ttl plugin close (strip item.team_name) t after
        middle other holds in
    let step : refresh_items casefold true enforced fallback_ttl (some item ∷ after) start ≡ done =
      unfold refresh_items in refl in
    let all_items =
      refresh_items-append casefold enforced fallback_ttl plugin close before (some item ∷ after)
        (folded, c)
      ∙ step in
    (
      done.0,
      done.1,
      t,
      ap
            (λ ns.
              refresh_if_empty ns
                (refresh_from casefold true enforced fallback_ttl
                  (some (before ++ some item ∷ after)) (folded, c))
                (folded, c))
            empty
          ∙ ap some all_items,
      found,
      members,
      (λ now. rw (ttl, clock) refl),
    )
