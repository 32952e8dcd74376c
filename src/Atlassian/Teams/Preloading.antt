-- ===== src/Atlassian/Teams/Preloading.antt =====
-- lookup/plugins/atlassian.py, preload_teams_cache over lookup/base.py: the teams are there afterwards.
use thaum.Prelude.{
  ℕ, ◌+◌, ◌-◌, ◌≤◌, ◌≡◌, refl, sym, ap, ◌∙◌, subst, inl, inr, Bool, true, false, ◌&&◌, Option, none,
  some, List, [], ◌∷◌, ◌++◌, arith, ltb, if◌then◌else◌, Option-cases, length, if-elim,
}
use thaum.Text.{Text, text_eq, truthy, strip}
use thaum.Table.{find_row}
use thaum.Identity.{ThaumTeam, default_ttl, is_fresh}
use thaum.Lookup.Cache.{TeamRow, Cache, of_team, of_team_platform_id}
use thaum.Lookup.Teams.{present, get_team_by_name, get_team_by_id, cache_team}
use thaum.Lookup.Teams.Snapshot.{snapshot_row, get_team_by_name-cache_team}
use thaum.Lookup.Teams.Platform.{get_team_by_name-cache_team_other}
use thaum.Lookup.Teams.Kept.{
  cache_team-row, cache_team-keeps_row, cache_team-keeps_id, cache_team-free, cache_team-id,
  get_team_by_id-row,
}
use thaum.Atlassian.Teams.{
  TeamEntry, no_object, team_entry, TeamAnswer, atlassian, jira, preloaded_team, Preloaded, counted,
  preload_entry, preload_entries, preload_teams_cache,
}
use thaum.Atlassian.Teams.Pages.{
  PagesFrom, all_entries, preload_entries-append, preload_teams_cache-PagesFrom,
}

abbrev IsFree : Text → Cache → Type 0
IsFree tid c = find_row (of_team_platform_id jira tid) c.team_platform_ids ≡ none

-- Entries under other ids than this one.
abbrev pub HasOtherId : Text → List TeamEntry → Type 0
HasOtherId tid [] = Unit
HasOtherId tid (no_object ∷ entries) = HasOtherId tid entries
HasOtherId tid (team_entry id name ∷ entries) =
    (text_eq (strip id) tid ≡ false) × HasOtherId tid entries

-- Entries with other names than this one.
abbrev pub HasOtherName : Text → List TeamEntry → Type 0
HasOtherName display [] = Unit
HasOtherName display (no_object ∷ entries) = HasOtherName display entries
HasOtherName display (team_entry id name ∷ entries) =
    (text_eq (strip name) display ≡ false) × HasOtherName display entries

-- The cache leads from the id to the team by its name.
abbrev IsKnown : (Text → List Text → Option Text) → Text → Text → ThaumTeam → Cache → Type 0
IsKnown close tid display t c =
    (row : TeamRow) × (find_row (of_team display) c.teams ≡ some row)
    × (find_row (of_team_platform_id jira tid) c.team_platform_ids
        ≡ some (record { platform_key = jira; platform_id = tid; team_name = display }))
    × (get_team_by_name atlassian close display c ≡ some t)

module _ (enforced : Bool) (fallback_ttl : ℕ) where
  counted-IsFree :
      (tid : Text) (team : ThaumTeam) (tid' : Text) (done : Preloaded)
      → text_eq tid' tid ≡ false
      → IsFree tid done.0
      → IsFree tid
          (counted done (cache_team enforced fallback_ttl (some (jira, tid')) team done.0)).0
  unfolding counted
  counted-IsFree tid team tid' done apart free =
      elim (Option-cases (cache_team enforced fallback_ttl (some (jira, tid')) team done.0)) [
        | inl fails ↦ rw fails free
        | inr (c', stored) ↦
            rw stored
              (cache_team-free enforced fallback_ttl jira team done.0 c' tid tid' stored apart free)
      ]

  preload_entries-IsFree :
      (tid : Text) (entries : List TeamEntry) (done : Preloaded)
      → HasOtherId tid entries
      → IsFree tid done.0
      → IsFree tid (preload_entries enforced fallback_ttl entries done).0
  unfolding preload_entries preload_entry
  preload_entries-IsFree tid [] done other free = free
  preload_entries-IsFree tid (no_object ∷ entries) done other free =
      preload_entries-IsFree tid entries done other free
  preload_entries-IsFree tid (team_entry id name ∷ entries) done (apart, other) free =
      preload_entries-IsFree tid entries
        (preload_entry enforced fallback_ttl (team_entry id name) done) other
        (if-elim (λ (d : Preloaded). IsFree tid d.0) (truthy (strip id) && truthy (strip name))
          (counted done (
            cache_team enforced fallback_ttl (some (jira, strip id))
              (preloaded_team (strip name) (strip id)) done.0))
          done
          (λ _.
            counted-IsFree tid (preloaded_team (strip name) (strip id)) (strip id) done apart free)
          (λ _. free))

  module _ (close : Text → List Text → Option Text) (tid display : Text) (t : ThaumTeam) where
    counted-IsKnown :
        (team : ThaumTeam) (tid' : Text) (done : Preloaded)
        → text_eq team.team_name display ≡ false
        → IsKnown close tid display t done.0
        → IsKnown close tid display t
            (counted done (cache_team enforced fallback_ttl (some (jira, tid')) team done.0)).0
    unfolding counted
    counted-IsKnown team tid' done apart (row, there, id_row, named) =
        elim (Option-cases (cache_team enforced fallback_ttl (some (jira, tid')) team done.0)) [
          | inl fails ↦ rw fails (row, there, id_row, named)
          | inr (c', stored) ↦ rw stored (
            row,
            cache_team-keeps_row enforced fallback_ttl (some (jira, tid')) team done.0 c' stored
                display row apart there,
            cache_team-keeps_id enforced fallback_ttl (some (jira, tid')) team done.0 c' stored
                (of_team_platform_id jira tid) _ id_row,
            get_team_by_name-cache_team_other atlassian close enforced fallback_ttl
                  (some (jira, tid')) team done.0 c' display row stored apart there
                ∙ named,
          )
        ]

    preload_entries-IsKnown :
        (entries : List TeamEntry) (done : Preloaded)
        → HasOtherName display entries
        → IsKnown close tid display t done.0
        → IsKnown close tid display t (preload_entries enforced fallback_ttl entries done).0
    unfolding preload_entries preload_entry preloaded_team
    preload_entries-IsKnown [] done other known = known
    preload_entries-IsKnown (no_object ∷ entries) done other known =
        preload_entries-IsKnown entries done other known
    preload_entries-IsKnown (team_entry id name ∷ entries) done (apart, other) known =
        preload_entries-IsKnown entries
          (preload_entry enforced fallback_ttl (team_entry id name) done) other
          (if-elim (λ (d : Preloaded). IsKnown close tid display t d.0)
            (truthy (strip id) && truthy (strip name))
            (counted done (
              cache_team enforced fallback_ttl (some (jira, strip id))
                (preloaded_team (strip name) (strip id)) done.0))
            done
            (λ _.
              counted-IsKnown (preloaded_team (strip name) (strip id)) (strip id) done apart known)
            (λ _. known))

  -- The snapshot of a preloaded team commits.
  preloaded_team-stored :
      (display tid : Text) (c : Cache)
      → (c' : Cache) × (cache_team enforced fallback_ttl
            (some (jira, tid))
            (preloaded_team display tid)
            c
          ≡ some c')
  unfolding cache_team preloaded_team
  preloaded_team-stored display tid c = (_, refl)

  preload_entry-stored :
      (id name : Text) (done : Preloaded) (c' : Cache)
      → truthy (strip id) ≡ true
      → truthy (strip name) ≡ true
      → cache_team enforced fallback_ttl
          (some (jira, strip id))
          (preloaded_team (strip name) (strip id))
          done.0
        ≡ some c'
      → preload_entry enforced fallback_ttl (team_entry id name) done ≡ (c', done.1 + 1)
  unfolding preload_entry counted
  preload_entry-stored id name done c' id_there name_there stored =
      let both : (truthy (strip id) && truthy (strip name)) ≡ true =
        rw (id_there, name_there) refl in
      ap
        (λ b.
          if b
          then counted done (
              cache_team enforced fallback_ttl (some (jira, strip id))
                (preloaded_team (strip name) (strip id)) done.0)
          else done)
        both
      ∙ ap (counted done) stored

  -- What storing the entry itself gives.
  stored-IsKnown :
      (close : Text → List Text → Option Text) (id name : Text) (done : Preloaded)
      → truthy (strip id) ≡ true
      → truthy (strip name) ≡ true
      → IsFree (strip id) done.0
      → (t : ThaumTeam) × IsKnown close
          (strip id)
          (strip name)
          t
          (preload_entry enforced fallback_ttl (team_entry id name) done).0
        × (t.members ≡ [])
        × (t.last_cached ≡ 0)
        × (t.ttl ≡ default_ttl)
  unfolding preloaded_team present
  stored-IsKnown close id name done id_there name_there free =
      let (c', stored) = preloaded_team-stored (strip name) (strip id) done.0 in
      let team = preloaded_team (strip name) (strip id) in
      let (t, found, called, clock, ttl, members) =
        get_team_by_name-cache_team atlassian close enforced fallback_ttl (some (jira, strip id))
          team done.0 c' stored in
      (
        t,
        subst (λ (d : Preloaded). IsKnown close (strip id) (strip name) t d.0)
            (sym (preload_entry-stored id name done c' id_there name_there stored))
            (
              snapshot_row fallback_ttl team,
              cache_team-row enforced fallback_ttl (some (jira, strip id)) team done.0 c' stored,
              cache_team-id enforced fallback_ttl jira team done.0 c' (strip id) stored id_there
                  free,
              found,
            ),
        members,
        clock,
        ttl,
      )

-- After a preload of a server whose pages come to an end (with fuel for each), a team that stands on
-- one of them is found by its Jira id, without members and stale from four hours after the epoch on, so
-- that its members are fetched on first use. Its id was not known before, and stands in no entry before
-- it; its name stands in no entry after it. Id and name are not blank.
pub preload_teams_cache-found :
    (n : ℕ) (enforced : Bool) (fallback_ttl : ℕ) (close : Text → List Text → Option Text)
    (ask : Option Text → TeamAnswer) (c : Cache) (batches : List (List TeamEntry))
    (before after : List TeamEntry) (id name : Text)
    → PagesFrom ask none batches
    → length batches ≤ n
    → all_entries batches ≡ before ++ team_entry id name ∷ after
    → truthy (strip id) ≡ true
    → truthy (strip name) ≡ true
    → find_row (of_team_platform_id jira (strip id)) c.team_platform_ids ≡ none
    → HasOtherId (strip id) before
    → HasOtherName (strip name) after
    → (done : Preloaded) × (t : ThaumTeam) × (preload_teams_cache n enforced fallback_ttl ask c
        ≡ some (true, done))
      × (get_team_by_id atlassian close jira (strip id) done.0 ≡ some t)
      × (t.members ≡ [])
      × ((now : ℕ) → is_fresh now t ≡ ltb now default_ttl)
unfolding is_fresh
preload_teams_cache-found n enforced fallback_ttl close ask c batches before after id name pages
      enough split id_there name_there free other_id other_name =
    let start = preload_entries enforced fallback_ttl before (c, 0) in
    let middle = preload_entry enforced fallback_ttl (team_entry id name) start in
    let done = preload_entries enforced fallback_ttl after middle in
    let (t, known, members, clock, ttl) =
      stored-IsKnown enforced fallback_ttl close id name start id_there name_there
        (preload_entries-IsFree enforced fallback_ttl (strip id) before (c, 0) other_id free) in
    let (row, there, id_row, by_name) =
      preload_entries-IsKnown enforced fallback_ttl close (strip id) (strip name) t after middle
        other_name known in
    let step : preload_entries enforced fallback_ttl (team_entry id name ∷ after) start ≡ done =
      unfold preload_entries in refl in
    (
      done,
      t,
      preload_teams_cache-PagesFrom n enforced fallback_ttl ask c batches pages enough
          ∙ ap (λ entries. some (true, preload_entries enforced fallback_ttl entries (c, 0))) split
          ∙ ap (λ (d : Preloaded). some (true, d))
              (preload_entries-append enforced fallback_ttl before (team_entry id name ∷ after)
                  (c, 0)
                ∙ step),
      get_team_by_id-row atlassian close jira (strip id) _ done.0 id_row name_there ∙ by_name,
      members,
      (λ now.
          let same : now - 0 ≡ now = omega arith in
          rw (ttl, clock) (ap (λ k. ltb k default_ttl) same)),
    )
