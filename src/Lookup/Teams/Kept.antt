-- ===== src/Lookup/Teams/Kept.antt =====
-- lookup/base.py, cache_team: the rows of teams and their ids that it writes and leaves.
use thaum.Prelude.{
  ℕ, ◌≡◌, refl, ap, ◌∙◌, Bool, true, false, ◌&&◌, Option, none, some, List, if-elim,
}
use thaum.Text.{Text, text_eq, text_eq_refl, truthy}
use thaum.Table.{find_row}
use thaum.Table.Laws.{find_row-add_row}
use thaum.Identity.{ThaumTeam}
use thaum.Lookup.Cache.{TeamRow, TeamPlatformIdRow, Cache, of_team, of_team_platform_id}
use thaum.Lookup.Teams.{
  get_team_by_name, by_platform_row, get_team_by_id, merge_team_row, add_team_id, team_id_rows,
  cache_team,
}
use thaum.Lookup.Teams.Snapshot.{snapshot_row, merge_team_row-find, cache_team-some}
use thaum.Lookup.Teams.Platform.{team_id_rows-find, merge_team_row-find_other}

team_id_rows-keeps :
    (p : TeamPlatformIdRow → Bool) (name : Text) (mapping : Option (Text × Text))
    (ids : List TeamPlatformIdRow) (r : TeamPlatformIdRow)
    → find_row p ids ≡ some r
    → find_row p (team_id_rows name mapping ids) ≡ some r
unfolding team_id_rows
team_id_rows-keeps p name none ids r e = e
team_id_rows-keeps p name (some (key, tid)) ids r e =
    if-elim (λ rows. find_row p rows ≡ some r) (truthy key && truthy tid)
      (add_team_id name key tid (find_row (of_team_platform_id key tid) ids) ids) ids
      (λ _. kept (find_row (of_team_platform_id key tid) ids)) (λ _. e)
  where
    kept : (o : Option TeamPlatformIdRow) → find_row p (add_team_id name key tid o ids) ≡ some r
    kept (some dup) = unfold add_team_id in e
    kept none = unfold add_team_id in find_row-add_row p _ ids ∙ rw e refl

team_id_rows-free :
    (key tid tid' name : Text) (ids : List TeamPlatformIdRow)
    → text_eq tid' tid ≡ false
    → find_row (of_team_platform_id key tid) ids ≡ none
    → find_row (of_team_platform_id key tid) (team_id_rows name (some (key, tid')) ids) ≡ none
unfolding team_id_rows
team_id_rows-free key tid tid' name ids apart e =
    if-elim (λ rows. find_row (of_team_platform_id key tid) rows ≡ none) (truthy key && truthy tid')
      (add_team_id name key tid' (find_row (of_team_platform_id key tid') ids) ids) ids
      (λ _. kept (find_row (of_team_platform_id key tid') ids)) (λ _. e)
  where
    kept :
        (o : Option TeamPlatformIdRow)
        → find_row (of_team_platform_id key tid) (add_team_id name key tid' o ids) ≡ none
    kept (some dup) = unfold add_team_id in e
    kept none =
        unfold add_team_id in
        find_row-add_row (of_team_platform_id key tid) _ ids ∙ rw (e, text_eq_refl key, apart) refl

module _ (enforced : Bool) (fallback_ttl : ℕ) (mapping : Option (Text × Text)) (team : ThaumTeam)
    (c c' : Cache) (done : cache_team enforced fallback_ttl mapping team c ≡ some c') where
  -- The teams and the ids afterwards.
  pub cache_team-tables :
      (c'.teams
        ≡ merge_team_row
            (snapshot_row fallback_ttl team)
            (find_row (of_team team.team_name) c.teams)
            c.teams)
      × (c'.team_platform_ids ≡ team_id_rows team.team_name mapping c.team_platform_ids)
  cache_team-tables =
      let same = cache_team-some enforced fallback_ttl mapping team c c' done in
      (ap (λ (d : Cache). d.teams) same, ap (λ (d : Cache). d.team_platform_ids) same)

  pub cache_team-row :
      find_row (of_team team.team_name) c'.teams ≡ some (snapshot_row fallback_ttl team)
  cache_team-row = rw (cache_team-tables.0) (
      merge_team_row-find (snapshot_row fallback_ttl team)
        (find_row (of_team team.team_name) c.teams) c.teams refl)

  pub cache_team-keeps_row :
      (other : Text) (row : TeamRow)
      → text_eq team.team_name other ≡ false
      → find_row (of_team other) c.teams ≡ some row
      → find_row (of_team other) c'.teams ≡ some row
  cache_team-keeps_row other row apart e = rw (cache_team-tables.0) (
      merge_team_row-find_other (snapshot_row fallback_ttl team) other
        (find_row (of_team team.team_name) c.teams) c.teams apart
      ∙ e)

  pub cache_team-keeps_id :
      (p : TeamPlatformIdRow → Bool) (r : TeamPlatformIdRow)
      → find_row p c.team_platform_ids ≡ some r
      → find_row p c'.team_platform_ids ≡ some r
  cache_team-keeps_id p r e =
      rw (cache_team-tables.1) (team_id_rows-keeps p team.team_name mapping c.team_platform_ids r e)

module _ (enforced : Bool) (fallback_ttl : ℕ) (key : Text) (team : ThaumTeam) (c c' : Cache) where
  -- An id that nobody has stays free while other ids are stored.
  pub cache_team-free :
      (tid tid' : Text)
      → cache_team enforced fallback_ttl (some (key, tid')) team c ≡ some c'
      → text_eq tid' tid ≡ false
      → find_row (of_team_platform_id key tid) c.team_platform_ids ≡ none
      → find_row (of_team_platform_id key tid) c'.team_platform_ids ≡ none
  cache_team-free tid tid' done apart e =
      rw ((cache_team-tables enforced fallback_ttl (some (key, tid')) team c c' done).1)
        (team_id_rows-free key tid tid' team.team_name c.team_platform_ids apart e)

  -- A free id that is stored leads to the team.
  pub cache_team-id :
      (tid : Text)
      → cache_team enforced fallback_ttl (some (key, tid)) team c ≡ some c'
      → (truthy key && truthy tid) ≡ true
      → find_row (of_team_platform_id key tid) c.team_platform_ids ≡ none
      → find_row (of_team_platform_id key tid) c'.team_platform_ids
        ≡ some (record { platform_key = key; platform_id = tid; team_name = team.team_name })
  cache_team-id tid done given free =
      rw ((cache_team-tables enforced fallback_ttl (some (key, tid)) team c c' done).1)
        (team_id_rows-find team.team_name key tid c.team_platform_ids given free)

-- An id whose row is there leads to the team as its name does.
pub get_team_by_id-row :
    (plugin : Text) (close : Text → List Text → Option Text) (key tid : Text)
    (r : TeamPlatformIdRow) (c : Cache)
    → find_row (of_team_platform_id key tid) c.team_platform_ids ≡ some r
    → truthy r.team_name ≡ true
    → get_team_by_id plugin close key tid c ≡ get_team_by_name plugin close r.team_name c
unfolding get_team_by_id by_platform_row
get_team_by_id-row plugin close key tid r c found named = rw found (rw named refl)
