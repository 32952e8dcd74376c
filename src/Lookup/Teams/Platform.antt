-- ===== src/Lookup/Teams/Platform.antt =====
-- Teams by platform id, and what storing one team leaves of the others.
use thaum.Prelude.{
  ℕ, ◌≡◌, refl, ap, ◌∙◌, inl, inr, Bool, true, false, ◌&&◌, Option, none, some, List, [], ◌∷◌, ◌++◌,
  map, append-nil, arith, Bool-cases,
}
use thaum.Text.{Text, text_eq, text_eq_iff, text_eq_refl, truthy}
use thaum.Table.{find_row, rows_where, add_row, delete_where}
use thaum.Table.Laws.{
  find_row_sound, find_row-add_row, find_row-update_row_other, rows_where-append,
  rows_where-delete_where_other,
}
use thaum.Identity.{ThaumPerson, ThaumTeam}
use thaum.Lookup.Cache.{
  TeamRow, TeamMemberRow, TeamPlatformIdRow, Cache, of_team, member_of, id_of_team,
  of_team_platform_id,
}
use thaum.Lookup.Teams.{
  cached_members, team_of_row, get_team_by_name, by_platform_row, get_team_by_id, merge_team_row,
  add_team_id, team_id_rows, cache_team,
}
use thaum.Lookup.Teams.Snapshot.{row_for, snapshot_row, snapshot, kept_rows, cache_team-some}
use thaum.Lookup.People.{person_by_email}

pub team_id_rows-find :
    (name key tid : Text) (ids : List TeamPlatformIdRow)
    → (truthy key && truthy tid) ≡ true
    → find_row (of_team_platform_id key tid) ids ≡ none
    → find_row (of_team_platform_id key tid) (team_id_rows name (some (key, tid)) ids)
      ≡ some (record { platform_key = key; platform_id = tid; team_name = name })
team_id_rows-find name key tid ids given free =
    unfold team_id_rows add_team_id in
    rw (given, free)
      (find_row-add_row (of_team_platform_id key tid) _ ids
        ∙ rw (free, text_eq_refl key, text_eq_refl tid))

-- A team that was stored under a platform id which no team had is found by that id exactly as it is
-- found by its name.
pub get_team_by_id-cache_team :
    (plugin : Text) (close : Text → List Text → Option Text) (enforced : Bool) (fallback_ttl : ℕ)
    (key tid : Text) (team : ThaumTeam) (c c' : Cache)
    → cache_team enforced fallback_ttl (some (key, tid)) team c ≡ some c'
    → truthy team.team_name ≡ true
    → (truthy key && truthy tid) ≡ true
    → find_row (of_team_platform_id key tid) c.team_platform_ids ≡ none
    → get_team_by_id plugin close key tid c' ≡ get_team_by_name plugin close team.team_name c'
get_team_by_id-cache_team plugin close enforced fallback_ttl key tid team c c' done named given
      free =
    rw (cache_team-some enforced fallback_ttl (some (key, tid)) team c c' done) (
      unfold get_team_by_id by_platform_row in
      rw (team_id_rows-find team.team_name key tid c.team_platform_ids given free) (rw named))

rows_where-rows_for_other :
    (name other : Text) (ms : List ThaumPerson)
    → text_eq name other ≡ false
    → rows_where (member_of other) (map (row_for name) ms) ≡ []
unfolding rows_where row_for
rows_where-rows_for_other name other [] apart = refl
rows_where-rows_for_other name other (m ∷ ms) apart =
    rw apart (rows_where-rows_for_other name other ms apart)

pub merge_team_row-find_other :
    (new : TeamRow) (other : Text) (o : Option TeamRow) (teams : List TeamRow)
    → text_eq new.team_name other ≡ false
    → find_row (of_team other) (merge_team_row new o teams) ≡ find_row (of_team other) teams
merge_team_row-find_other new other none teams apart =
    unfold merge_team_row in find_row-add_row (of_team other) new teams ∙ ground arith
merge_team_row-find_other new other (some old) teams apart =
    unfold merge_team_row in
    find_row-update_row_other (of_team new.team_name) (of_team other) (λ _. new) teams
      (λ r h. (
        ground (
          arith,
          text_eq_iff r.team_name new.team_name,
          text_eq_iff r.team_name other,
          text_eq_iff new.team_name other,
        ),
        apart,
      ))

team_id_rows-other :
    (name other : Text) (mapping : Option (Text × Text)) (ids : List TeamPlatformIdRow)
    → text_eq name other ≡ false
    → rows_where (id_of_team other) (team_id_rows name mapping ids)
      ≡ rows_where (id_of_team other) ids
team_id_rows-other name other none ids apart = unfold team_id_rows in refl
team_id_rows-other name other (some (key, tid)) ids apart =
    unfold team_id_rows in
    elim (Bool-cases (truthy key && truthy tid)) [
      | inr skip ↦ rw skip
      | inl given ↦ rw given (added (find_row (of_team_platform_id key tid) ids))
    ]
  where
    added :
        (o : Option TeamPlatformIdRow)
        → rows_where (id_of_team other) (add_team_id name key tid o ids)
          ≡ rows_where (id_of_team other) ids
    added (some dup) = unfold add_team_id in refl
    added none =
        unfold add_team_id add_row in
        rows_where-append (id_of_team other) ids _ ∙ (unfold rows_where in rw apart (append-nil _))

-- The rows of another team are its own before and after.
members_other :
    (name other : Text) (ms : List ThaumPerson) (rows : List TeamMemberRow)
    → text_eq name other ≡ false
    → rows_where (member_of other) (delete_where (member_of name) rows ++ map (row_for name) ms)
      ≡ rows_where (member_of other) rows
members_other name other ms rows apart =
    rows_where-append (member_of other) (delete_where (member_of name) rows) _
    ∙ rw (rows_where-rows_for_other name other ms apart) (
        append-nil _
        ∙ rows_where-delete_where_other (member_of name) (member_of other) rows (λ r h. ground (
          arith,
          text_eq_iff r.team_name name,
          text_eq_iff r.team_name other,
          text_eq_iff name other,
        )))

team_of_row-other :
    (plugin : Text) (fallback_ttl : ℕ) (mapping : Option (Text × Text)) (team : ThaumTeam)
    (c : Cache) (row : TeamRow)
    → text_eq team.team_name row.team_name ≡ false
    → team_of_row plugin
        (snapshot fallback_ttl mapping team c
          (kept_rows team c ++ map (row_for team.team_name) team.members))
        row
      ≡ team_of_row plugin c row
unfolding team_of_row cached_members person_by_email
team_of_row-other plugin fallback_ttl mapping team c row apart = rw (
  team_id_rows-other team.team_name row.team_name mapping c.team_platform_ids apart,
  members_other team.team_name row.team_name team.members c.team_members apart,
)

-- Storing a snapshot of one team changes nothing about another team that is cached: the lookup by
-- that team's name returns what it returned.
pub get_team_by_name-cache_team_other :
    (plugin : Text) (close : Text → List Text → Option Text) (enforced : Bool) (fallback_ttl : ℕ)
    (mapping : Option (Text × Text)) (team : ThaumTeam) (c c' : Cache) (other : Text)
    (row : TeamRow)
    → cache_team enforced fallback_ttl mapping team c ≡ some c'
    → text_eq team.team_name other ≡ false
    → find_row (of_team other) c.teams ≡ some row
    → get_team_by_name plugin close other c' ≡ get_team_by_name plugin close other c
get_team_by_name-cache_team_other plugin close enforced fallback_ttl mapping team c c' other row
      done apart known =
    let same : row.team_name ≡ other =
      (text_eq_iff row.team_name other).0 (find_row_sound (of_team other) c.teams row known) in
    let still =
      merge_team_row-find_other (snapshot_row fallback_ttl team) other
        (find_row (of_team team.team_name) c.teams) c.teams apart
      ∙ known in
    rw (cache_team-some enforced fallback_ttl mapping team c c' done) (
      unfold get_team_by_name in
      rw (still, known)
        (ap some (team_of_row-other plugin fallback_ttl mapping team c row (rw same apart))))
