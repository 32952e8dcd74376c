-- ===== src/Lookup/Teams.antt =====
-- The teams of `BaseLookupPlugin`: reading a cached team, storing a snapshot, refreshing it.
--
-- `difflib.get_close_matches` on the cached names is the parameter `close`. `none` as a result of
-- `cache_team` and of what calls it is an exception: the transaction of the snapshot is rolled
-- back, when two members have the same email (the primary key of the member table) or, where the
-- database enforces foreign keys, when a member has no person. The clock is an argument.
pub mod Snapshot
pub mod Platform
pub mod Refreshing
pub mod Kept
mod Tests
use thaum.Prelude.{ℕ, Bool, not, ◌&&◌, Option, none, some, List, [], ◌∷◌, map, ◌==◌, if◌then◌else◌}
use thaum.Text.{Text, codes, text_eq, truthy, or_else, strip, lower}
use thaum.Table.{find_row, rows_where, update_row, add_row, delete_where}
use thaum.Identity.{ThaumPerson, ThaumTeam, Refresh, fetched, failed}
use thaum.Lookup.Cache.{
  PersonRow, TeamRow, TeamMemberRow, TeamPlatformIdRow, Cache, of_email, of_team, member_of,
  id_of_team, of_team_platform_id,
}
use thaum.Lookup.People.{person_by_email, merge_person}

-- The first non-blank platform id of the rows, and the first under the key `jira`: the scan stops
-- there. `casefold` of the key is compared with an ASCII word, for which `lower` is the same.
scan_ids : List TeamPlatformIdRow → Text → Text × Text
unfolding strip lower text_eq
scan_ids [] fallback = ([], fallback)
scan_ids (r ∷ rs) fallback =
    let pid = strip r.platform_id in
    let fallback' = or_else fallback pid in
    let later = scan_ids rs fallback' in
    if truthy pid && text_eq (lower (strip r.platform_key)) (codes "jira")
    then (pid, fallback')
    else later

opt_text : Text → Option Text
opt_text [] = none
opt_text (c ∷ s) = some (c ∷ s)

-- The people of the member rows, those without a person left out.
unfoldable pub present : List (Option ThaumPerson) → List ThaumPerson
present [] = []
present (none ∷ os) = present os
present (some p ∷ os) = p ∷ present os

pub emails_of : List TeamMemberRow → List Text
emails_of = map (λ r. r.email)

module _ (plugin : Text) where
  pub cached_members : Text → Cache → List ThaumPerson
  unfolding present emails_of rows_where person_by_email
  cached_members name c = present (
      map (λ e. person_by_email plugin e c)
        (emails_of (rows_where (member_of name) c.team_members)))

  team_of_row : Cache → TeamRow → ThaumTeam
  unfolding scan_ids opt_text cached_members rows_where
  team_of_row c row =
      let (jira, fallback) =
        scan_ids (rows_where (id_of_team row.team_name) c.team_platform_ids) [] in
      record {
        team_name = row.team_name;
        lookup_id = opt_text (or_else jira fallback);
        alert_id = opt_text jira;
        members = cached_members row.team_name c;
        last_cached = row.last_cached;
        ttl = row.ttl;
      }

  found_team : Cache → Option TeamRow → Option ThaumTeam
  found_team c none = none
  found_team c (some row) = some (team_of_row c row)

  close_row : (Text → List Text → Option Text) → Text → Cache → Option TeamRow → Option TeamRow
  unfolding find_row
  close_row close name c (some row) = some row
  close_row close name c none = elim (close name (map (λ r. r.team_name) c.teams)) [
    | none ↦ none
    | some key ↦ find_row (of_team key) c.teams
  ]

  unfoldable pub get_team_by_name :
      (Text → List Text → Option Text) → Text → Cache → Option ThaumTeam
  unfolding found_team team_of_row close_row find_row
  get_team_by_name close name c =
      found_team c (close_row close name c (find_row (of_team name) c.teams))

  by_platform_row :
      (Text → List Text → Option Text) → Cache → Option TeamPlatformIdRow → Option ThaumTeam
  unfolding get_team_by_name
  by_platform_row close c none = none
  by_platform_row close c (some r) =
      if truthy r.team_name then get_team_by_name close r.team_name c else none

  unfoldable pub get_team_by_id :
      (Text → List Text → Option Text) → Text → Text → Cache → Option ThaumTeam
  unfolding by_platform_row find_row
  get_team_by_id close bot_plugin_name team_id c =
      by_platform_row close c
        (find_row (of_team_platform_id bot_plugin_name team_id) c.team_platform_ids)

-- `session.merge(SchemaTeam(...))`.
pub merge_team_row : TeamRow → Option TeamRow → List TeamRow → List TeamRow
unfolding add_row update_row
merge_team_row new none teams = add_row new teams
merge_team_row new (some old) teams = update_row (of_team new.team_name) (λ _. new) teams

-- The inserts of the member rows, into a table from which those of the team are gone.
insert_members :
    (enforced : Bool) (team_name : Text) (members : List ThaumPerson) (people : List PersonRow)
    (rows : List TeamMemberRow)
    → Option (List TeamMemberRow)
unfolding find_row add_row
insert_members enforced name [] people rows = some rows
insert_members enforced name (m ∷ ms) people rows =
    let rest =
      insert_members enforced name ms people
        (add_row (record { team_name = name; email = m.email }) rows) in
    elim (find_row (λ (r : TeamMemberRow). text_eq r.team_name name && text_eq r.email m.email)
      rows) [
        | some dup ↦ none
        | none ↦ elim (find_row (of_email m.email) people) [
          | some p ↦ rest
          | none ↦ if enforced then none else rest
        ]
      ]

add_team_id :
    Text → Text → Text → Option TeamPlatformIdRow → List TeamPlatformIdRow → List TeamPlatformIdRow
unfolding add_row
add_team_id name key tid none ids =
    add_row (record { platform_key = key; platform_id = tid; team_name = name }) ids
add_team_id name key tid (some dup) ids = ids

-- `bot_plugin_name` and `team_id`, both given and not empty.
pub team_id_rows : Text → Option (Text × Text) → List TeamPlatformIdRow → List TeamPlatformIdRow
unfolding add_team_id find_row
team_id_rows name none ids = ids
team_id_rows name (some (key, tid)) ids =
    if truthy key && truthy tid
    then add_team_id name key tid (find_row (of_team_platform_id key tid) ids) ids
    else ids

stored : ThaumTeam → ℕ → Option (Text × Text) → Cache → Option (List TeamMemberRow) → Option Cache
stored team fallback_ttl mapping c none = none
stored team fallback_ttl mapping c (some members) = some (record c {
  teams =
      merge_team_row
        (record {
          team_name = team.team_name;
          last_cached = team.last_cached;
          ttl = if team.ttl == 0 then fallback_ttl else team.ttl;
        })
        (find_row (of_team team.team_name) c.teams) c.teams;
  team_members = members;
  team_platform_ids = team_id_rows team.team_name mapping c.team_platform_ids;
})

unfoldable pub cache_team :
    (enforced : Bool) (fallback_ttl : ℕ) (mapping : Option (Text × Text))
    → ThaumTeam
    → Cache
    → Option Cache
unfolding stored merge_team_row insert_members team_id_rows delete_where find_row
cache_team enforced fallback_ttl mapping team c = stored team fallback_ttl mapping c (
    insert_members enforced team.team_name team.members c.people
      (delete_where (member_of team.team_name) c.team_members))

-- The loop of `merge_team` over the members: the cache afterwards, and the merged members.
merge_members : Text → ℕ → List ThaumPerson → Cache → Cache × List ThaumPerson
unfolding merge_person person_by_email
merge_members plugin now [] c = (c, [])
merge_members plugin now (m ∷ ms) c =
    let c' = merge_person now m c in
    let rest = merge_members plugin now ms c' in
    (rest.0, elim (person_by_email plugin m.email c') [ none ↦ m | some p ↦ p ] ∷ rest.1)

-- `merge_team`: the team object that the method leaves, the cache that the merges of the members
-- leave, and the cache with the snapshot, or `none` where `cache_team` raises.
pub record MergedTeam : Type 0 where
  pub team : ThaumTeam
  pub members_merged : Cache
  pub result : Option Cache

unfoldable pub merge_team :
    (plugin : Text) (enforced : Bool) (fallback_ttl now : ℕ) (mapping : Option (Text × Text))
    → ThaumTeam
    → Cache
    → MergedTeam
unfolding merge_members cache_team
merge_team plugin enforced fallback_ttl now mapping team c =
    let (c', merged) = merge_members plugin now team.members c in
    let team' : ThaumTeam = record team {
      members = merged;
      last_cached = now;
      ttl = if team.ttl == 0 then fallback_ttl else team.ttl;
    } in
    record {
      team = team';
      members_merged = c';
      result = cache_team enforced fallback_ttl mapping team' c';
    }

-- `lookup_team_members`: `fetch_team_members` of the plugin is the parameter `fetched`, `none` where
-- it raises. The cache afterwards, and what happens to the team object.
after_merge : MergedTeam → Cache × Refresh
after_merge m = elim m.result [
  | none ↦ (m.members_merged, failed m.team)
  | some c ↦ (c, fetched m.team m.team.members)
]

unfoldable pub lookup_team_members :
    (plugin : Text) (enforced : Bool) (fallback_ttl now : ℕ) (answer : Option (List ThaumPerson))
    → ThaumTeam
    → Cache
    → Cache × Refresh
unfolding merge_team after_merge
lookup_team_members plugin enforced fallback_ttl now none team c = (c, failed team)
lookup_team_members plugin enforced fallback_ttl now (some new) team c =
    after_merge (merge_team plugin enforced fallback_ttl now none (record team { members = new }) c)
