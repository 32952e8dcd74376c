-- ===== src/Lookup/Teams/Snapshot.antt =====
-- A stored snapshot of a team is what the next lookup by its name returns.
use mathlib.Core.List.{map-map}
use thaum.Prelude.{
  ℕ, ◌≡◌, refl, sym, ap, ◌∙◌, Bool, Option, none, some, List, [], ◌∷◌, ◌++◌, map, append-nil,
  append_assoc, arith, ◌==◌, if◌then◌else◌,
}
use thaum.Text.{Text, text_eq_refl}
use thaum.Table.{find_row, rows_where, add_row, delete_where}
use thaum.Identity.{ThaumPerson, ThaumTeam}
use thaum.Lookup.Cache.{PersonRow, TeamRow, TeamMemberRow, Cache, of_team, member_of}
use thaum.Lookup.Teams.{
  present, emails_of, cached_members, team_of_row, get_team_by_name, merge_team_row, insert_members,
  team_id_rows, stored, cache_team,
}
use thaum.Table.Laws.{
  find_row-add_row, find_row-update_row, rows_where-append, rows_where-delete_where,
}
use thaum.Lookup.People.{person_by_email}

unfoldable pub row_for : Text → ThaumPerson → TeamMemberRow
row_for name m = record { team_name = name; email = m.email }

insert_members-some :
    (enforced : Bool) (name : Text) (ms : List ThaumPerson) (people : List PersonRow)
    (rows rows' : List TeamMemberRow)
    → insert_members enforced name ms people rows ≡ some rows'
    → rows' ≡ rows ++ map (row_for name) ms
unfolding insert_members row_for
insert_members-some enforced name [] people rows rows' h =
    let same : rows ≡ rows' = ground arith in sym same ∙ sym (append-nil rows)
insert_members-some enforced name (m ∷ ms) people rows rows' h =
    let more : List TeamMemberRow = add_row (record { team_name = name; email = m.email }) rows in
    let rest : insert_members enforced name ms people more ≡ some rows' = ground arith in
    insert_members-some enforced name ms people more rows' rest
    ∙ (unfold add_row in append_assoc rows (record { team_name = name; email = m.email } ∷ []) _)

rows_where-rows_for :
    (name : Text) (ms : List ThaumPerson)
    → rows_where (member_of name) (map (row_for name) ms) ≡ map (row_for name) ms
unfolding rows_where row_for
rows_where-rows_for name [] = refl
rows_where-rows_for name (m ∷ ms) =
    rw (text_eq_refl name) (ap (λ t. row_for name m ∷ t) (rows_where-rows_for name ms))

emails_of-rows_for :
    (name : Text) (ms : List ThaumPerson)
    → emails_of (map (row_for name) ms) ≡ map (λ m. m.email) ms
unfolding emails_of row_for
emails_of-rows_for name [] = refl
emails_of-rows_for name (m ∷ ms) = ap (λ t. m.email ∷ t) (emails_of-rows_for name ms)

-- The team row that a snapshot leaves.
abbrev pub snapshot_row : ℕ → ThaumTeam → TeamRow
snapshot_row fallback_ttl team = record {
  team_name = team.team_name;
  last_cached = team.last_cached;
  ttl = if team.ttl == 0 then fallback_ttl else team.ttl;
}

pub merge_team_row-find :
    (new : TeamRow) (o : Option TeamRow) (teams : List TeamRow)
    → find_row (of_team new.team_name) teams ≡ o
    → find_row (of_team new.team_name) (merge_team_row new o teams) ≡ some new
merge_team_row-find new none teams e =
    unfold merge_team_row in
    find_row-add_row (of_team new.team_name) new teams ∙ rw (e, text_eq_refl new.team_name)
merge_team_row-find new (some old) teams e =
    unfold merge_team_row in
    find_row-update_row (of_team new.team_name) (λ _. new) teams (λ r h. text_eq_refl new.team_name)
    ∙ rw e

-- What the transaction has written, if it commits.
abbrev pub snapshot : ℕ → Option (Text × Text) → ThaumTeam → Cache → List TeamMemberRow → Cache
snapshot fallback_ttl mapping team c members = record c {
  teams =
      merge_team_row (snapshot_row fallback_ttl team) (find_row (of_team team.team_name) c.teams)
        c.teams;
  team_members = members;
  team_platform_ids = team_id_rows team.team_name mapping c.team_platform_ids;
}

stored-some :
    (fallback_ttl : ℕ) (mapping : Option (Text × Text)) (team : ThaumTeam) (c c' : Cache)
    (o : Option (List TeamMemberRow))
    → stored team fallback_ttl mapping c o ≡ some c'
    → (rows : List TeamMemberRow) × (o ≡ some rows)
      × (c' ≡ snapshot fallback_ttl mapping team c rows)
stored-some fallback_ttl mapping team c c' none h = unfold stored in cc
stored-some fallback_ttl mapping team c c' (some rows) h =
    (rows, refl, (unfold stored in ground arith))

abbrev pub kept_rows : ThaumTeam → Cache → List TeamMemberRow
kept_rows team c = delete_where (member_of team.team_name) c.team_members

pub cache_team-some :
    (enforced : Bool) (fallback_ttl : ℕ) (mapping : Option (Text × Text)) (team : ThaumTeam)
    (c c' : Cache)
    → cache_team enforced fallback_ttl mapping team c ≡ some c'
    → c'
      ≡ snapshot fallback_ttl mapping team c
          (kept_rows team c ++ map (row_for team.team_name) team.members)
unfolding cache_team
cache_team-some enforced fallback_ttl mapping team c c' done =
    let (rows, inserted, same) = stored-some fallback_ttl mapping team c c' _ done in
    same
    ∙ ap (snapshot fallback_ttl mapping team c) (
        insert_members-some enforced team.team_name team.members c.people (kept_rows team c) rows
          inserted)

snapshot_members :
    (plugin : Text) (fallback_ttl : ℕ) (mapping : Option (Text × Text)) (team : ThaumTeam)
    (c : Cache)
    → cached_members plugin team.team_name (
        snapshot fallback_ttl mapping team c
          (kept_rows team c ++ map (row_for team.team_name) team.members))
      ≡ present (map (λ m. person_by_email plugin m.email c) team.members)
snapshot_members plugin fallback_ttl mapping team c =
    unfold cached_members in
    rw
      (
        rows_where-append (member_of team.team_name) (kept_rows team c)
            (map (row_for team.team_name) team.members),
        rows_where-delete_where (member_of team.team_name) c.team_members,
        rows_where-rows_for team.team_name team.members,
        emails_of-rows_for team.team_name team.members,
      )
      (unfold person_by_email in
        ap present
          (map-map (λ e. person_by_email plugin e c) (λ (m : ThaumPerson). m.email) team.members))

-- A snapshot that was stored is what the next lookup by that name returns: the team's name and
-- clock, its time to live or the default where it has none, and for each member in order the person
-- that the cache has for the member's email.
pub get_team_by_name-cache_team :
    (plugin : Text) (close : Text → List Text → Option Text) (enforced : Bool) (fallback_ttl : ℕ)
    (mapping : Option (Text × Text)) (team : ThaumTeam) (c c' : Cache)
    → cache_team enforced fallback_ttl mapping team c ≡ some c'
    → (t : ThaumTeam) × (get_team_by_name plugin close team.team_name c' ≡ some t)
      × (t.team_name ≡ team.team_name)
      × (t.last_cached ≡ team.last_cached)
      × (t.ttl ≡ (if team.ttl == 0 then fallback_ttl else team.ttl))
      × (t.members ≡ present (map (λ m. person_by_email plugin m.email c) team.members))
get_team_by_name-cache_team plugin close enforced fallback_ttl mapping team c c' done =
    let members = kept_rows team c ++ map (row_for team.team_name) team.members in
    let after = snapshot fallback_ttl mapping team c members in
    let row = snapshot_row fallback_ttl team in
    let found = merge_team_row-find row (find_row (of_team team.team_name) c.teams) c.teams refl in
    (
      team_of_row plugin after row,
      rw (cache_team-some enforced fallback_ttl mapping team c c' done)
          (unfold get_team_by_name in rw found),
      (unfold team_of_row in refl),
      (unfold team_of_row in refl),
      (unfold team_of_row in refl),
      (unfold team_of_row in snapshot_members plugin fallback_ttl mapping team c),
    )
