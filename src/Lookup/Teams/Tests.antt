-- ===== src/Lookup/Teams/Tests.antt =====
-- Runs of storing and refreshing teams.
use thaum.Prelude.{◌≡◌, refl, true, false, Option, none, some, List, [], ◌∷◌}
use thaum.Text.{Text, codes, text_eq}
use thaum.Table.{find_row, update_row, add_row, delete_where}
use thaum.Identity.{ThaumPerson, person_of_email, ThaumTeam}
use thaum.Lookup.Cache.{PersonRow, TeamRow, Cache, empty_cache, of_team, of_team_platform_id}
use thaum.Lookup.Teams.{
  merge_team_row, insert_members, add_team_id, team_id_rows, stored, cache_team,
}

abbrev ann : ThaumPerson
ann = person_of_email (codes "ann@x.org")

abbrev ann_row : PersonRow
ann_row = record {
  email = codes "ann@x.org";
  display_name = none;
  source_plugin = some (codes "unknown");
  name_last_updated = 100;
}

abbrev duty_row : TeamRow
duty_row = record { team_name = codes "Duty"; last_cached = 3; ttl = 60 }

abbrev ops_row : TeamRow
ops_row = record { team_name = codes "Ops"; last_cached = 100; ttl = 900 }

abbrev ops : ThaumTeam
ops = record {
  team_name = codes "Ops";
  lookup_id = none;
  alert_id = none;
  members = ann ∷ [];
  last_cached = 100;
  ttl = 0;
}

abbrev before : Cache
before = record empty_cache { people = ann_row ∷ []; teams = duty_row ∷ [] }

abbrev after : Cache
after = record before {
  teams = duty_row ∷ ops_row ∷ [];
  team_members = record { team_name = codes "Ops"; email = codes "ann@x.org" } ∷ [];
  team_platform_ids =
      record { platform_key = codes "jira"; platform_id = codes "t1"; team_name = codes "Ops" }
      ∷ [];
}

abbrev exact : Text → List Text → Option Text
exact name names = none

stores : cache_team true 900 (some (codes "jira", codes "t1")) ops before ≡ some after
unfolding cache_team stored insert_members merge_team_row team_id_rows add_team_id delete_where
    find_row add_row update_row text_eq
stores = refl

is_free : find_row (of_team_platform_id (codes "jira") (codes "t1")) before.team_platform_ids ≡ none
unfolding find_row
is_free = refl

names_differ : text_eq ops.team_name (codes "Duty") ≡ false
unfolding text_eq
names_differ = refl

duty_known : find_row (of_team (codes "Duty")) before.teams ≡ some duty_row
unfolding find_row text_eq
duty_known = refl

abbrev refreshed_cache : Cache
refreshed_cache = record empty_cache {
  people = ann_row ∷ [];
  teams = ops_row ∷ [];
  team_members = record { team_name = codes "Ops"; email = codes "ann@x.org" } ∷ [];
}

abbrev merged_ann : ThaumPerson
merged_ann = record ann { display_name = some [] }
