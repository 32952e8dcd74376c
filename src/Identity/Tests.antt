-- ===== src/Identity/Tests.antt =====
-- Runs of a team's snapshot, and of a list of responders.
use thaum.Prelude.{◌≡◌, refl, false, none, [], ◌∷◌}
use thaum.Text.{codes}
use thaum.Identity.{ThaumPerson, person_of_email, ThaumTeam, is_fresh, Refresh, fetched, failed}

abbrev ann : ThaumPerson
ann = person_of_email (codes "ann@x.org")

abbrev bob : ThaumPerson
bob = person_of_email (codes "bob@x.org")

abbrev ops : ThaumTeam
ops = record {
  team_name = codes "Ops";
  lookup_id = none;
  alert_id = none;
  members = ann ∷ [];
  last_cached = 10;
  ttl = 60;
}

abbrev gives_bob : ThaumTeam → Refresh
gives_bob t = fetched t (bob ∷ [])

abbrev fails : ThaumTeam → Refresh
fails t = failed t

is_stale : is_fresh 100 ops ≡ false
unfolding is_fresh
is_stale = refl
