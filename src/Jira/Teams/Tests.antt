-- ===== src/Jira/Teams/Tests.antt =====
-- Tests of the teams of Jira.
use thaum.Prelude.{ℕ, ◌-◌, ◌≡◌, refl, true, none, some, [], ◌∷◌, ltb}
use thaum.Text.{codes, text_eq, is_space, lstrip, rstrip, strip, lower_char, lower, starts_with}
use thaum.Dict.{get}
use thaum.Identity.{ThaumTeam, default_ttl, is_fresh}
use thaum.Lookup.Cache.{Cache, empty_cache}
use thaum.Lookup.Teams.{get_team_by_name}
use thaum.Jira.Teams.{Folded, without_prefix, canonical_team_ref, TeamItem, refresh_team_cache}
use thaum.Jira.Teams.Fresh.{refresh_team_cache-fresh}

refs :
    (canonical_team_ref lower (codes " Team: dba ") ((codes "dba", codes "DBA") ∷ []) ≡ codes "DBA")
    × (canonical_team_ref lower (codes "ops") ((codes "dba", codes "DBA") ∷ []) ≡ codes "ops")
unfolding canonical_team_ref without_prefix starts_with lower lower_char strip lstrip rstrip
    is_space get text_eq
refs = (refl, refl)

abbrev dba : TeamItem
dba = record { team_name = codes "DBA "; team_id = codes "t1"; now = 50 }

abbrev no_names : Folded
no_names = record { team_name_by_folded = []; team_id_by_folded = [] }

refresh_team_cache-fresh_example :
    (folded : Folded) × (c' : Cache) × (t : ThaumTeam) × (refresh_team_cache lower true true 9
        (some (none ∷ some dba ∷ []))
        (no_names, empty_cache)
      ≡ some (folded, c'))
    × (get_team_by_name (codes "null") (λ s names. none) (strip (codes "DBA ")) c' ≡ some t)
    × (t.members ≡ [])
    × ((now : ℕ) → is_fresh now t ≡ ltb (now - 50) default_ttl)
refresh_team_cache-fresh_example =
    refresh_team_cache-fresh lower true 9 (codes "null") (λ s names. none) (none ∷ []) [] dba
      no_names empty_cache refl (unfold strip lstrip rstrip is_space in refl)
      (unfold strip lstrip rstrip is_space in refl) tt
