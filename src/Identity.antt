-- ===== src/Identity.antt =====
-- thaum/types.py: people, teams and responder lists.
--
-- The bot that a `ThaumTeam` carries is an argument of the functions that use it. Times are whole
-- seconds.
pub mod Members
mod Tests
use thaum.Prelude.{ℕ, ◌-◌, Bool, Option, none, some, List, [], ◌∷◌, ◌++◌, ltb, if◌then◌else◌}
use thaum.Text.{Text, codes, or_else}
use thaum.Dict.{Dict}

pub record ThaumPerson : Type 0 where
  pub email : Text
  pub display_name : Option Text
  pub platform_ids : Dict Text
  pub source_plugin : Text

-- `ThaumPerson(email=...)`.
abbrev pub person_of_email : Text → ThaumPerson
person_of_email e = record {
  email = e;
  display_name = none;
  platform_ids = [];
  source_plugin = codes "unknown";
}

unfoldable pub for_display : ThaumPerson → Text
for_display p = elim p.display_name [ none ↦ p.email | some d ↦ or_else d p.email ]

pub record ThaumTeam : Type 0 where
  pub team_name : Text
  pub lookup_id : Option Text
  pub alert_id : Option Text
  pub members : List ThaumPerson
  pub last_cached : ℕ
  pub ttl : ℕ

abbrev pub default_ttl : ℕ
default_ttl = 14400

unfoldable pub is_fresh : ℕ → ThaumTeam → Bool
is_fresh now team = ltb (now - team.last_cached) team.ttl

-- What the lookup plugin's `lookup_team_members` does with the team object: it leaves the object
-- as given here, and returns the members or raises.
pub data Refresh : Type 0 where
  fetched : ThaumTeam → List ThaumPerson → Refresh
  failed : ThaumTeam → Refresh

refreshed : ℕ → Refresh → ThaumTeam
refreshed stored (fetched team new) = record team { members = new; last_cached = stored }
refreshed stored (failed team) = team

-- `get_members`: the team afterwards, and the members that are returned. `checked` is the clock at
-- the freshness test and `stored` the clock when the new members are stored.
unfoldable pub get_members :
    Option (ThaumTeam → Refresh) → ℕ → ℕ → ThaumTeam → ThaumTeam × List ThaumPerson
unfolding is_fresh refreshed
get_members none checked stored team = (team, team.members)
get_members (some lookup) checked stored team =
    let team' = if is_fresh checked team then team else refreshed stored (lookup team) in
    (team', team'.members)

pub record RespondersList : Type 0 where
  pub people : List ThaumPerson
  pub teams : List ThaumTeam

abbrev pub no_responders : RespondersList
no_responders = record { people = []; teams = [] }

-- The right operand of `+`.
pub data Operand : Type 0 where
  responders : RespondersList → Operand
  a_person : ThaumPerson → Operand
  a_team : ThaumTeam → Operand

unfoldable pub add_operand : RespondersList → Operand → RespondersList
add_operand r (responders o) = record { people = r.people ++ o.people; teams = r.teams ++ o.teams }
add_operand r (a_person p) = record r { people = r.people ++ p ∷ [] }
add_operand r (a_team t) = record r { teams = r.teams ++ t ∷ [] }

-- The loop of `get_responders`: the teams afterwards, and what is returned. Every team is asked at
-- the same clock.
team_members : Option (ThaumTeam → Refresh) → ℕ → List ThaumTeam → List ThaumTeam × List ThaumPerson
team_members lookup now [] = ([], [])
team_members lookup now (t ∷ ts) =
    let (t', here) = get_members lookup now now t in
    let (ts', later) = team_members lookup now ts in (t' ∷ ts', here ++ later)

unfoldable pub get_responders :
    Option (ThaumTeam → Refresh) → ℕ → RespondersList → RespondersList × List ThaumPerson
unfolding team_members get_members
get_responders lookup now r =
    let (ts, found) = team_members lookup now r.teams in
    (record r { teams = ts }, r.people ++ found)
