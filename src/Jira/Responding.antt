-- ===== src/Jira/Responding.antt =====
-- alerts/plugins/jira/plugin.py: the responders of an alert.
--
-- `casefold` is a parameter, as in Jira.Teams, where the refresh is that these functions begin with.
mod Tests
use thaum.Prelude.{not, ◌&&◌, ◌||◌, Option, none, some, List, [], ◌∷◌, ◌++◌, if◌then◌else◌, drop}
use thaum.Text.{Text, codes, truthy, strip, lower, starts_with, has_char}
use thaum.Dict.{Dict, get}
use thaum.Identity.{ThaumPerson, person_of_email, ThaumTeam, RespondersList, responders}

-- The references of the settings where there is no lookup plugin: only people can be resolved.
person_of_ref : Text → List ThaumPerson
unfolding lower starts_with strip has_char
person_of_ref ref =
    if starts_with (lower ref) (codes "person:")
    then (let email = strip (drop 7 ref) in if truthy email then person_of_email email ∷ [] else [])
    else if has_char b'@' ref && not (starts_with (lower ref) (codes "team:"))
    then person_of_email ref ∷ []
    else []

unfoldable pub people_of_refs : List Text → List ThaumPerson
unfolding person_of_ref strip
people_of_refs [] = []
people_of_refs (raw ∷ refs) =
    let rest = people_of_refs refs in
    if truthy (strip raw) then person_of_ref (strip raw) ++ rest else rest

-- `resolve` is `resolve_responder_refs` of the lookup plugin, where there is one.
unfoldable pub resolve_config_responders :
    Option (List Text → RespondersList) → List Text → RespondersList
unfolding people_of_refs
resolve_config_responders none refs = record { people = people_of_refs refs; teams = [] }
resolve_config_responders (some resolve) refs = resolve refs

-- The settings of the plugin come first, then the responders of the bot.
unfoldable pub resolve_alert_responders :
    Option (List Text → RespondersList) → List Text → (of_bot : RespondersList) → RespondersList
unfolding resolve_config_responders
resolve_alert_responders resolve [] of_bot = of_bot
resolve_alert_responders resolve (ref ∷ refs) of_bot =
    resolve_config_responders resolve (ref ∷ refs)

with_id : ThaumTeam → Option Text → ThaumTeam
with_id team none = team
with_id team (some []) = team
with_id team (some (c ∷ id)) = record team { alert_id = some (c ∷ id) }

unfoldable pub enrich_team : (Text → Text) → Dict Text → ThaumTeam → ThaumTeam
unfolding with_id strip get
enrich_team casefold team_id_by_folded team =
    let folded = casefold (strip team.team_name) in
    if truthy (elim team.alert_id [ none ↦ [] | some id ↦ id ]) || not (truthy folded)
    then team
    else with_id team (get folded team_id_by_folded)

enrich_teams : (Text → Text) → Dict Text → List ThaumTeam → List ThaumTeam
unfolding enrich_team
enrich_teams casefold team_id_by_folded [] = []
enrich_teams casefold team_id_by_folded (team ∷ teams) =
    let rest = enrich_teams casefold team_id_by_folded teams in
    enrich_team casefold team_id_by_folded team ∷ rest

-- The teams are those of the given list, so that they have the ids there too.
unfoldable pub enrich_team_alert_ids : (Text → Text) → Dict Text → RespondersList → RespondersList
unfolding enrich_teams
enrich_team_alert_ids casefold team_id_by_folded r = record r {
  teams = enrich_teams casefold team_id_by_folded r.teams;
}
