-- ===== src/Jira/Payload/Tests.antt =====
-- A payload of responders in which one team and one account come twice.
use thaum.Prelude.{Option, none, some, [], ◌∷◌, if◌then◌else◌, All}
use thaum.Text.{Text, codes, text_eq}
use thaum.Identity.{ThaumPerson, person_of_email, ThaumTeam, RespondersList}
use thaum.Jira.Payload.{responders_list_to_jira_payload}
use thaum.Jira.Payload.Responders.{
  HasNoRepeat, responders_list_to_jira_payload-HasNoRepeat, TeamIn, PersonIn,
  responders_list_to_jira_payload_complete,
}

abbrev duty_team : ThaumTeam
duty_team = record {
  team_name = codes "Duty";
  lookup_id = some (codes "t1");
  alert_id = none;
  members = [];
  last_cached = 0;
  ttl = 60;
}

abbrev with_account : ThaumPerson
with_account = record (person_of_email (codes "ann@x.org")) {
  platform_ids = (codes "jira", codes "a1") ∷ [];
}

abbrev everyone : RespondersList
everyone = record {
  people = with_account ∷ person_of_email (codes "a1@x.org") ∷ with_account ∷ [];
  teams = duty_team ∷ duty_team ∷ [];
}

abbrev resolver : Text → Option Text
resolver email = if text_eq email (codes "a1@x.org") then some (codes "a1") else none

responders_list_to_jira_payload-HasNoRepeat_example :
    HasNoRepeat (responders_list_to_jira_payload resolver everyone)
responders_list_to_jira_payload-HasNoRepeat_example =
    responders_list_to_jira_payload-HasNoRepeat resolver everyone

responders_list_to_jira_payload_complete_example :
    All (TeamIn (responders_list_to_jira_payload resolver everyone)) everyone.teams
    × All (PersonIn resolver (responders_list_to_jira_payload resolver everyone)) everyone.people
responders_list_to_jira_payload_complete_example =
    responders_list_to_jira_payload_complete resolver everyone
