-- ===== src/Jira/Payload.antt =====
-- alerts/plugins/jira/payload.py: the body of an alert. The HTTP request is not modelled.
pub mod Responders
mod Tests
use thaum.Prelude.{Bool, false, not, ◌||◌, Option, none, some, List, [], ◌∷◌, ◌++◌, if◌then◌else◌}
use thaum.Text.{Text, codes, text_eq, truthy, or_else, strip, strip_opt}
use thaum.Dict.{get, set}
use thaum.Identity.{ThaumPerson, ThaumTeam, RespondersList}

-- The alias of `build_trigger_alert_body`, from the date that `strftime` writes.
unfoldable pub alias_of : (date short_id : Text) → Text
alias_of date short_id = codes "THAUM-" ++ (date ++ (b'-' ∷ short_id))

pub data AlertPriority : Type 0 where
  normal high : AlertPriority

pub data Responder : Type 0 where
  team user : Text → Responder

pub same_responder : Responder → Responder → Bool
same_responder (team a) (team b) = text_eq a b
same_responder (user a) (user b) = text_eq a b
same_responder (team a) (user b) = false
same_responder (user a) (team b) = false

-- `key in seen`: the set holds the keys of what is in the payload.
pub seen : Responder → List Responder → Bool
unfolding same_responder
seen k [] = false
seen k (r ∷ rs) = same_responder r k || seen k rs

add_new : Responder → List Responder → List Responder
unfolding seen
add_new r payload = if seen r payload then payload else payload ++ r ∷ []

-- `(team.alert_id or team.lookup_id or "").strip()`.
pub team_id : ThaumTeam → Text
unfolding strip_opt
team_id t = elim t.alert_id [
  | none ↦ strip_opt t.lookup_id
  | some a ↦ if truthy a then strip a else strip_opt t.lookup_id
]

add_teams : List ThaumTeam → List Responder → List Responder
unfolding add_new team_id
add_teams [] payload = payload
add_teams (t ∷ ts) payload =
    add_teams ts (if truthy (team_id t) then add_new (team (team_id t)) payload else payload)

-- `resolve_email_to_account_id` is a parameter.
module _ (resolve : Text → Option Text) where
  pub account_id : ThaumPerson → Text
  unfolding strip_opt get
  account_id p =
      let own = strip_opt (get (codes "jira") p.platform_ids) in
      if truthy own then own else elim (resolve p.email) [ none ↦ [] | some a ↦ a ]

  add_people : List ThaumPerson → List Responder → List Responder
  unfolding add_new account_id
  add_people [] payload = payload
  add_people (p ∷ ps) payload =
      add_people ps
        (if truthy (account_id p) then add_new (user (account_id p)) payload else payload)

  pub responders_list_to_jira_payload : RespondersList → List Responder
  unfolding add_teams add_people
  responders_list_to_jira_payload r = add_people r.people (add_teams r.teams [])

-- The text fields of the alert body, and its tags.
pub record AlertBody : Type 0 where
  pub message : Text
  pub source : Text
  pub alias : Text
  pub priority : Text
  pub responders : List Responder
  pub sender : Text
  pub short_id : Text
  pub tags : List Text

unfoldable pub build_sender_extra_properties : ThaumPerson → Text → Text × Text
unfolding strip_opt get
build_sender_extra_properties sender plugin_name = (
  or_else (strip_opt sender.display_name) (codes "Someone"),
  elim (get plugin_name sender.platform_ids) [ none ↦ [] | some pid ↦ pid ],
)

abbrev severity : AlertPriority → Text → Text → Text
severity normal priority_normal priority_high = priority_normal
severity high priority_normal priority_high = priority_high

abbrev tags_of : AlertPriority → List Text
tags_of normal = []
tags_of high = codes "OverrideQuietHours" ∷ codes "HighPriority" ∷ []

unfoldable pub build_trigger_alert_body :
    (summary bot_handle : Text) (sender : ThaumPerson) (priority : AlertPriority)
    (priority_normal priority_high short_id date : Text) (responders : List Responder)
    (plugin_name : Text)
    → AlertBody
unfolding alias_of build_sender_extra_properties
build_trigger_alert_body summary bot_handle sender priority priority_normal priority_high short_id
      date responders plugin_name =
    record {
      message = summary;
      source = bot_handle;
      alias = alias_of date short_id;
      priority = severity priority priority_normal priority_high;
      responders = responders;
      sender = (build_sender_extra_properties sender plugin_name).0;
      short_id = short_id;
      tags = tags_of priority;
    }
