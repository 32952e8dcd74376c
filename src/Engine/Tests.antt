-- ===== src/Engine/Tests.antt =====
-- Tests of the room of an incident.
use thaum.Prelude.{◌≡◌, refl, Bool, true, none, some, [], ◌∷◌, ◌++◌}
use thaum.Text.{codes}
use thaum.Identity.{ThaumPerson}
use thaum.Jira.Payload.{normal}
use thaum.Engine.{
  created, invited, and_then, perform, IncidentBot, Chat, render_customer_service_message,
  context_of, say_in, say_if, announce_alert, trigger_and_announce, tell_and_alert, alert_room,
  create_incident_room,
}
use thaum.Engine.Room.{RoomIsReady, create_incident_room-some}

abbrev pub speaker : ThaumPerson
speaker = record {
  email = codes "ann@x.org";
  display_name = some (codes "Ann");
  platform_ids = [];
  source_plugin = codes "webex";
}

abbrev pub colleague : ThaumPerson
colleague = record {
  email = codes "bob@x.org";
  display_name = none;
  platform_ids = [];
  source_plugin = codes "webex";
}

-- A template is taken as it is, with the summary after it.
abbrev pub chat : Chat
chat = record {
  render = λ template ctx. some (template ++ ctx.summary);
  create_room = λ title. some (codes "room-1");
  get_responders = some (colleague ∷ []);
  add_members = λ room people. true;
  say = λ room text. true;
  trigger_alert = λ summary room person priority. some (codes "K7Q", none);
}

-- Nobody can be told anything.
abbrev silent_chat : Chat
silent_chat = record {
  render = λ template ctx. some template;
  create_room = λ title. some (codes "room-1");
  get_responders = some [];
  add_members = λ room people. true;
  say = λ room text. Bool.false;
  trigger_alert = λ summary room person priority. some ([], none);
}

abbrev pub bot : IncidentBot
bot = record {
  room_title_template = codes "Incident: ";
  customer_service_message_template = some (codes "Help: ");
  team_description = codes "Database";
}

ran :
    (create_incident_room chat bot (codes "2026-01-02") (codes "down") speaker normal).1
    ≡ some (codes "room-1")
unfolding create_incident_room and_then perform alert_room tell_and_alert trigger_and_announce
    announce_alert say_if say_in
ran = refl

-- The room stays where the chat refuses the first message, and no alert is triggered.
refused :
    create_incident_room silent_chat bot (codes "2026-01-02") (codes "down") speaker normal ≡ (
      created (codes "Incident: ") (codes "room-1") ∷ invited (codes "room-1") (speaker ∷ []) ∷ [],
      none,
    )
unfolding create_incident_room and_then perform alert_room tell_and_alert trigger_and_announce
    announce_alert say_if say_in render_customer_service_message
refused = refl

create_incident_room-some_example :
    RoomIsReady chat bot
      (context_of bot (codes "2026-01-02") (codes "down") speaker)
      (codes "down")
      speaker
      normal
      (create_incident_room chat bot (codes "2026-01-02") (codes "down") speaker normal).0
      (codes "room-1")
create_incident_room-some_example =
    create_incident_room-some chat bot (codes "2026-01-02") (codes "down") speaker normal
      (codes "room-1") ran
