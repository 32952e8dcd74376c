-- ===== src/Engine.antt =====
-- thaum/engine.py: the room of an incident.
--
-- Parameters: the templates, the chat and the alert plugin, each with what it answers; `none` and
-- `false` are exceptions. The date is an argument. A run is the effects on the chat and the plugin,
-- in order, and what is returned, `none` where an exception was caught.
pub mod Room
pub mod Calm
pub mod Tests
use thaum.Prelude.{
  Bool, true, false, not, Option, none, some, List, [], ◌∷◌, ◌++◌, if◌then◌else◌, take,
}
use thaum.Text.{Text, codes, truthy, strip}
use thaum.Identity.{ThaumPerson, for_display}
use thaum.Jira.Payload.{AlertPriority}

pub data Effect : Type 0 where
  created : (title room : Text) → Effect
  invited : (room : Text) → List ThaumPerson → Effect
  said : (room text : Text) → Effect
  triggered : (summary room : Text) → ThaumPerson → AlertPriority → Effect

abbrev pub Run : Type 0 → Type 0
Run A = List Effect × Option A

-- The rest runs if nothing was raised.
unfoldable pub and_then : {A B : Type 0} → Run A → (A → Run B) → Run B
and_then (es, none) rest = (es, none)
and_then (es, some a) rest = (es ++ (rest a).0, (rest a).1)

-- An operation that takes effect if it does not raise.
unfoldable pub perform : {A : Type 0} → (A → Effect) → Option A → Run A
perform effect none = ([], none)
perform effect (some a) = (effect a ∷ [], some a)

-- The result of an operation that returns nothing.
abbrev pub Done : Type 0
Done = Unit

abbrev pub done : Run Done
done = ([], some tt)

abbrev pub ok_if : Bool → Option Done
ok_if true = some tt
ok_if false = none

pub record RoomContext : Type 0 where
  pub summary : Text
  pub requester_name : Text
  pub team_description : Text
  pub date : Text

pub record IncidentBot : Type 0 where
  pub room_title_template : Text
  pub customer_service_message_template : Option Text
  pub team_description : Text

pub record Chat : Type 0 where
  pub render : Text → RoomContext → Option Text
  pub create_room : Text → Option Text
  pub get_responders : Option (List ThaumPerson)
  pub add_members : Text → List ThaumPerson → Bool
  pub say : Text → Text → Bool
  pub trigger_alert : Text → Text → ThaumPerson → AlertPriority → Option (Text × Option Text)

abbrev pub text_or_blank : Option Text → Text
text_or_blank none = []
text_or_blank (some t) = t

blank_if_raised : Option Text → Text
unfolding strip
blank_if_raised none = []
blank_if_raised (some message) = strip message

unfoldable pub render_customer_service_message : Chat → IncidentBot → RoomContext → Text
unfolding strip blank_if_raised
render_customer_service_message chat bot ctx =
    let template = text_or_blank bot.customer_service_message_template in
    if truthy (strip template) then blank_if_raised (chat.render template ctx) else []

abbrev pub context_of : IncidentBot → Text → Text → ThaumPerson → RoomContext
context_of bot date summary speaker = record {
  summary = take 30 summary;
  requester_name = for_display speaker;
  team_description = bot.team_description;
  date = date;
}

unfoldable pub say_in : Chat → Text → Text → Run Done
unfolding perform
say_in chat room text = perform (λ _. said room text) (ok_if (chat.say room text))

-- `if text: bot.say(...)`.
unfoldable pub say_if : Chat → Text → Text → Text → Run Done
unfolding say_in
say_if chat room prefix [] = done
say_if chat room prefix (c ∷ text) = say_in chat room (prefix ++ c ∷ text)

-- What follows in the room, from the last step to the first.
unfoldable pub announce_alert : Chat → Text → Text → Run Text
unfolding and_then say_if
announce_alert chat room short_id =
    and_then (say_if chat room (codes "Alert sent: ") short_id) (λ _. ([], some room))

unfoldable pub trigger_and_announce : Chat → Text → ThaumPerson → AlertPriority → Text → Run Text
unfolding and_then perform announce_alert
trigger_and_announce chat summary speaker priority room =
    and_then
      (perform (λ _. triggered summary room speaker priority)
        (chat.trigger_alert summary room speaker priority))
      (λ ids. announce_alert chat room ids.0)

unfoldable pub tell_and_alert : Chat → Text → Text → ThaumPerson → AlertPriority → Text → Run Text
unfolding and_then say_in say_if trigger_and_announce
tell_and_alert chat customer_service_message summary speaker priority room =
    and_then (say_if chat room [] customer_service_message) (λ _.
      and_then (say_in chat room (codes "**Summary:** " ++ summary))
        (λ _. trigger_and_announce chat summary speaker priority room))

unfoldable pub alert_room :
    Chat → IncidentBot → RoomContext → Text → ThaumPerson → AlertPriority → Text → Run Text
unfolding and_then perform tell_and_alert render_customer_service_message
alert_room chat bot ctx summary speaker priority room =
    and_then ([], chat.get_responders)
      (λ invitees.
        and_then
          (perform (λ _. invited room (speaker ∷ invitees))
            (ok_if (chat.add_members room (speaker ∷ invitees))))
          (λ _.
            tell_and_alert chat (render_customer_service_message chat bot ctx) summary speaker
              priority room))

unfoldable pub create_incident_room :
    Chat → IncidentBot → Text → Text → ThaumPerson → AlertPriority → Run Text
unfolding and_then perform alert_room for_display
create_incident_room chat bot date summary speaker priority =
    let ctx = context_of bot date summary speaker in
    and_then ([], chat.render bot.room_title_template ctx)
      (λ title.
        and_then (perform (λ room. created title room) (chat.create_room title))
          (λ room. alert_room chat bot ctx summary speaker priority room))
