-- ===== src/Engine/Calm.antt =====
-- thaum/engine.py: a run under the normal priority triggers no alert of high priority.
use thaum.Prelude.{Option, none, some, [], ◌∷◌, ◌++◌, All, All-append}
use thaum.Text.{Text, codes}
use thaum.Identity.{ThaumPerson}
use thaum.Jira.Payload.{AlertPriority, normal, high}
use thaum.Engine.{
  Effect, created, invited, said, triggered, Run, and_then, perform, ok_if, RoomContext,
  IncidentBot, Chat, render_customer_service_message, context_of, say_in, say_if, announce_alert,
  trigger_and_announce, tell_and_alert, alert_room, create_incident_room,
}

abbrev pub IsNotHigh : AlertPriority → Type 0
IsNotHigh normal = Unit
IsNotHigh high = ⊥

-- An effect is no alert of high priority.
abbrev pub IsCalm : Effect → Type 0
IsCalm (created title room) = Unit
IsCalm (invited room people) = Unit
IsCalm (said room text) = Unit
IsCalm (triggered summary room speaker priority) = IsNotHigh priority

pub and_then-IsCalm :
    {A B : Type 0} (r : Run A) (rest : A → Run B)
    → All IsCalm r.0
    → ((a : A) → All IsCalm (rest a).0)
    → All IsCalm (and_then r rest).0
unfolding and_then
and_then-IsCalm (es, none) rest h hs = h
and_then-IsCalm (es, some a) rest h hs = All-append IsCalm es (rest a).0 h (hs a)

pub perform-IsCalm :
    {A : Type 0} (effect : A → Effect) (o : Option A)
    → ((a : A) → IsCalm (effect a))
    → All IsCalm (perform effect o).0
unfolding perform
perform-IsCalm effect none h = tt
perform-IsCalm effect (some a) h = (h a, tt)

pub say_in-IsCalm : (chat : Chat) (room text : Text) → All IsCalm (say_in chat room text).0
unfolding say_in
say_in-IsCalm chat room text =
    perform-IsCalm (λ _. said room text) (ok_if (chat.say room text)) (λ _. tt)

say_if-IsCalm :
    (chat : Chat) (room prefix text : Text) → All IsCalm (say_if chat room prefix text).0
unfolding say_if
say_if-IsCalm chat room prefix [] = tt
say_if-IsCalm chat room prefix (c ∷ text) = say_in-IsCalm chat room (prefix ++ c ∷ text)

module _ (chat : Chat) (summary : Text) (speaker : ThaumPerson) where
  trigger-IsCalm :
      (room : Text) → All IsCalm (trigger_and_announce chat summary speaker normal room).0
  unfolding trigger_and_announce announce_alert
  trigger-IsCalm room =
      and_then-IsCalm
        (perform (λ _. triggered summary room speaker normal)
          (chat.trigger_alert summary room speaker normal))
        (λ ids. announce_alert chat room ids.0)
        (perform-IsCalm (λ _. triggered summary room speaker normal)
          (chat.trigger_alert summary room speaker normal) (λ _. tt))
        (λ ids.
          and_then-IsCalm (say_if chat room (codes "Alert sent: ") ids.0) (λ _. ([], some room))
            (say_if-IsCalm chat room (codes "Alert sent: ") ids.0) (λ _. tt))

  tell-IsCalm :
      (message room : Text) → All IsCalm (tell_and_alert chat message summary speaker normal room).0
  unfolding tell_and_alert
  tell-IsCalm message room =
      and_then-IsCalm (say_if chat room [] message)
        (λ _.
          and_then (say_in chat room (codes "**Summary:** " ++ summary))
            (λ _. trigger_and_announce chat summary speaker normal room))
        (say_if-IsCalm chat room [] message)
        (λ _.
          and_then-IsCalm (say_in chat room (codes "**Summary:** " ++ summary))
            (λ _. trigger_and_announce chat summary speaker normal room)
            (say_in-IsCalm chat room (codes "**Summary:** " ++ summary)) (λ _. trigger-IsCalm room))

  alert_room-IsCalm :
      (bot : IncidentBot) (ctx : RoomContext) (room : Text)
      → All IsCalm (alert_room chat bot ctx summary speaker normal room).0
  unfolding alert_room
  alert_room-IsCalm bot ctx room =
      let message = render_customer_service_message chat bot ctx in
      and_then-IsCalm ([], chat.get_responders)
        (λ invitees.
          and_then
            (perform (λ _. invited room (speaker ∷ invitees))
              (ok_if (chat.add_members room (speaker ∷ invitees))))
            (λ _. tell_and_alert chat message summary speaker normal room))
        tt
        (λ invitees.
          and_then-IsCalm
            (perform (λ _. invited room (speaker ∷ invitees))
              (ok_if (chat.add_members room (speaker ∷ invitees))))
            (λ _. tell_and_alert chat message summary speaker normal room)
            (perform-IsCalm (λ _. invited room (speaker ∷ invitees))
              (ok_if (chat.add_members room (speaker ∷ invitees))) (λ _. tt))
            (λ _. tell-IsCalm message room))

  pub create_incident_room-IsCalm :
      (bot : IncidentBot) (date : Text)
      → All IsCalm (create_incident_room chat bot date summary speaker normal).0
  unfolding create_incident_room
  create_incident_room-IsCalm bot date =
      let ctx = context_of bot date summary speaker in
      and_then-IsCalm ([], chat.render bot.room_title_template ctx)
        (λ title.
          and_then (perform (λ r. created title r) (chat.create_room title))
            (λ r. alert_room chat bot ctx summary speaker normal r))
        tt
        (λ title.
          and_then-IsCalm (perform (λ r. created title r) (chat.create_room title))
            (λ r. alert_room chat bot ctx summary speaker normal r)
            (perform-IsCalm (λ r. created title r) (chat.create_room title) (λ _. tt))
            (λ r. alert_room-IsCalm bot ctx r))
