-- ===== src/Engine/Room.antt =====
-- thaum/engine.py: what has happened when the room of an incident is returned.
use thaum.Prelude.{
  ◌≡◌, refl, sym, ap, ◌∙◌, subst, Option, none, some, List, [], ◌∷◌, ◌++◌, append-nil, none-some,
  some-inj,
}
use thaum.Text.{Text, codes}
use thaum.Identity.{ThaumPerson}
use thaum.Jira.Payload.{AlertPriority}
use thaum.Engine.{
  Effect, created, invited, said, triggered, Run, and_then, perform, Done, ok_if, RoomContext,
  IncidentBot, Chat, render_customer_service_message, context_of, say_in, say_if, announce_alert,
  trigger_and_announce, tell_and_alert, alert_room, create_incident_room,
}

-- A run of two parts that returned went through both.
and_then-some :
    {A B : Type 0} (r : Run A) (rest : A → Run B) (b : B)
    → (and_then r rest).1 ≡ some b
    → (a : A) × (r.1 ≡ some a) × ((rest a).1 ≡ some b) × ((and_then r rest).0 ≡ r.0 ++ (rest a).0)
unfolding and_then
and_then-some (es, none) rest b e = absurd (none-some b e)
and_then-some (es, some a) rest b e = (a, refl, e, refl)

perform-some :
    {A : Type 0} (effect : A → Effect) (o : Option A) (a : A)
    → (perform effect o).1 ≡ some a
    → (o ≡ some a) × ((perform effect o).0 ≡ effect a ∷ [])
unfolding perform
perform-some effect none a e = absurd (none-some a e)
perform-some effect (some x) a e = (e, ap (λ y. effect y ∷ []) (some-inj x a e))

-- The message that is said where the text is not empty.
unfoldable pub said_if : Text → Text → Text → List Effect
said_if room prefix [] = []
said_if room prefix (c ∷ text) = said room (prefix ++ c ∷ text) ∷ []

say_if-some :
    (chat : Chat) (room prefix text : Text) (u : Done)
    → (say_if chat room prefix text).1 ≡ some u
    → (say_if chat room prefix text).0 ≡ said_if room prefix text
unfolding say_if said_if say_in
say_if-some chat room prefix [] u e = refl
say_if-some chat room prefix (c ∷ text) u e =
    (perform-some (λ _. said room (prefix ++ c ∷ text)) (ok_if (chat.say room (prefix ++ c ∷ text)))
      u e).1

-- The effects on a room that was returned.
abbrev pub room_effects :
    Chat
    → IncidentBot
    → RoomContext
    → Text
    → ThaumPerson
    → AlertPriority
    → List ThaumPerson
    → Text
    → Text
    → List Effect
room_effects chat bot ctx summary speaker priority invitees room short_id =
    invited room (speaker ∷ invitees)
    ∷ (said_if room [] (render_customer_service_message chat bot ctx)
        ++ said room (codes "**Summary:** " ++ summary)
          ∷ triggered summary room speaker priority
          ∷ said_if room (codes "Alert sent: ") short_id)

announce_alert-some :
    (chat : Chat) (room short_id room' : Text)
    → (announce_alert chat room short_id).1 ≡ some room'
    → (room' ≡ room)
      × ((announce_alert chat room short_id).0 ≡ said_if room (codes "Alert sent: ") short_id)
unfolding announce_alert
announce_alert-some chat room short_id room' e =
    let (u, telling, returns, effects) =
      and_then-some (say_if chat room (codes "Alert sent: ") short_id) (λ _. ([], some room)) room'
        e in
    (
      sym (some-inj room room' returns),
      effects
          ∙ append-nil (say_if chat room (codes "Alert sent: ") short_id).0
          ∙ say_if-some chat room (codes "Alert sent: ") short_id u telling,
    )

trigger_and_announce-some :
    (chat : Chat) (summary : Text) (speaker : ThaumPerson) (priority : AlertPriority)
    (room room' : Text)
    → (trigger_and_announce chat summary speaker priority room).1 ≡ some room'
    → (room' ≡ room)
      × (short_id : Text) × (alert_id : Option Text) × (chat.trigger_alert summary room speaker
            priority
          ≡ some (short_id, alert_id))
      × ((trigger_and_announce chat summary speaker priority room).0
          ≡ triggered summary room speaker priority ∷ said_if room (codes "Alert sent: ") short_id)
unfolding trigger_and_announce
trigger_and_announce-some chat summary speaker priority room room' e =
    let (ids, triggering, rest, effects) =
      and_then-some
        (perform (λ _. triggered summary room speaker priority)
          (chat.trigger_alert summary room speaker priority))
        (λ ids. announce_alert chat room ids.0) room' e in
    let (alerts, triggers) =
      perform-some (λ _. triggered summary room speaker priority)
        (chat.trigger_alert summary room speaker priority) ids triggering in
    let (same, announces) = announce_alert-some chat room ids.0 room' rest in
    (same, ids.0, ids.1, alerts, effects ∙ rw (triggers, announces) refl)

tell_and_alert-some :
    (chat : Chat) (message summary : Text) (speaker : ThaumPerson) (priority : AlertPriority)
    (room room' : Text)
    → (tell_and_alert chat message summary speaker priority room).1 ≡ some room'
    → (room' ≡ room)
      × (short_id : Text) × (alert_id : Option Text) × (chat.trigger_alert summary room speaker
            priority
          ≡ some (short_id, alert_id))
      × ((tell_and_alert chat message summary speaker priority room).0
          ≡ said_if room [] message
            ++ said room (codes "**Summary:** " ++ summary)
              ∷ triggered summary room speaker priority
              ∷ said_if room (codes "Alert sent: ") short_id)
unfolding tell_and_alert say_in
tell_and_alert-some chat message summary speaker priority room room' e =
    let text = codes "**Summary:** " ++ summary in
    let (u, greeting, rest, effects) =
      and_then-some (say_if chat room [] message)
        (λ _.
          and_then (say_in chat room text)
            (λ _. trigger_and_announce chat summary speaker priority room))
        room' e in
    let (v, telling, rest', effects') =
      and_then-some (say_in chat room text)
        (λ _. trigger_and_announce chat summary speaker priority room) room' rest in
    let tells = (perform-some (λ _. said room text) (ok_if (chat.say room text)) v telling).1 in
    let (same, short_id, alert_id, alerts, announces) =
      trigger_and_announce-some chat summary speaker priority room room' rest' in
    (
      same,
      short_id,
      alert_id,
      alerts,
      effects ∙ rw (say_if-some chat room [] message u greeting, effects', tells, announces) refl,
    )

-- What has happened when `room` is returned: it was created under the rendered title, and these are
-- all the effects, in order.
abbrev pub RoomIsReady :
    Chat
    → IncidentBot
    → RoomContext
    → Text
    → ThaumPerson
    → AlertPriority
    → List Effect
    → Text
    → Type 0
RoomIsReady chat bot ctx summary speaker priority effects room =
    (title : Text) × (invitees : List ThaumPerson) × (short_id : Text) × (alert_id : Option Text)
    × (chat.render bot.room_title_template ctx ≡ some title)
    × (chat.create_room title ≡ some room)
    × (chat.get_responders ≡ some invitees)
    × (chat.trigger_alert summary room speaker priority ≡ some (short_id, alert_id))
    × (effects
        ≡ created title room
          ∷ invited room (speaker ∷ invitees)
          ∷ (said_if room [] (render_customer_service_message chat bot ctx)
              ++ said room (codes "**Summary:** " ++ summary)
                ∷ triggered summary room speaker priority
                ∷ said_if room (codes "Alert sent: ") short_id))

-- When the engine returns a room, it is the one that it created under the rendered title, and
-- exactly this happened, in this order: the room was created, the speaker and the responders were
-- added, the message for the customer was said if it is not empty, the summary was said, the alert
-- was triggered, and its short id was said if it is not empty.
pub create_incident_room-some :
    (chat : Chat) (bot : IncidentBot) (date summary : Text) (speaker : ThaumPerson)
    (priority : AlertPriority) (room : Text)
    → (create_incident_room chat bot date summary speaker priority).1 ≡ some room
    → RoomIsReady chat bot
        (context_of bot date summary speaker)
        summary
        speaker
        priority
        (create_incident_room chat bot date summary speaker priority).0
        room
unfolding create_incident_room alert_room
create_incident_room-some chat bot date summary speaker priority room e =
    let ctx = context_of bot date summary speaker in
    let message = render_customer_service_message chat bot ctx in
    let tell : Text → Run Text = tell_and_alert chat message summary speaker priority in
    let (title, titled, rest_1, eq_1) =
      and_then-some ([], chat.render bot.room_title_template ctx)
        (λ t.
          and_then (perform (λ r. created t r) (chat.create_room t))
            (λ r. alert_room chat bot ctx summary speaker priority r))
        room e in
    let (room', creating, rest_2, eq_2) =
      and_then-some (perform (λ r. created title r) (chat.create_room title))
        (λ r. alert_room chat bot ctx summary speaker priority r) room rest_1 in
    let (creates, creation) =
      perform-some (λ r. created title r) (chat.create_room title) room' creating in
    let (invitees, found, rest_3, eq_3) =
      and_then-some ([], chat.get_responders)
        (λ ps.
          and_then
            (perform (λ _. invited room' (speaker ∷ ps))
              (ok_if (chat.add_members room' (speaker ∷ ps))))
            (λ _. tell room'))
        room rest_2 in
    let (u, inviting, rest_4, eq_4) =
      and_then-some
        (perform (λ _. invited room' (speaker ∷ invitees))
          (ok_if (chat.add_members room' (speaker ∷ invitees))))
        (λ _. tell room') room rest_3 in
    let invites =
      (perform-some (λ _. invited room' (speaker ∷ invitees))
        (ok_if (chat.add_members room' (speaker ∷ invitees))) u inviting).1 in
    let (same, short_id, alert_id, alerts, tells) =
      tell_and_alert-some chat message summary speaker priority room' room rest_4 in
    subst
      (RoomIsReady chat bot ctx summary speaker priority
        (create_incident_room chat bot date summary speaker priority).0)
      (sym same)
      (
        title,
        invitees,
        short_id,
        alert_id,
        titled,
        creates,
        found,
        alerts,
        eq_1 ∙ rw (eq_2, creation, eq_3, eq_4, invites, tells) refl,
      )
