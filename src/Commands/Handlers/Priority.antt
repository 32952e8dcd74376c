-- ===== src/Commands/Handlers/Priority.antt =====
-- thaum/handlers.py: a bot without high priority sends no alert of high priority for a message.
use thaum.Prelude.{
  ◌≡◌, refl, inl, inr, Bool, true, false, ◌&&◌, Option, none, some, List, [], ◌∷◌, ◌++◌, map,
  Option-cases, All, All-append, if-elim,
}
use thaum.Text.{Text, codes, truthy, strip_opt}
use thaum.Jira.Payload.{normal}
use thaum.Commands.Handlers.{
  Effect, engine, carded, acknowledged, room_deleted, message_deleted, Ran, CommandBot, Platform,
  MessageContext, in_engine, caught, effect_if, send_prompt, handle_help_emergency, alert_message,
  sent_message, trigger_in_room, handle_alert, handle_ack, handle_implode, handle_usage,
  handle_unknown, Handler, matched, emergency_route, alert_route, ack_route, route_if,
  bind_thaum_handlers, on_message,
}
use thaum.Engine.{triggered, perform, say_in, create_incident_room}
use thaum.Engine.Calm.{
  IsCalm, and_then-IsCalm, perform-IsCalm, say_in-IsCalm, create_incident_room-IsCalm,
}
use thaum.Routes.{Route, hears_all, dispatch}
use thaum.Routes.Members.{All-hears_all, All-dispatch}
use thaum.Commands.Patterns.{
  match_word, match_alert, match_ack, match_implode, match_usage, match_unknown,
}
use thaum.Commands.Card.{Json, incident_prompt_card}

abbrev pub HasNoUrgent : Effect → Type 0
HasNoUrgent (engine e) = IsCalm e
HasNoUrgent (carded room card) = Unit
HasNoUrgent (acknowledged alert_id person) = Unit
HasNoUrgent (room_deleted room person) = Unit
HasNoUrgent (message_deleted message_id) = Unit

-- From the engine's effects to the handler's.
map-HasNoUrgent : (es : List thaum.Engine.Effect) → All IsCalm es → All HasNoUrgent (map engine es)
map-HasNoUrgent [] h = tt
map-HasNoUrgent (e ∷ es) (h, hs) = (h, map-HasNoUrgent es hs)

effect_if-HasNoUrgent : (b : Bool) (e : Effect) → HasNoUrgent e → All HasNoUrgent (effect_if b e).0
effect_if-HasNoUrgent true e h = (h, tt)
effect_if-HasNoUrgent false e h = tt

found-HasNoUrgent :
    {A : Type 0} (o : Option A) (f : A → Ran)
    → ((a : A) → All HasNoUrgent (f a).0)
    → All HasNoUrgent (matched o f).0
found-HasNoUrgent none f h = tt
found-HasNoUrgent (some a) f h = h a

module _ (p : Platform) (bot : CommandBot) (m : MessageContext) where
  say-HasNoUrgent : (text : Text) → All HasNoUrgent (in_engine (say_in p.chat m.room_id text)).0
  say-HasNoUrgent text =
      map-HasNoUrgent (say_in p.chat m.room_id text).0 (say_in-IsCalm p.chat m.room_id text)

  send_prompt-HasNoUrgent : (card : Option Json) → All HasNoUrgent (send_prompt p m card).0
  send_prompt-HasNoUrgent none = tt
  send_prompt-HasNoUrgent (some card) =
      effect_if-HasNoUrgent (p.send_card m.room_id card) (carded m.room_id card) tt

  help-HasNoUrgent :
      (raw : Option Text) → All HasNoUrgent (handle_help_emergency p bot m false raw).0
  unfolding handle_help_emergency
  help-HasNoUrgent raw =
      let summary = strip_opt raw in
      if-elim (λ (r : Ran). All HasNoUrgent r.0) (truthy summary)
        (caught (create_incident_room p.chat bot.incident m.date summary m.person normal))
        (send_prompt p m (incident_prompt_card p.templates bot.card false))
        (λ _.
          map-HasNoUrgent
            (create_incident_room p.chat bot.incident m.date summary m.person normal).0
            (create_incident_room-IsCalm p.chat summary m.person bot.incident m.date))
        (λ _. send_prompt-HasNoUrgent (incident_prompt_card p.templates bot.card false))

  trigger_in_room-IsCalm :
      (text : Text) → All IsCalm (trigger_in_room p.chat m.room_id m.person normal text).0
  unfolding trigger_in_room
  trigger_in_room-IsCalm text =
      and_then-IsCalm
        (perform (λ _. triggered text m.room_id m.person normal)
          (p.chat.trigger_alert text m.room_id m.person normal))
        (λ ids. say_in p.chat m.room_id (sent_message ids.0))
        (perform-IsCalm (λ _. triggered text m.room_id m.person normal)
          (p.chat.trigger_alert text m.room_id m.person normal) (λ _. tt))
        (λ ids. say_in-IsCalm p.chat m.room_id (sent_message ids.0))

  alert-HasNoUrgent :
      (urgent : Bool) (raw : Option Text)
      → bot.high_pri_on ≡ false
      → All HasNoUrgent (handle_alert p bot m urgent raw).0
  unfolding handle_alert
  alert-HasNoUrgent true raw off = rw off (
      say-HasNoUrgent
        (codes "High priority `alert!` is not enabled for this bot. Use `alert` instead."))
  alert-HasNoUrgent false raw off =
      let text = alert_message m.person (p.room_title m.room_id) (strip_opt raw) in
      map-HasNoUrgent (trigger_in_room p.chat m.room_id m.person normal text).0
        (trigger_in_room-IsCalm text)

  usage-HasNoUrgent : (o : Option Text) → All HasNoUrgent (handle_usage p m o).0
  unfolding handle_usage
  usage-HasNoUrgent none = tt
  usage-HasNoUrgent (some rendered) = say-HasNoUrgent rendered

  abbrev IsSafeRoute : Route Handler → Type 0
  IsSafeRoute r = (text : Text) → All HasNoUrgent (r.handler text).0

  route_if-IsSafe :
      (b : Bool) (r : Route Handler)
      → (b ≡ true → IsSafeRoute r)
      → All IsSafeRoute (route_if p bot m b r)
  route_if-IsSafe true r h = (h refl, tt)
  route_if-IsSafe false r h = tt

  bind-IsSafe : bot.high_pri_on ≡ false → All IsSafeRoute (bind_thaum_handlers p bot m)
  unfolding bind_thaum_handlers handle_ack handle_implode handle_unknown
  bind-IsSafe off = (
    (λ text.
        found-HasNoUrgent (match_word (codes "help") text) (handle_help_emergency p bot m false)
          help-HasNoUrgent),
    All-append IsSafeRoute (route_if p bot m bot.high_pri_on (emergency_route p bot m)) _
        (route_if-IsSafe bot.high_pri_on (emergency_route p bot m) (λ on. cc))
        (All-append IsSafeRoute (route_if p bot m bot.send_alerts (alert_route p bot m)) _
          (route_if-IsSafe bot.send_alerts (alert_route p bot m) (λ _ text.
            found-HasNoUrgent (match_alert text) (λ groups. handle_alert p bot m groups.0 groups.1)
              (λ groups. alert-HasNoUrgent groups.0 groups.1 off)))
          (All-append IsSafeRoute
            (route_if p bot m (bot.send_alerts && bot.supports_acknowledge) (ack_route p bot m)) _
            (route_if-IsSafe (bot.send_alerts && bot.supports_acknowledge) (ack_route p bot m)
              (λ _ text. found-HasNoUrgent (match_ack text) (handle_ack m) (λ alert_id. (tt, tt))))
            (
              (λ text.
                  found-HasNoUrgent (match_implode text) (λ _. handle_implode p m)
                    (λ _.
                      effect_if-HasNoUrgent (p.delete_room m.room_id)
                        (room_deleted m.room_id m.person) tt)),
              (
                (λ text.
                    found-HasNoUrgent (match_usage text) (λ _. handle_usage p m p.usage)
                      (λ _. usage-HasNoUrgent p.usage)),
                (
                  (λ text. found-HasNoUrgent (match_unknown text) (handle_unknown p bot m) (λ cmd.
                      say-HasNoUrgent (
                        codes "Unknown command "
                        ++ cmd
                        ++ codes ". Please use @"
                        ++ bot.card.handle
                        ++ codes " usage to see a list of commands"))),
                  tt,
                ),
              ),
            ))),
  )

-- On a bot without high priority no message, whatever its text, triggers an alert of high priority:
-- the command `emergency` is not registered, `alert!` is refused, and every other command uses the
-- normal priority, in a new room as in an old one.
pub on_message-HasNoUrgent :
    (p : Platform) (bot : CommandBot) (m : MessageContext) (text : Text)
    → bot.high_pri_on ≡ false
    → All HasNoUrgent (on_message p bot m text).0
unfolding on_message
on_message-HasNoUrgent p bot m text off =
    let routes = hears_all (bind_thaum_handlers p bot m) [] in
    elim (Option-cases (dispatch text routes)) [
      | inl no_route ↦ rw no_route tt
      | inr (r, called) ↦ rw called (
          All-dispatch (IsSafeRoute p bot m) text routes r
            (All-hears_all (IsSafeRoute p bot m) (bind_thaum_handlers p bot m) []
              (bind-IsSafe p bot m off) tt)
            called text)
    ]
