-- ===== src/Commands/Handlers.antt =====
-- thaum/handlers.py, bind_thaum_handlers: what the commands do and how they are registered.
--
-- Parameters: the chat and the alert plugin as in Engine, and the rest of the platform. What a handler
-- did before an exception stays.
pub mod Priority
pub mod Asking
use thaum.Prelude.{
  ℕ, Bool, true, false, not, ◌&&◌, Option, none, some, List, [], ◌∷◌, ◌++◌, map, ◌==◌,
  if◌then◌else◌,
}
use thaum.Text.{Text, codes, text_eq, truthy, strip, strip_opt, has_char}
use thaum.Identity.{ThaumPerson, for_display}
use thaum.Jira.Payload.{AlertPriority, normal, high}
use thaum.Engine.{
  triggered, Run, and_then, perform, Done, IncidentBot, Chat, say_in, create_incident_room,
}
use thaum.Routes.{Route, hears_all, dispatch}
use thaum.Commands.Patterns.{
  match_word, match_alert, match_ack, match_implode, match_usage, match_unknown,
}
use thaum.Commands.Card.{list, Json, CardBot, Templates, incident_prompt_card}

pub data Effect : Type 0 where
  engine : thaum.Engine.Effect → Effect
  carded : (room : Text) → Json → Effect
  acknowledged : (alert_id : Text) → ThaumPerson → Effect
  room_deleted : (room : Text) → ThaumPerson → Effect
  message_deleted : (message_id : Text) → Effect

-- `none` where an exception leaves the handler.
abbrev pub Ran : Type 0
Ran = List Effect × Option Done

pub record CommandBot : Type 0 where
  pub incident : IncidentBot
  pub card : CardBot
  pub high_pri_on : Bool
  pub send_alerts : Bool
  pub supports_acknowledge : Bool

-- The bot's own operations; `usage` is the rendered text of the commands.
pub record Platform : Type 0 where
  pub chat : Chat
  pub templates : Templates
  pub room_title : Text → Text
  pub send_card : Text → Json → Bool
  pub delete_room : Text → Bool
  pub usage : Option Text
  pub get_person : Text → Option ThaumPerson

pub record MessageContext : Type 0 where
  pub room_id : Text
  pub person : ThaumPerson
  pub date : Text

abbrev pub in_engine : {A : Type 0} → Run A → Ran
in_engine run = (map engine run.0, elim run.1 [ none ↦ none | some _ ↦ some tt ])

-- The engine catches every exception.
abbrev pub caught : {A : Type 0} → Run A → Ran
caught run = (map engine run.0, some tt)

abbrev pub effect_if : Bool → Effect → Ran
effect_if true e = (e ∷ [], some tt)
effect_if false e = ([], none)

abbrev pub priority_of : Bool → AlertPriority
priority_of true = high
priority_of false = normal

abbrev pub send_prompt : Platform → MessageContext → Option Json → Ran
send_prompt p m none = ([], none)
send_prompt p m (some card) = effect_if (p.send_card m.room_id card) (carded m.room_id card)

-- The command is `emergency` or `help`.
unfoldable pub handle_help_emergency :
    Platform → CommandBot → MessageContext → Bool → Option Text → Ran
unfolding strip_opt strip create_incident_room incident_prompt_card
handle_help_emergency p bot m emergency raw =
    let summary = strip_opt raw in
    if truthy summary
    then caught
        (create_incident_room p.chat bot.incident m.date summary m.person (priority_of emergency))
    else send_prompt p m (incident_prompt_card p.templates bot.card emergency)

unfoldable pub alert_message : ThaumPerson → Text → Text → Text
unfolding for_display
alert_message person title msg =
    let start = for_display person ++ codes " needs you in " ++ title in
    if truthy msg then start ++ codes ": " ++ msg else start

unfoldable pub sent_message : Text → Text
sent_message short_id =
    if truthy short_id
    then codes "Alert sent. Tracking ID: **" ++ short_id ++ codes "**"
    else codes "Alert sent."

unfoldable pub trigger_in_room : Chat → Text → ThaumPerson → AlertPriority → Text → Run Done
unfolding and_then perform say_in sent_message
trigger_in_room chat room person priority text =
    and_then
      (perform (λ _. triggered text room person priority)
        (chat.trigger_alert text room person priority))
      (λ ids. say_in chat room (sent_message ids.0))

unfoldable pub handle_alert : Platform → CommandBot → MessageContext → Bool → Option Text → Ran
unfolding strip_opt strip say_in trigger_in_room alert_message
handle_alert p bot m urgent raw =
    if urgent && not bot.high_pri_on
    then in_engine (
        say_in p.chat m.room_id
          (codes "High priority `alert!` is not enabled for this bot. Use `alert` instead."))
    else in_engine (
        trigger_in_room p.chat m.room_id m.person (priority_of urgent)
          (alert_message m.person (p.room_title m.room_id) (strip_opt raw)))

unfoldable pub handle_ack : MessageContext → Text → Ran
handle_ack m alert_id = (acknowledged alert_id m.person ∷ [], some tt)

unfoldable pub handle_implode : Platform → MessageContext → Ran
handle_implode p m = effect_if (p.delete_room m.room_id) (room_deleted m.room_id m.person)

unfoldable pub handle_usage : Platform → MessageContext → Option Text → Ran
unfolding say_in
handle_usage p m none = ([], none)
handle_usage p m (some rendered) = in_engine (say_in p.chat m.room_id rendered)

unfoldable pub handle_unknown : Platform → CommandBot → MessageContext → Text → Ran
unfolding say_in
handle_unknown p bot m cmd = in_engine (
    say_in p.chat m.room_id (
      codes "Unknown command "
      ++ cmd
      ++ codes ". Please use @"
      ++ bot.card.handle
      ++ codes " usage to see a list of commands"))

-- A handler gets the text again and takes its groups from it.
abbrev pub Handler : Type 0
Handler = Text → Ran

abbrev pub matched : {A : Type 0} → Option A → (A → Ran) → Ran
matched none f = ([], some tt)
matched (some a) f = f a

abbrev pub found : {A : Type 0} → Option A → Bool
found none = false
found (some a) = true

abbrev pub route_of : {A : Type 0} → ℕ → (Text → Option A) → (A → Ran) → Route Handler
route_of priority match handle = record {
  priority = priority;
  pattern = λ text. found (match text);
  handler = λ text. matched (match text) handle;
}

module _ (p : Platform) (bot : CommandBot) (m : MessageContext) where
  abbrev pub help_route : Route Handler
  help_route = route_of 10 (match_word (codes "help")) (handle_help_emergency p bot m false)

  abbrev pub emergency_route : Route Handler
  emergency_route =
      route_of 10 (match_word (codes "emergency")) (handle_help_emergency p bot m true)

  abbrev pub alert_route : Route Handler
  alert_route = route_of 10 match_alert (λ groups. handle_alert p bot m groups.0 groups.1)

  abbrev pub ack_route : Route Handler
  ack_route = route_of 10 match_ack (handle_ack m)

  abbrev pub implode_route : Route Handler
  implode_route = route_of 80 match_implode (λ _. handle_implode p m)

  abbrev pub usage_route : Route Handler
  usage_route = route_of 90 match_usage (λ _. handle_usage p m p.usage)

  abbrev pub unknown_route : Route Handler
  unknown_route = route_of 99 match_unknown (handle_unknown p bot m)

  abbrev pub route_if : Bool → Route Handler → List (Route Handler)
  route_if true r = r ∷ []
  route_if false r = []

  -- The registrations, in the source's order.
  unfoldable pub bind_thaum_handlers : List (Route Handler)
  bind_thaum_handlers =
      help_route
      ∷ (route_if bot.high_pri_on emergency_route
          ++ (route_if bot.send_alerts alert_route
              ++ (route_if (bot.send_alerts && bot.supports_acknowledge) ack_route
                  ++ (implode_route ∷ usage_route ∷ unknown_route ∷ []))))

  abbrev pub run_route : Text → Option (Route Handler) → Ran
  run_route text none = ([], some tt)
  run_route text (some r) = r.handler text

  -- A message of the chat: the first route that matches runs.
  unfoldable pub on_message : Text → Ran
  unfolding bind_thaum_handlers hears_all dispatch
  on_message text = run_route text (dispatch text (hears_all bind_thaum_handlers []))

-- The submitted inputs of a card.
pub record Submission : Type 0 where
  pub action : Option Text
  pub summary : Option Text
  pub is_emergency : Option Text
  pub person_id : Text
  pub message_id : Option Text

unfoldable pub plus_to_space : Text → Text
plus_to_space [] = []
plus_to_space (c ∷ s) = (if c == b'+' then b' ' else c) ∷ plus_to_space s

unfoldable pub submitted_summary : Option Text → Text
unfolding has_char plus_to_space
submitted_summary none = codes "No summary provided"
submitted_summary (some s) = if not (has_char b' ' s) && has_char b'+' s then plus_to_space s else s

is_submit : Option Text → Bool
unfolding text_eq
is_submit none = false
is_submit (some a) = text_eq a (codes "submit_incident")

is_true : Option Text → Bool
unfolding text_eq
is_true none = false
is_true (some v) = text_eq v (codes "true")

delete_card : Option Text → List Effect
delete_card none = []
delete_card (some []) = []
delete_card (some (c ∷ mid)) = message_deleted (c ∷ mid) ∷ []

submit_for : Platform → CommandBot → Text → Submission → Option ThaumPerson → Ran
unfolding submitted_summary is_true delete_card create_incident_room
submit_for p bot date s none = ([], none)
submit_for p bot date s (some speaker) = (
  map engine
        (create_incident_room p.chat bot.incident date (submitted_summary s.summary) speaker
          (priority_of (is_true s.is_emergency))).0
      ++ delete_card s.message_id,
  some tt,
)

unfoldable pub handle_actions : Platform → CommandBot → Text → Submission → Ran
unfolding is_submit submit_for
handle_actions p bot date s =
    if is_submit s.action then submit_for p bot date s (p.get_person s.person_id) else ([], some tt)
