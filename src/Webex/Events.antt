-- ===== src/Webex/Events.antt =====
-- bots/plugins/webex_bot.py: the events of Webex, from the text of a message to the command that runs,
-- and the interval of the bot's maintenance task.
use thaum.Prelude.{ℕ, Bool, Option, none, some, List, [], ◌∷◌, ltb, if◌then◌else◌}
use thaum.Text.{Text, text_eq}
use thaum.Identity.{ThaumPerson}
use thaum.Commands.Handlers.{Ran, CommandBot, Platform, on_message, Submission, handle_actions}
use thaum.Lookup.Cache.{Cache}
use thaum.Webex.Labels.{Me, WebexMessage, process_message}
use thaum.Webex.Rooms.{ApiPerson, get_person}

-- What a message event carries, with the answers of the API.
pub record Event : Type 0 where
  pub sender : Text
  pub room_id : Text
  pub content : WebexMessage
  pub answer : Option ApiPerson
  pub now : ℕ
  pub date : Text

-- A submitted card, with the date and the answer of the API for its sender.
pub data Events : Type 0 where
  message : Event → Events
  attachment_action : (date : Text) → Submission → Events
  other : Events

-- The exception of a lookup without a person leaves the event.
handle_by : Platform → CommandBot → Text → Text → Text → Option ThaumPerson → Ran
unfolding on_message
handle_by p bot room_id date clean none = ([], none)
handle_by p bot room_id date clean (some who) =
    on_message p bot (record { room_id = room_id; person = who; date = date }) clean

handle_clean : Text → Platform → CommandBot → Event → Cache → Option Text → Ran × Cache
unfolding handle_by get_person
handle_clean plugin p bot e c none = (([], some tt), c)
handle_clean plugin p bot e c (some clean) =
    let (who, c') = get_person plugin e.now e.sender e.answer c in
    (handle_by p bot e.room_id e.date clean who, c')

-- A message of the bot itself is left alone.
unfoldable pub handle_message :
    (ℕ → ℕ → Bool) → Me → Text → Platform → CommandBot → Event → Cache → Ran × Cache
unfolding handle_clean process_message text_eq
handle_message same me plugin p bot e c =
    if text_eq e.sender me.id
    then (([], some tt), c)
    else handle_clean plugin p bot e c (process_message same me e.content)

unfoldable pub handle_event :
    (ℕ → ℕ → Bool) → Me → Text → Platform → CommandBot → Events → Cache → Ran × Cache
unfolding handle_message handle_actions
handle_event same me plugin p bot (message e) c = handle_message same me plugin p bot e c
handle_event same me plugin p bot (attachment_action date s) c = (handle_actions p bot date s, c)
handle_event same me plugin p bot other c = (([], some tt), c)

-- The shortest probe interval of the bots, at most an hour, in milliseconds.
unfoldable pub shortest : List ℕ → ℕ
shortest [] = 3600000
shortest (probe ∷ probes) = let rest = shortest probes in if ltb probe rest then probe else rest

unfoldable pub tick_interval : List ℕ → ℕ
unfolding shortest
tick_interval probes =
    let interval = shortest probes in if ltb interval 60000 then 60000 else interval
