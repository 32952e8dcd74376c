-- ===== src/Jira/Webhook.antt =====
-- alerts/plugins/jira/status_webhook.py: what a status webhook of Jira does to the mapping table
-- and says in the chat.
--
-- The template engine, the lookup of a person and the bot's mention format are parameters. `none`
-- as a result is an exception that leaves the handler; it has changed nothing. The log is not
-- modelled.
pub mod Linking
pub mod Messages
mod Tests
use thaum.Prelude.{
  ℕ, ◌+◌, ◌-◌, ◌*◌, ◌<◌, Bool, false, not, ◌&&◌, Option, none, some, List, [], ◌∷◌, ltb,
  if◌then◌else◌, all,
}
use thaum.Text.{Text, codes, text_eq, truthy, or_else, strip, has_char}
use thaum.Identity.{ThaumPerson, for_display}
use thaum.Jira.Mapping.{
  AlertRow, parse_short_id_from_alias, mapping_for_jira_alert_id, mapping_for_alias,
  apply_create_webhook,
}

-- A value of the JSON payload: null or missing, a text, or another value with its `str()` and its
-- truth value.
pub data Value : Type 0 where
  null : Value
  text : Text → Value
  other : Text → Bool → Value

-- `str(value or "")`.
unfoldable pub text_of : Value → Text
text_of null = []
text_of (text s) = s
text_of (other repr truth) = if truth then repr else []

-- The fields of `payload["alert"]`, all of them null where that is no object. `created_at` is
-- `int(createdAt)` in milliseconds, if it is there, converts and is not negative.
pub record AlertFields : Type 0 where
  pub alert_id : Value
  pub alias : Value
  pub username : Value
  pub created_at : Option ℕ

pub record Payload : Type 0 where
  pub action : Value
  pub alert : AlertFields

pub data Found : Type 0 where
  person : ThaumPerson → Found
  nobody failed : Found

pub record StatusBot : Type 0 where
  pub bot_key : Option Text
  pub team_description : Text
  pub lookup : Option (Text → Found)
  pub format_mention : ThaumPerson → Text

pub record StatusConfig : Type 0 where
  pub status_mentions : Bool
  pub send_escalate_msg : Bool
  pub ack_template : Text
  pub unack_template : Text
  pub escalate_template : Text
  pub accidental_close_template : Text
  pub accidental_close_minutes : ℕ

pub record Context : Type 0 where
  pub team_description : Text
  pub sender_name : Text
  pub sender_mention : Text
  pub responder_name : Text
  pub responder_mention : Text

pub record Message : Type 0 where
  pub room : Text
  pub text : Text
  pub markdown : Option Text

abbrev pub Outcome : Type 0
Outcome = Option (List AlertRow × List Message)

unfoldable pub bot_key_text : StatusBot → Text
bot_key_text bot = elim bot.bot_key [ none ↦ [] | some k ↦ k ]

-- `(username or "").strip()`, which raises on a truthy value that is no text.
username_text : Value → Option Text
unfolding strip
username_text null = some []
username_text (text s) = some (strip s)
username_text (other repr truth) = if truth then none else some []

from_lookup : Found → Text × Option ThaumPerson
from_lookup (person p) = (for_display p, some p)
from_lookup nobody = (codes "Someone", none)
from_lookup failed = (codes "Someone", none)

responder_of : Option (Text → Found) → Text → Text × Option ThaumPerson
unfolding from_lookup
responder_of lookup u =
    if not (truthy u)
    then (codes "Someone", none)
    else if has_char b'@' u
    then elim lookup [ none ↦ (codes "Someone", none) | some find ↦ from_lookup (find u) ]
    else (u, none)

mention_of : StatusBot → Bool → Text × Option ThaumPerson → Text
mention_of bot mentions (name, none) = name
mention_of bot mentions (name, some p) = if mentions then bot.format_mention p else name

status_context : StatusBot → StatusConfig → Text → Text → Context
unfolding strip responder_of mention_of
status_context bot cfg sender username =
    let sender_name = or_else (strip sender) (codes "Someone") in
    let found = responder_of bot.lookup username in
    record {
      team_description = bot.team_description;
      sender_name = sender_name;
      sender_mention = sender_name;
      responder_name = found.0;
      responder_mention = mention_of bot cfg.status_mentions found;
    }

-- `datetime.now - created < window`, in milliseconds.
unfoldable pub is_recent : Option ℕ → ℕ → ℕ → Bool
is_recent none now window = false
is_recent (some created) now window = ltb now (created + window)

room_of : Option AlertRow → Text
unfolding strip
room_of none = []
room_of (some r) = strip r.room_id

sender_of : Option AlertRow → Text
unfolding strip
sender_of none = []
sender_of (some r) = strip r.sender_name

said : Text → Option Text → Option Text → Option (List Message)
said room (some markdown) (some plain) =
    some (record { room = room; text = plain; markdown = some markdown } ∷ [])
said room _ _ = none

-- The row that gives the room: by the alert id, else by the alias.
pub route : Text → Text → Text → List AlertRow → Option AlertRow
route jid alias bot_key table =
    let by_id = mapping_for_jira_alert_id jid bot_key table in
    if truthy (room_of by_id)
    then by_id
    else if truthy alias && truthy bot_key
    then mapping_for_alias alias bot_key table
    else none

announced : List AlertRow → Option (List Message) → Outcome
announced table none = none
announced table (some messages) = some (table, messages)

pub linked : Option (List AlertRow) → Outcome
linked none = none
linked (some table) = some (table, [])

pub create_action : StatusBot → Payload → List AlertRow → Outcome
create_action bot payload table =
    let bot_key = bot_key_text bot in
    let alias = strip (text_of payload.alert.alias) in
    let existing =
      if truthy alias && truthy bot_key then mapping_for_alias alias bot_key table else none in
    if truthy bot_key
    then linked (
        apply_create_webhook (strip (text_of payload.alert.alert_id)) bot_key alias
          (parse_short_id_from_alias alias) (room_of existing) (sender_of existing) table)
    else some (table, [])

module _ (render : Text → Context → Option Text) where
  say_status_message : StatusConfig → Text → Text → Context → Option (List Message)
  say_status_message cfg room template ctx =
      if cfg.status_mentions && not (text_eq ctx.responder_mention ctx.responder_name)
      then said room (render template ctx)
          (render template (record ctx { responder_mention = ctx.responder_name }))
      else elim (render template ctx) [
        | none ↦ none
        | some markdown ↦ some (record { room = room; text = markdown; markdown = none } ∷ [])
      ]

  -- What is said for an action once the room is known.
  announce : StatusConfig → Text → Text → Option ℕ → ℕ → Context → Option (List Message)
  announce cfg action room created now ctx =
      if text_eq action (codes "Acknowledge")
      then say_status_message cfg room cfg.ack_template ctx
      else if text_eq action (codes "UnAcknowledge")
      then say_status_message cfg room cfg.unack_template ctx
      else if text_eq action (codes "Escalate")
      then (if cfg.send_escalate_msg
          then say_status_message cfg room cfg.escalate_template ctx
          else some [])
      else if text_eq action (codes "Close")
      then (if is_recent created now (cfg.accidental_close_minutes * 60000)
          then say_status_message cfg room cfg.accidental_close_template ctx
          else some [])
      else some []

  spoken :
      StatusBot
      → StatusConfig
      → ℕ
      → Payload
      → List AlertRow
      → Option AlertRow
      → Option Text
      → Outcome
  spoken bot cfg now payload table row none = none
  spoken bot cfg now payload table row (some u) = announced table (
      announce cfg (text_of payload.action) (room_of row) payload.alert.created_at now
        (status_context bot cfg (or_else (sender_of row) (codes "Someone")) u))

  routed : StatusBot → StatusConfig → ℕ → Payload → List AlertRow → Option AlertRow → Outcome
  routed bot cfg now payload table row =
      if truthy (strip (text_of payload.alert.alert_id)) && truthy (room_of row)
      then spoken bot cfg now payload table row (username_text payload.alert.username)
      else some (table, [])

  pub status_action : StatusBot → StatusConfig → ℕ → Payload → List AlertRow → Outcome
  status_action bot cfg now payload table = routed bot cfg now payload table (
      route (strip (text_of payload.alert.alert_id)) (strip (text_of payload.alert.alias))
        (bot_key_text bot) table)

  pub handle_jira_status_webhook : StatusBot → StatusConfig → ℕ → Payload → List AlertRow → Outcome
  handle_jira_status_webhook bot cfg now payload table =
      if text_eq (text_of payload.action) (codes "Create")
      then create_action bot payload table
      else status_action bot cfg now payload table
