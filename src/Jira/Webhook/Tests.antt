-- ===== src/Jira/Webhook/Tests.antt =====
-- The way of one alert: queued, linked by its Create webhook, and acknowledged.
use thaum.Prelude.{◌≡◌, refl, true, false, Option, none, some, List, [], ◌∷◌, ◌++◌}
use thaum.Text.{Text, codes, text_eq, truthy, is_space, lstrip, rstrip, strip, starts_with}
use thaum.Table.{find_row, update_row, add_row}
use thaum.Identity.{for_display}
use thaum.Jira.Mapping.{
  AlertRow, in_decade, is_digit, in_class, tail_match, digits_match, parse_short_id_from_alias,
  upsert_row, upsert_pending_row, mapping_for_alias, commit_unless, link_row, apply_create_webhook,
}
use thaum.Jira.Mapping.Keys.{IsValid}
use thaum.Jira.Webhook.{
  null, text, text_of, Payload, StatusBot, StatusConfig, Context, Message, bot_key_text, linked,
  create_action, handle_jira_status_webhook,
}
use thaum.Jira.Mapping.Validity.{upsert_pending_row-IsValid}
use thaum.Jira.Mapping.Lookup.{IsComplete}
use thaum.Jira.Webhook.Linking.{handle_jira_status_webhook-IsValid}
use thaum.Jira.Webhook.Messages.{SaysOnce, queued_alert_announced}

abbrev bot : StatusBot
bot = record {
  bot_key = some (codes "ops");
  team_description = codes "Operations";
  lookup = none;
  format_mention = for_display;
}

abbrev config : StatusConfig
config = record {
  status_mentions = false;
  send_escalate_msg = true;
  ack_template = codes "ack";
  unack_template = codes "unack";
  escalate_template = codes "escalate";
  accidental_close_template = codes "close";
  accidental_close_minutes = 5;
}

abbrev renders : Text → Context → Option Text
renders template ctx = some (template ++ codes ": " ++ ctx.responder_name)

abbrev create_hook : Payload
create_hook = record {
  action = text (codes "Create");
  alert = record {
    alert_id = text (codes "J1 ");
    alias = text (codes "THAUM-20260102-AB23");
    username = null;
    created_at = none;
  };
}

abbrev ack_hook : Payload
ack_hook = record {
  action = text (codes "Acknowledge");
  alert = record {
    alert_id = text (codes "J1 ");
    alias = null;
    username = text (codes "carol");
    created_at = none;
  };
}

abbrev linked_row : AlertRow
linked_row = record {
  bot_key = codes "ops";
  alias = codes "THAUM-20260102-AB23";
  short_id = codes "AB23";
  room_id = codes "room1";
  jira_alert_id = some (codes "J1");
  sender_name = codes "Ann";
}

create_links :
    handle_jira_status_webhook renders bot config 1000 create_hook (
      upsert_pending_row
        (codes "ops")
        (codes "THAUM-20260102-AB23")
        (codes "AB23")
        (codes "room1")
        (codes "Ann")
        [])
    ≡ some (linked_row ∷ [], [])
unfolding handle_jira_status_webhook create_action linked text_of bot_key_text apply_create_webhook
    upsert_pending_row upsert_row link_row commit_unless find_row update_row add_row strip lstrip
    rstrip is_space text_eq parse_short_id_from_alias digits_match tail_match is_digit in_decade
    in_class starts_with for_display mapping_for_alias
create_links = refl

empty_IsValid : IsValid []
empty_IsValid = record { keys = tt; jira_ids = tt }

is_complete : IsComplete (codes "ops") (codes "THAUM-20260102-AB23") (codes "AB23") (codes "room1")
unfolding strip lstrip rstrip is_space
is_complete = refl

has_id : truthy (strip (codes "J1 ")) ≡ true
unfolding strip lstrip rstrip is_space
has_id = refl

queued_alert_announced_example :
    (ms : List Message) × (handle_jira_status_webhook renders bot config 2000 ack_hook
        (linked_row ∷ [])
      ≡ some (linked_row ∷ [], ms))
    × SaysOnce (strip (codes "room1")) ms
unfolding text_of bot_key_text
queued_alert_announced_example =
    queued_alert_announced renders bot config 1000 2000 (codes "AB23") (codes "room1") (codes "Ann")
      (codes "carol") create_hook ack_hook [] (linked_row ∷ []) [] is_complete has_id refl
      create_links refl refl refl (λ ctx. (_, refl))

handle_jira_status_webhook-IsValid_example : IsValid (linked_row ∷ [])
handle_jira_status_webhook-IsValid_example =
    handle_jira_status_webhook-IsValid renders bot config 1000 create_hook
      (upsert_pending_row (codes "ops") (codes "THAUM-20260102-AB23") (codes "AB23") (codes "room1")
        (codes "Ann") [])
      (linked_row ∷ []) [] queued_IsValid create_links
  where
    queued_IsValid : IsValid (
        upsert_pending_row
          (codes "ops")
          (codes "THAUM-20260102-AB23")
          (codes "AB23")
          (codes "room1")
          (codes "Ann")
          [])
    queued_IsValid =
        upsert_pending_row-IsValid (codes "ops") (codes "THAUM-20260102-AB23") (codes "AB23")
          (codes "room1") (codes "Ann") [] empty_IsValid

is_unknown : mapping_for_alias (codes "THAUM-20260102-AB23") (codes "ops") [] ≡ none
unfolding mapping_for_alias find_row strip lstrip rstrip is_space
is_unknown = refl
