-- ===== src/Commands/Tests.antt =====
-- Tests of the chat commands.
use thaum.Prelude.{◌≡◌, refl, true, false, none, some, [], ◌∷◌, ◌++◌, if◌then◌else◌, All}
use thaum.Text.{codes, text_eq, truthy, is_space, lstrip, rstrip, strip, strip_opt, has_char}
use thaum.Jira.Payload.{normal}
use thaum.Engine.{said, perform, say_in, create_incident_room}
use thaum.Engine.Tests.{speaker, chat, bot}
use thaum.Commands.Patterns.{
  fold, after_word, rest_of_line, after_colon, message_tail, match_word, match_alert, in_id_class,
  four_of_class, spaced_id, match_ack,
}
use thaum.Commands.Card.{
  string, list, Json, object, no_object, is_card_type, is_text, is_list, is_valid_incident_card,
  CardBot, Templates, extra_card_text, card_context, render_card, card_source, or_default,
  incident_prompt_card,
}
use thaum.Commands.Handlers.{
  engine, CommandBot, Platform, MessageContext, caught, handle_alert, on_message, plus_to_space,
  submitted_summary,
}
use thaum.Commands.Handlers.Priority.{HasNoUrgent, on_message-HasNoUrgent}
use thaum.Commands.Handlers.Asking.{on_message-help, on_message-two_lines}

abbrev valid_card : Json
valid_card =
    object (some (string (codes "AdaptiveCard"))) (some (string (codes "1.3"))) (some list)
      (some list)

-- Inline templates give nothing that is a card; the default one does.
abbrev templates : Templates
templates = record {
  render_extra = λ source ctx. some source;
  render = λ source ctx. some source;
  loads = λ rendered. if truthy rendered then some valid_card else some no_object;
  read_text = λ path. none;
  default_template = codes "default";
}

abbrev card_bot : CardBot
card_bot = record {
  incident_prompt_card_template = none;
  incident_prompt_card_template_path = some (codes "missing");
  card_extra_text_template = none;
  team_description = codes "Database";
  display_name = some (codes " ");
  handle = codes "askDBA";
  phone_number = none;
  send_alerts = true;
  high_pri_on = false;
  base_url = none;
}

abbrev dba : CommandBot
dba = record {
  incident = bot;
  card = card_bot;
  high_pri_on = false;
  send_alerts = true;
  supports_acknowledge = true;
}

abbrev platform : Platform
platform = record {
  chat = chat;
  templates = templates;
  room_title = λ room. codes "Ops";
  send_card = λ room card. true;
  delete_room = λ room. true;
  usage = none;
  get_person = λ person_id. some speaker;
}

abbrev message : MessageContext
message = record { room_id = codes "r1"; person = speaker; date = codes "2026-01-02" }

-- A file that cannot be read gives way to the default card.
falls_back : incident_prompt_card templates card_bot false ≡ some valid_card
unfolding incident_prompt_card card_source or_default render_card is_valid_incident_card
    is_card_type is_text is_list card_context extra_card_text strip_opt strip lstrip rstrip is_space
    text_eq
falls_back = refl

takes_summary :
    match_word (codes "help") (codes "Help : disk full") ≡ some (some (codes "disk full"))
unfolding match_word after_word fold message_tail after_colon lstrip rest_of_line is_space
takes_summary = refl

takes_id : match_ack (codes "ack k7qr please") ≡ some (codes "k7qr")
unfolding match_ack after_word fold spaced_id four_of_class in_id_class lstrip rest_of_line is_space
takes_id = refl

is_urgent : match_alert (codes "ALERT!") ≡ some (true, none)
unfolding match_alert match_word after_word fold message_tail
is_urgent = refl

refuses_urgent : handle_alert platform dba message true none ≡ (
  engine (
        said
          (codes "r1")
          (codes "High priority `alert!` is not enabled for this bot. Use `alert` instead."))
      ∷ [],
  some tt,
)
unfolding handle_alert say_in perform
refuses_urgent = refl

submits : submitted_summary (some (codes "disk+full")) ≡ codes "disk full"
unfolding submitted_summary plus_to_space has_char
submits = refl

on_message-HasNoUrgent_example :
    All HasNoUrgent (on_message platform dba message (codes "alert! now")).0
on_message-HasNoUrgent_example =
    on_message-HasNoUrgent platform dba message (codes "alert! now") refl

one_line : has_char 10 (codes "disk full ") ≡ false
unfolding has_char
one_line = refl

starts : lstrip (codes "disk full ") ≡ codes "disk full "
unfolding lstrip is_space
starts = refl

is_said : truthy (strip (codes "disk full ")) ≡ true
unfolding strip lstrip rstrip is_space
is_said = refl

on_message-help_example :
    on_message platform dba message (codes "help: " ++ codes "disk full ")
    ≡ caught (
        create_incident_room chat bot
          (codes "2026-01-02")
          (strip (codes "disk full "))
          speaker
          normal)
on_message-help_example =
    on_message-help platform dba message (codes "disk full ") one_line starts is_said

no_space : is_space b'd' ≡ false
unfolding is_space
no_space = refl

on_message-two_lines_example :
    on_message platform dba message
      (codes "help: " ++ b'd' ∷ (codes "own" ++ 10 ∷ b's' ∷ codes "ince"))
    ≡ ([], some tt)
on_message-two_lines_example =
    on_message-two_lines platform dba message b'd' b's' (codes "own") (codes "ince") no_space
