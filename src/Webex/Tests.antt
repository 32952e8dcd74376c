-- ===== src/Webex/Tests.antt =====
-- Tests of the driver for Webex.
use thaum.Prelude.{◌≡◌, refl, true, false, none, some, List, [], ◌∷◌, ◌++◌, none-some}
use thaum.Text.{
  Text, codes, text_eq, is_space, lstrip, rstrip, strip, strip_opt, lower_char, lower, has_char,
  rstrip_char, one_of,
}
use thaum.Table.{find_row, rows_where}
use thaum.Lookup.Cache.{empty_cache, of_platform_id}
use thaum.Secrets.{
  BotWebhookHmac, of_bot, insert_or_race, read_or, ensure_rounds, ensure_bot_webhook_hmac_secret,
}
use thaum.Secrets.Tests.{plain_cipher, plain_cipher-IsCipher, late_row, drawn, is_named}
use thaum.Webex.Labels.{
  after_literal, after_close, after_name, remove_mentions, exactly, remove_emails,
  strip_webex_self_mentions, remove_label, remove_labels, strip_leading_bot_labels,
  me_email_addresses, Me, clean_text, process_message,
}
use thaum.Webex.Secret.{
  shared_db, WebexBot, Draw, ensure_with, cached, shared_secret, secret_by_mode,
  effective_hmac_secret, validate_signature,
}
use thaum.Webex.Secret.Agreeing.{HasCached, validate_signature-agrees}
use thaum.Webex.Hooks.{
  Webhook, UrlLibrary, normalize_target_url, normalize_target_url_for_prune, leads_to, Api, HookBot,
  messages,
}
use thaum.Webex.Hooks.Registered.{elsewhere}
use thaum.Webex.Rooms.{webex, deny, delete_room}

abbrev me : Me
me = record {
  id = codes "ID1";
  emails = some (codes "bot@x") ∷ some (codes "none") ∷ [];
  display_name = some (codes "askDBA");
  handle = codes "askDBA";
  bot_key = none;
}

cleans :
    process_message exactly me (record {
      is_direct = false;
      mentioned_people = codes "ID1" ∷ [];
      markdown = some (codes "<@personId:ID1|Ask DBA> help <@personEmail:bot@x>: x");
      text = none;
    })
    ≡ some (codes "help : x")
unfolding process_message clean_text strip_leading_bot_labels strip_webex_self_mentions
    me_email_addresses remove_labels remove_label remove_emails remove_mentions after_literal
    after_name after_close strip_opt strip lstrip rstrip is_space one_of text_eq lower lower_char
    has_char
cleans = refl

drops_label :
    process_message exactly me (record {
      is_direct = true;
      mentioned_people = [];
      markdown = none;
      text = some (codes "askDBA  usage");
    })
    ≡ some (codes "usage")
unfolding process_message clean_text strip_leading_bot_labels strip_webex_self_mentions
    me_email_addresses remove_labels remove_label remove_emails remove_mentions after_literal
    after_name after_close strip_opt strip lstrip rstrip is_space one_of text_eq lower lower_char
    has_char
drops_label = refl

abbrev draw : Text → Draw
draw token = record {
  key_id = codes "A";
  first = drawn token [];
  second = drawn token [];
  third = drawn token [];
}

abbrev worker : WebexBot
worker = record {
  hmac_mode = shared_db;
  hmac_secret = none;
  cache_plain = none;
  cache_monotonic = 0;
  cache_refresh = 60000;
  bot_key = codes "ops";
}

abbrev toy_hmac : Text → Text → Text
toy_hmac secret body = codes "h" ++ (secret ++ body)

worker_has : (rows : List BotWebhookHmac) → HasCached plain_cipher worker rows
worker_has rows secret e = absurd (none-some secret e)

drawn_secret :
    (effective_hmac_secret plain_cipher (draw (codes "t1")) 5 worker []).0
    ≡ some (some (codes "t1"))
unfolding effective_hmac_secret secret_by_mode shared_secret cached ensure_with
    ensure_bot_webhook_hmac_secret ensure_rounds read_or insert_or_race find_row of_bot strip lstrip
    rstrip is_space
drawn_secret = refl

validate_signature-agrees_example :
    (validate_signature toy_hmac plain_cipher
      (draw (codes "t2"))
      9
      (codes "body")
      (some (toy_hmac (codes "t1") (codes "body")))
      worker
      ((effective_hmac_secret plain_cipher (draw (codes "t1")) 5 worker []).2 ++ late_row ∷ [])).0
    ≡ some true
validate_signature-agrees_example =
    validate_signature-agrees toy_hmac plain_cipher (draw (codes "t1")) (draw (codes "t2")) 5 9
      worker worker (codes "body") (codes "t1") [] (late_row ∷ []) plain_cipher-IsCipher refl refl
      refl is_named refl (worker_has [])
      (worker_has
        ((effective_hmac_secret plain_cipher (draw (codes "t1")) 5 worker []).2 ++ late_row ∷ []))
      drawn_secret

-- Texts whose host is what they start with.
abbrev toy_urls : UrlLibrary
toy_urls = record { netloc = λ url. url; path_and_query = λ url. []; unsplit = λ host path. host }

abbrev api : Api
api = record {
  lists = true;
  deletes = λ id. true;
  creates = λ resource. true;
  new_id = λ resource. codes "new " ++ resource;
}

abbrev hook_to : Text → Text → Webhook
hook_to id url = record {
  id = id;
  name = codes "n";
  target_url = url;
  resource = messages;
  status = none;
  secret = none;
}

abbrev old_hooks : List Webhook
old_hooks =
    hook_to (codes "1") (codes "host/bot/")
    ∷ hook_to (codes "2") (codes "other")
    ∷ hook_to (codes "3") (codes "host/bot")
    ∷ []

abbrev hook_bot : HookBot
hook_bot = record { endpoint = codes "host/bot"; handle = codes "dba"; bot_key = codes "ops" }

one_elsewhere :
    elsewhere toy_urls (codes "host/bot") old_hooks ≡ hook_to (codes "2") (codes "other") ∷ []
unfolding rows_where leads_to normalize_target_url_for_prune normalize_target_url rstrip_char
    text_eq
one_elsewhere = refl

no_row : find_row (of_platform_id webex (codes "P1")) empty_cache.platform_ids ≡ none
unfolding find_row
no_row = refl

denied :
    delete_room
      (λ text. true)
      true
      (codes "ID1")
      (codes "dba")
      (some (record { title = some (codes "Ops"); creator_id = codes "P2" }))
    ≡ record {
      said = codes "Access Denied: dba did not create room 'Ops'" ∷ [];
      deleted = false;
      raised = false;
    }
unfolding delete_room deny text_eq
denied = refl
