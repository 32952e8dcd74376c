-- ===== src/Jira/Mapping/Tests.antt =====
-- Runs of the mapping table: an alert that is queued with a padded room and linked by its webhook.
use thaum.Prelude.{◌≡◌, refl, true, none, some, List, [], ◌∷◌, arith}
use thaum.Text.{codes, text_eq, truthy, is_space, lstrip, rstrip, strip, starts_with}
use thaum.Table.{find_row, update_row}
use thaum.Alerts.{generate_short_id}
use thaum.Jira.Payload.{alias_of}
use thaum.Jira.Mapping.{
  AlertRow, in_decade, is_digit, in_class, tail_match, digits_match, parse_short_id_from_alias,
  mapping_for_jira_alert_id, mapping_for_alias, commit_unless, link_row, apply_create_webhook,
}
use thaum.Jira.Mapping.Queued.{IsFreeShortId}
use thaum.Jira.Mapping.Keys.{IsValid}
use thaum.Jira.Mapping.Lookup.{IsComplete, mapping_for_jira_alert_id-apply_create_webhook}
use thaum.Jira.Mapping.ShortId.{parse_short_id-alias_of}

abbrev queued : AlertRow
queued = record {
  bot_key = codes "ops";
  alias = codes "THAUM-20260102-AB23";
  short_id = codes "AB23";
  room_id = codes "room1";
  jira_alert_id = none;
  sender_name = codes "Ann";
}

abbrev linked_before : AlertRow
linked_before = record {
  bot_key = codes "ops";
  alias = codes "THAUM-20260101-ZZ99";
  short_id = codes "ZZ99";
  room_id = codes "room0";
  jira_alert_id = some (codes "J0");
  sender_name = codes "Bob";
}

abbrev one_row : List AlertRow
one_row = linked_before ∷ []

abbrev two_rows : List AlertRow
two_rows = linked_before ∷ queued ∷ []

one_row-IsValid : IsValid one_row
unfolding find_row
one_row-IsValid = record { keys = (refl, tt); jira_ids = (refl, tt) }

two_rows-IsValid : IsValid two_rows
unfolding find_row text_eq
two_rows-IsValid = record { keys = (refl, (refl, tt)); jira_ids = (refl, (refl, tt)) }

abbrev two_rows_linked : List AlertRow
two_rows_linked = linked_before ∷ record queued { jira_alert_id = some (codes "J1") } ∷ []

links :
    apply_create_webhook (codes " J1") (codes "ops") queued.alias [] [] [] two_rows
    ≡ some two_rows_linked
unfolding apply_create_webhook link_row find_row update_row commit_unless strip lstrip rstrip
    is_space text_eq parse_short_id_from_alias digits_match tail_match is_digit in_decade in_class
    starts_with
links = refl

complete : IsComplete (codes "ops") queued.alias (codes "AB23") (codes " room1")
unfolding strip lstrip rstrip is_space
complete = refl

is_given : truthy (strip (codes " J1")) ≡ true
unfolding strip lstrip rstrip is_space
is_given = refl

is_queued : mapping_for_alias queued.alias (codes "ops") two_rows ≡ some queued
unfolding mapping_for_alias find_row strip lstrip rstrip is_space text_eq
is_queued = refl

mapping_for_jira_alert_id-apply_create_webhook_example :
    (mapping_for_jira_alert_id (codes " J1") (codes "ops") two_rows_linked
      ≡ some (record queued { jira_alert_id = some (strip (codes " J1")) }))
    × (mapping_for_alias queued.alias (codes "ops") two_rows_linked
        ≡ some (record queued { jira_alert_id = some (strip (codes " J1")) }))
mapping_for_jira_alert_id-apply_create_webhook_example =
    mapping_for_jira_alert_id-apply_create_webhook (codes " J1") (codes "ops") queued.alias [] [] []
      two_rows two_rows_linked queued is_given is_queued links

parse_short_id-alias_of_example :
    parse_short_id_from_alias
      (alias_of (codes "20260102") (generate_short_id (0 ∷ 31 ∷ 7 ∷ 25 ∷ [])))
    ≡ generate_short_id (0 ∷ 31 ∷ 7 ∷ 25 ∷ [])
parse_short_id-alias_of_example =
    parse_short_id-alias_of (codes "20260102") (0 ∷ 31 ∷ 7 ∷ 25 ∷ []) refl refl refl
      ((omega arith), ((omega arith), ((omega arith), ((omega arith), tt))))

abbrev first_row : List AlertRow
first_row = linked_before ∷ []

is_free : IsFreeShortId (codes "ops") queued.alias (codes "AB23") first_row
unfolding find_row strip lstrip rstrip is_space text_eq
is_free = refl
