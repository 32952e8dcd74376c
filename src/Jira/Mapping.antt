-- ===== src/Jira/Mapping.antt =====
-- alerts/plugins/jira/mapping_store.py and the table of models.py: which Jira alert belongs to
-- which chat room.
--
-- The table is the list of its rows. `none` as a result of `apply_create_webhook` is the
-- IntegrityError of the unique column `jira_alert_id`; the transaction is then rolled back. The
-- lengths of the columns are not modelled, and neither is the log.
pub mod Keys
pub mod Lookup
pub mod Validity
pub mod ShortId
pub mod Queued
mod Tests
use thaum.Prelude.{
  ℕ, zero, suc, ◌+◌, ◌-◌, Bool, false, not, ◌&&◌, ◌||◌, Option, none, some, List, [], ◌∷◌, ltb, leb,
  ◌==◌, if◌then◌else◌, drop,
}
use thaum.Text.{Text, codes, text_eq, truthy, or_else, strip, starts_with}
use thaum.Table.{find_row, update_row, add_row}

pub record AlertRow : Type 0 where
  pub bot_key : Text
  pub alias : Text
  pub short_id : Text
  pub room_id : Text
  pub jira_alert_id : Option Text
  pub sender_name : Text

abbrev someone : Text
someone = codes "Someone"

-- The digits that `\d` matches in a Python pattern: ten from each of these zeros.
abbrev zeros : List ℕ
zeros =
    48 ∷ 1632 ∷ 1776 ∷ 1984 ∷ 2406 ∷ 2534 ∷ 2662 ∷ 2790 ∷ 2918 ∷ 3046 ∷ 3174 ∷ 3302 ∷ 3430 ∷ 3558
    ∷ 3664 ∷ 3792 ∷ 3872 ∷ 4160 ∷ 4240 ∷ 6112 ∷ 6160 ∷ 6470 ∷ 6608 ∷ 6784 ∷ 6800 ∷ 6992 ∷ 7088
    ∷ 7232 ∷ 7248 ∷ 42528 ∷ 43216 ∷ 43264 ∷ 43472 ∷ 43504 ∷ 43600 ∷ 44016 ∷ 65296 ∷ 66720 ∷ 68912
    ∷ 69734 ∷ 69872 ∷ 69942 ∷ 70096 ∷ 70384 ∷ 70736 ∷ 70864 ∷ 71248 ∷ 71360 ∷ 71472 ∷ 71904 ∷ 72016
    ∷ 72784 ∷ 73040 ∷ 73120 ∷ 92768 ∷ 92864 ∷ 93008 ∷ 120782 ∷ 120792 ∷ 120802 ∷ 120812 ∷ 120822
    ∷ 123200 ∷ 123632 ∷ 125264 ∷ 130032 ∷ []

unfoldable pub in_decade : ℕ → List ℕ → Bool
in_decade c [] = false
in_decade c (z ∷ zs) = (leb z c && ltb c (z + 10)) || in_decade c zs

unfoldable pub is_digit : ℕ → Bool
unfolding in_decade
is_digit c = in_decade c zeros

-- The class `[A-Z2-9]`.
unfoldable pub in_class : ℕ → Bool
in_class c = (leb b'A' c && leb c b'Z') || (leb b'2' c && leb c b'9')

-- The pattern `^THAUM-\d{8}-(?P<sid>[A-Z2-9]{4})$` on a stripped text, which never ends in a
-- line break: the dash and the four characters after the eight digits.
unfoldable pub tail_match : Text → Text
unfolding in_class
tail_match (d ∷ a ∷ b ∷ c ∷ e ∷ []) =
    if d == b'-' && (in_class a && (in_class b && (in_class c && in_class e)))
    then a ∷ b ∷ c ∷ e ∷ []
    else []
tail_match _ = []

unfoldable pub digits_match : ℕ → Text → Text
unfolding tail_match is_digit
digits_match zero s = tail_match s
digits_match (suc n) [] = []
digits_match (suc n) (d ∷ s) = if is_digit d then digits_match n s else []

unfoldable pub parse_short_id_from_alias : Text → Text
unfolding digits_match strip starts_with
parse_short_id_from_alias alias =
    let s = strip alias in if starts_with s (codes "THAUM-") then digits_match 8 (drop 6 s) else []

-- `session.get(JiraAlertMap, {"bot_key": bk, "alias": al})`.
abbrev pub keyed : Text → Text → AlertRow → Bool
keyed bk al r = text_eq r.bot_key bk && text_eq r.alias al

abbrev pub opt_eq : Option Text → Text → Bool
opt_eq none t = false
opt_eq (some s) t = text_eq s t

abbrev pub with_jira_id : Text → AlertRow → Bool
with_jira_id jid r = opt_eq r.jira_alert_id jid

unfoldable pub upsert_row :
    (bk al sid rid snd : Text) → Option AlertRow → List AlertRow → List AlertRow
unfolding find_row update_row add_row
upsert_row bk al sid rid snd none table =
    add_row
      (record {
        bot_key = bk;
        alias = al;
        short_id = sid;
        room_id = rid;
        jira_alert_id = none;
        sender_name = snd;
      })
      table
upsert_row bk al sid rid snd (some row) table =
    update_row (keyed bk al) (λ r. record r { short_id = sid; room_id = rid; sender_name = snd })
      table

unfoldable pub upsert_pending_row :
    (bot_key alias short_id room_id sender_name : Text) → List AlertRow → List AlertRow
unfolding strip upsert_row
upsert_pending_row bot_key alias short_id room_id sender_name table =
    let bk = strip bot_key in
    let al = strip alias in
    let sid = strip short_id in
    let rid = strip room_id in
    let snd = or_else (strip sender_name) someone in
    if truthy bk && (truthy al && (truthy sid && truthy rid))
    then upsert_row bk al sid rid snd (find_row (keyed bk al) table) table
    else table

-- The rows that a query by a column other than the key selects, of which the first is taken.
abbrev by_jira_id : Text → Text → AlertRow → Bool
by_jira_id jid bk r = opt_eq r.jira_alert_id jid && text_eq r.bot_key bk

abbrev by_short_id : Text → Text → AlertRow → Bool
by_short_id sid bk r = text_eq r.short_id sid && text_eq r.bot_key bk

unfoldable pub mapping_for_jira_alert_id :
    (jira_alert_id bot_key : Text) → List AlertRow → Option AlertRow
unfolding strip find_row
mapping_for_jira_alert_id jira_alert_id bot_key table =
    let jid = strip jira_alert_id in
    let bk = strip bot_key in
    if truthy jid && truthy bk then find_row (by_jira_id jid bk) table else none

unfoldable pub room_id_for_jira_alert : (jira_alert_id bot_key : Text) → List AlertRow → Option Text
unfolding mapping_for_jira_alert_id
room_id_for_jira_alert jira_alert_id bot_key table =
    elim (mapping_for_jira_alert_id jira_alert_id bot_key table) [
      | none ↦ none
      | some row ↦ some row.room_id
    ]

unfoldable pub mapping_for_alias : (alias bot_key : Text) → List AlertRow → Option AlertRow
unfolding strip find_row
mapping_for_alias alias bot_key table =
    let al = strip alias in
    let bk = strip bot_key in if truthy al && truthy bk then find_row (keyed bk al) table else none

unfoldable pub mapping_for_short_id : (short_id bot_key : Text) → List AlertRow → Option AlertRow
unfolding strip find_row
mapping_for_short_id short_id bot_key table =
    let sid = strip short_id in
    let bk = strip bot_key in
    if truthy sid && truthy bk then find_row (by_short_id sid bk) table else none

-- The UNIQUE constraint on `jira_alert_id`: the write of `jid` into the row of `bk` and `al`
-- succeeds if no other row holds it.
abbrev taken_elsewhere : Text → Text → Text → AlertRow → Bool
taken_elsewhere bk al jid r = opt_eq r.jira_alert_id jid && not (keyed bk al r)

unfoldable pub commit_unless : Option AlertRow → List AlertRow → Option (List AlertRow)
commit_unless none table = some table
commit_unless (some other) table = none

unfoldable pub link_row :
    (bk al jid sid room sender : Text) → Option AlertRow → List AlertRow → Option (List AlertRow)
unfolding find_row update_row add_row commit_unless
link_row bk al jid sid room sender none table =
    if truthy room && truthy sid
    then commit_unless (find_row (taken_elsewhere bk al jid) table) (
        add_row
          (record {
            bot_key = bk;
            alias = al;
            short_id = sid;
            room_id = room;
            jira_alert_id = some jid;
            sender_name = sender;
          })
          table)
    else some table
link_row bk al jid sid room sender (some row) table =
    commit_unless (find_row (taken_elsewhere bk al jid) table)
      (update_row (keyed bk al) (λ r. record r { jira_alert_id = some jid }) table)

unfoldable pub apply_create_webhook :
    (jira_alert_id bot_key alias short_id_fallback room_id_fallback sender_name_fallback : Text)
    → List AlertRow
    → Option (List AlertRow)
unfolding strip parse_short_id_from_alias link_row
apply_create_webhook jira_alert_id bot_key alias short_fb room_fb sender_fb table =
    let jid = strip jira_alert_id in
    let bk = strip bot_key in
    let al = strip alias in
    let sid = or_else (strip short_fb) (parse_short_id_from_alias al) in
    if truthy jid && (truthy bk && truthy al)
    then link_row bk al jid sid (strip room_fb) (or_else (strip sender_fb) someone)
        (find_row (keyed bk al) table) table
    else some table
