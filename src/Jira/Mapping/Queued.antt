-- ===== src/Jira/Mapping/Queued.antt =====
-- alerts/plugins/jira/mapping_store.py: a queued row, found by its short id.
use thaum.Prelude.{◌≡◌, refl, sym, ◌∙◌, Bool, true, not, ◌&&◌, Option, none, some, List, arith}
use thaum.Text.{Text, text_eq_refl, truthy, or_else, strip}
use thaum.Table.{find_row}
use thaum.Table.Laws.{find_row_sound, find_row-add_row, find_row-update_row_only, find_row-none_of}
use thaum.Jira.Mapping.{
  AlertRow, someone, keyed, upsert_row, upsert_pending_row, by_short_id, mapping_for_alias,
  mapping_for_short_id,
}
use thaum.Jira.Mapping.Keys.{keyed_iff}
use thaum.Jira.Mapping.Lookup.{
  IsComplete, linked_id, find_row-upsert_row, mapping_for_alias-eq, upsert_pending_row-eq,
  IsComplete-key,
}

-- No other alert of the bot has the short id.
abbrev pub is_other : Text → Text → Text → AlertRow → Bool
is_other bk al sid r = by_short_id sid bk r && not (keyed bk al r)

abbrev pub IsFreeShortId : (bot_key alias short_id : Text) → List AlertRow → Type 0
IsFreeShortId bot_key alias short_id t =
    find_row (is_other (strip bot_key) (strip alias) (strip short_id)) t ≡ none

module _ (bk al sid rid snd : Text) where
  find_row-upsert_row_short :
      (o : Option AlertRow) (t : List AlertRow)
      → find_row (keyed bk al) t ≡ o
      → find_row (is_other bk al sid) t ≡ none
      → find_row (by_short_id sid bk) (upsert_row bk al sid rid snd o t)
        ≡ some (record {
          bot_key = bk;
          alias = al;
          short_id = sid;
          room_id = rid;
          jira_alert_id = linked_id o;
          sender_name = snd;
        })
  find_row-upsert_row_short none t e free =
      unfold upsert_row in
      rw
        (
          find_row-add_row (by_short_id sid bk) _ t,
          find_row-none_of (is_other bk al sid) (keyed bk al) (by_short_id sid bk) t
              (λ r h₁ h₂. ground (arith, h₁, h₂)) free e,
          text_eq_refl sid,
          text_eq_refl bk,
        )
        refl
  find_row-upsert_row_short (some row) t e free =
      let (b, a) = (keyed_iff bk al row).0 (find_row_sound (keyed bk al) t row e) in
      unfold upsert_row in
      find_row-update_row_only (keyed bk al) (by_short_id sid bk) _ t
        (λ r h. ground (arith, h, text_eq_refl sid)) free
      ∙ rw e (ground arith)

-- A queued row is found by its short id as by its alias, if no other alert of the bot has that
-- short id.
pub mapping_for_short_id-upsert_pending_row :
    (bot_key alias short_id room_id sender_name : Text) (t : List AlertRow)
    → IsComplete bot_key alias short_id room_id
    → IsFreeShortId bot_key alias short_id t
    → mapping_for_short_id short_id bot_key
        (upsert_pending_row bot_key alias short_id room_id sender_name t)
      ≡ mapping_for_alias alias bot_key
          (upsert_pending_row bot_key alias short_id room_id sender_name t)
mapping_for_short_id-upsert_pending_row bot_key alias short_id room_id sender_name t complete free =
    let key = IsComplete-key bot_key alias short_id room_id complete in
    let row = find_row (keyed (strip bot_key) (strip alias)) t in
    let short : (truthy (strip short_id) && truthy (strip bot_key)) ≡ true =
      ground (arith, complete) in
    rw
      (
        mapping_for_alias-eq alias bot_key _ key,
        short_eq short_id bot_key _ short,
        upsert_pending_row-eq bot_key alias short_id room_id sender_name t complete,
      )
      (find_row-upsert_row_short (strip bot_key) (strip alias) (strip short_id) (strip room_id)
          (or_else (strip sender_name) someone) row t refl free
        ∙ sym (
            find_row-upsert_row (strip bot_key) (strip alias) (strip short_id) (strip room_id)
              (or_else (strip sender_name) someone) row t refl))
  where
    short_eq :
        (short_id bot_key : Text) (t : List AlertRow)
        → (truthy (strip short_id) && truthy (strip bot_key)) ≡ true
        → mapping_for_short_id short_id bot_key t
          ≡ find_row (by_short_id (strip short_id) (strip bot_key)) t
    short_eq short_id bot_key t h = unfold mapping_for_short_id in rw h
