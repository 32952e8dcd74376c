-- ===== src/Jira/Mapping/Validity.antt =====
-- The key and the unique column survive every write to the mapping table.
use thaum.Prelude.{
  ◌≡◌, refl, inl, inr, true, false, ◌&&◌, Option, none, some, List, [], ◌∷◌, arith, Bool-cases,
}
use thaum.Text.{Text, text_eq, text_eq_iff, truthy, or_else, strip}
use thaum.Table.{find_row, update_row}
use thaum.Table.Laws.{
  find_row-none_of, IsUnique, add_row-IsUnique, find_row-update_row-none, update_row-IsUnique,
}
use thaum.Jira.Mapping.{
  AlertRow, someone, parse_short_id_from_alias, keyed, opt_eq, upsert_row, upsert_pending_row,
  taken_elsewhere, link_row, apply_create_webhook,
}
use thaum.Jira.Mapping.Keys.{same_key, same_jira_id, IsValid, commit_unless-some}

find_row-never : (t : List AlertRow) → find_row (λ _. false) t ≡ none
unfolding find_row
find_row-never [] = refl
find_row-never (x ∷ xs) = find_row-never xs

module _ (bk al sid rid snd : Text) where
  upsert_row-IsValid :
      (o : Option AlertRow) (t : List AlertRow)
      → find_row (keyed bk al) t ≡ o
      → IsValid t
      → IsValid (upsert_row bk al sid rid snd o t)
  upsert_row-IsValid none t e v =
      unfold upsert_row in
      record {
        keys = add_row-IsUnique same_key _ t e v.keys;
        jira_ids = add_row-IsUnique same_jira_id _ t (find_row-never t) v.jira_ids;
      }
  upsert_row-IsValid (some row) t e v =
      unfold upsert_row in
      record {
        keys = update_row-IsUnique same_key (keyed bk al) _ t (λ x r. (refl, refl)) v.keys;
        jira_ids =
            update_row-IsUnique same_jira_id (keyed bk al) _ t (λ x r. (refl, refl)) v.jira_ids;
      }

abbrev set_jira_id : Text → AlertRow → AlertRow
set_jira_id jid r = record r { jira_alert_id = some jid }

text_eq-false_comm : (s t : Text) → text_eq s t ≡ false → text_eq t s ≡ false
text_eq-false_comm s t h = ground (arith, text_eq_iff s t, text_eq_iff t s)

clash_with :
    (o : Option Text) (jid : Text)
    → opt_eq o jid ≡ false
    → elim o [ none ↦ false | some j ↦ text_eq jid j ] ≡ false
clash_with none jid h = refl
clash_with (some j) jid h = text_eq-false_comm j jid h

module _ (bk al jid : Text) where
  -- A row that does not hold the id apart from the key does not clash with the row that takes it.
  set_jira_id_apart :
      (x r : AlertRow)
      → keyed bk al x ≡ true
      → taken_elsewhere bk al jid r ≡ false
      → same_key x r ≡ false
      → same_jira_id (set_jira_id jid x) r ≡ false
  set_jira_id_apart x r mine free other = clash_with r.jira_alert_id jid (
      ground (
        arith,
        text_eq_iff x.bot_key bk,
        text_eq_iff x.alias al,
        text_eq_iff r.bot_key bk,
        text_eq_iff r.alias al,
        text_eq_iff x.bot_key r.bot_key,
        text_eq_iff x.alias r.alias,
      ))

  set_jira_id-IsUnique :
      (t : List AlertRow)
      → IsUnique same_key t
      → IsUnique same_jira_id t
      → find_row (taken_elsewhere bk al jid) t ≡ none
      → IsUnique same_jira_id (update_row (keyed bk al) (set_jira_id jid) t)
  unfolding update_row find_row
  set_jira_id-IsUnique [] k j free = tt
  set_jira_id-IsUnique (x ∷ xs) (k, ks) (j, js) free = elim (Bool-cases (keyed bk al x)) [
    | inl e ↦
        let rest : find_row (taken_elsewhere bk al jid) xs ≡ none = ground arith in
        rw e (
          find_row-none_of (taken_elsewhere bk al jid) (same_key x) _ xs
              (λ r. set_jira_id_apart x r e) rest k,
          js,
        )
    | inr e ↦
        let rest : find_row (taken_elsewhere bk al jid) xs ≡ none = ground arith in
        let mine : opt_eq x.jira_alert_id jid ≡ false = ground arith in
        rw e (
          find_row-update_row-none (same_jira_id x) (keyed bk al) _ xs (λ r _ _. mine) j,
          set_jira_id-IsUnique xs ks js rest,
        )
  ]

  link_row-IsValid :
      (sid room sender : Text) (o : Option AlertRow) (t t' : List AlertRow)
      → find_row (keyed bk al) t ≡ o
      → IsValid t
      → link_row bk al jid sid room sender o t ≡ some t'
      → IsValid t'
  unfolding link_row
  link_row-IsValid sid room sender (some row) t t' e v done =
      let (free, same) = commit_unless-some _ _ t' done in
      rw (← same) (record {
        keys = update_row-IsUnique same_key (keyed bk al) _ t (λ x r. (refl, refl)) v.keys;
        jira_ids = set_jira_id-IsUnique t v.keys v.jira_ids free;
      })
  link_row-IsValid sid room sender none t t' e v done =
      elim (Bool-cases (truthy room && truthy sid)) [
        | inl given ↦
            let (free, same) = commit_unless-some _ _ t' (rw given at done) in
            rw (← same) (record {
              keys = add_row-IsUnique same_key _ t e v.keys;
              jira_ids =
                  add_row-IsUnique same_jira_id _ t
                    (find_row-none_of (taken_elsewhere bk al jid) (keyed bk al)
                      (λ r. opt_eq r.jira_alert_id jid) t (λ r p q. ground arith) free e)
                    v.jira_ids;
            })
        | inr missing ↦ ground arith
      ]

-- Queueing an alert keeps the key and the unique column, whatever its arguments.
pub upsert_pending_row-IsValid :
    (bot_key alias short_id room_id sender_name : Text) (t : List AlertRow)
    → IsValid t
    → IsValid (upsert_pending_row bot_key alias short_id room_id sender_name t)
unfolding upsert_pending_row
upsert_pending_row-IsValid bot_key alias short_id room_id sender_name t v = ground (
  arith,
  upsert_row-IsValid (strip bot_key) (strip alias) (strip short_id) (strip room_id)
      (or_else (strip sender_name) someone) _ t refl v,
)

-- A Create webhook that commits keeps the key and the unique column, whatever its arguments.
pub apply_create_webhook-IsValid :
    (jira_alert_id bot_key alias short_fb room_fb sender_fb : Text) (t t' : List AlertRow)
    → IsValid t
    → apply_create_webhook jira_alert_id bot_key alias short_fb room_fb sender_fb t ≡ some t'
    → IsValid t'
unfolding apply_create_webhook
apply_create_webhook-IsValid jira_alert_id bot_key alias short_fb room_fb sender_fb t t' v done =
    let bk = strip bot_key in
    let al = strip alias in
    let sid = or_else (strip short_fb) (parse_short_id_from_alias al) in
    elim (Bool-cases (truthy (strip jira_alert_id) && (truthy bk && truthy al))) [
      | inl given ↦
          link_row-IsValid bk al (strip jira_alert_id) sid (strip room_fb)
            (or_else (strip sender_fb) someone) _ t t' refl v (rw given at done)
      | inr missing ↦ let same : t ≡ t' = ground arith in rw (← same) v
    ]
