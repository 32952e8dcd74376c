-- ===== src/Jira/Mapping/Keys.antt =====
-- The primary key and the unique column of the table `jira_alert_map`.
use thaum.Prelude.{◌≡◌, refl, ◌↔◌, Bool, true, false, Option, none, some, List, arith}
use thaum.Text.{Text, text_eq_iff}
use thaum.Table.Laws.{IsUnique}
use thaum.Jira.Mapping.{AlertRow, keyed, opt_eq, commit_unless}

abbrev pub same_key : AlertRow → AlertRow → Bool
same_key x r = keyed r.bot_key r.alias x

abbrev pub same_jira_id : AlertRow → AlertRow → Bool
same_jira_id x r = elim r.jira_alert_id [ none ↦ false | some j ↦ opt_eq x.jira_alert_id j ]

-- No two rows have the same key, and no two rows hold the same Jira alert id.
pub record IsValid (t : List AlertRow) : Type 0 where
  pub keys : IsUnique same_key t
  pub jira_ids : IsUnique same_jira_id t

pub opt_eq_iff : (o : Option Text) (t : Text) → (opt_eq o t ≡ true) ↔ (o ≡ some t)
opt_eq_iff none t = ground arith
opt_eq_iff (some s) t = ground (arith, text_eq_iff s t)

pub keyed_iff :
    (bk al : Text) (r : AlertRow) → (keyed bk al r ≡ true) ↔ ((r.bot_key ≡ bk) × (r.alias ≡ al))
keyed_iff bk al r = ground (arith, text_eq_iff r.bot_key bk, text_eq_iff r.alias al)

-- A committed write leaves no other holder of the id.
pub commit_unless-some :
    (o : Option AlertRow) (new t' : List AlertRow)
    → commit_unless o new ≡ some t'
    → (o ≡ none) × (new ≡ t')
unfolding commit_unless
commit_unless-some none new t' h = (refl, ground arith)
commit_unless-some (some other) new t' h = cc
