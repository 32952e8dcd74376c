-- ===== src/Webex/Labels.antt =====
-- bots/plugins/webex_bot.py: the text of a message without the mention of the bot.
--
-- `same` is the comparison of two characters by re.IGNORECASE.
use thaum.Prelude.{
  ℕ, ◌-◌, Bool, ◌&&◌, ◌||◌, Option, none, some, List, [], ◌∷◌, ◌++◌, ltb, ◌==◌, if◌then◌else◌,
  length,
}
use thaum.Text.{
  Text, codes, truthy, or_else, is_space, lstrip, strip, strip_opt, lower, has_char, one_of,
}

-- What follows a literal.
unfoldable pub after_literal : (ℕ → ℕ → Bool) → Text → Text → Option Text
after_literal same [] text = some text
after_literal same (w ∷ word) [] = none
after_literal same (w ∷ word) (c ∷ text) =
    let rest = after_literal same word text in if same w c then rest else none

-- `[^>]*>`.
unfoldable pub after_close : Text → Option Text
after_close [] = none
after_close (c ∷ text) = let rest = after_close text in if c == b'>' then some text else rest

-- `(?:\|[^>]*)?>`.
unfoldable pub after_name : Option Text → Option Text
unfolding after_close
after_name none = none
after_name (some []) = none
after_name (some (c ∷ text)) =
    if c == b'>' then some text else if c == b'|' then after_close text else none

abbrev pub mention_length : Text → Option Text → ℕ
mention_length text none = 0
mention_length text (some rest) = length text - length rest

-- `re.sub(r"<@kind:id(?:\|[^>]*)?>", "", text)`: the number counts what is left of a match to skip.
unfoldable pub remove_mentions : (ℕ → ℕ → Bool) → Text → ℕ → Text → Text
unfolding after_name after_literal
remove_mentions same opening skip [] = []
remove_mentions same opening skip (c ∷ text) =
    let size = mention_length (c ∷ text) (after_name (after_literal same opening (c ∷ text))) in
    let rest = remove_mentions same opening (if skip == 0 then size - 1 else skip - 1) text in
    if skip == 0 && size == 0 then c ∷ rest else rest

abbrev pub exactly : ℕ → ℕ → Bool
exactly a b = a == b

unfoldable pub remove_emails : (ℕ → ℕ → Bool) → List Text → Text → Text
unfolding remove_mentions
remove_emails same [] text = text
remove_emails same (email ∷ emails) text =
    remove_emails same emails (remove_mentions same (codes "<@personEmail:" ++ email) 0 text)

unfoldable pub strip_webex_self_mentions : (ℕ → ℕ → Bool) → Text → Text → List Text → Text
unfolding remove_mentions remove_emails strip
strip_webex_self_mentions same text person_id emails =
    let cleaned =
      if truthy person_id
      then remove_mentions exactly (codes "<@personId:" ++ person_id) 0 text
      else text in
    strip (remove_emails same emails cleaned)

-- `re.sub(r"(?i)^label\s+", "", s)`.
abbrev pub or_whole : Text → Option Text → Text
unfolding is_space lstrip
or_whole s none = s
or_whole s (some []) = s
or_whole s (some (c ∷ rest)) = if is_space c then lstrip (c ∷ rest) else s

unfoldable pub remove_label : (ℕ → ℕ → Bool) → Text → Text → Text
unfolding after_literal
remove_label same label s = or_whole s (after_literal same label s)

-- The labels that are left, with the small forms of those that were seen.
unfoldable pub remove_labels : (ℕ → ℕ → Bool) → List Text → Text → List Text → Text
unfolding remove_label strip lower one_of
remove_labels same seen s [] = strip s
remove_labels same seen s (label ∷ labels) =
    let l = strip label in
    let skipped = ltb (length l) 2 || one_of (lower l) seen in
    remove_labels same (if skipped then seen else lower l ∷ seen)
      (if skipped then s else remove_label same l s) labels

unfoldable pub strip_leading_bot_labels : (ℕ → ℕ → Bool) → Text → List Text → Text
unfolding remove_labels strip
strip_leading_bot_labels same text labels = remove_labels same [] (strip text) labels

-- The bot's own addresses: each entry is a text, or the value that it carries.
unfoldable pub me_email_addresses : List (Option Text) → List Text
unfolding strip_opt has_char
me_email_addresses [] = []
me_email_addresses (item ∷ items) =
    let s = strip_opt item in
    let rest = me_email_addresses items in if truthy s && has_char b'@' s then s ∷ rest else rest

pub record Me : Type 0 where
  pub id : Text
  pub emails : List (Option Text)
  pub display_name : Option Text
  pub handle : Text
  pub bot_key : Option Text

pub record WebexMessage : Type 0 where
  pub is_direct : Bool
  pub mentioned_people : List Text
  pub markdown : Option Text
  pub text : Option Text

unfoldable pub clean_text : (ℕ → ℕ → Bool) → Me → Text → Text
unfolding strip_leading_bot_labels strip_webex_self_mentions me_email_addresses strip_opt
clean_text same me raw =
    strip_leading_bot_labels same
      (strip_webex_self_mentions same raw me.id (me_email_addresses me.emails))
      (me.handle ∷ strip_opt me.display_name ∷ strip_opt me.bot_key ∷ [])

unfoldable pub process_message : (ℕ → ℕ → Bool) → Me → WebexMessage → Option Text
unfolding clean_text strip_opt one_of
process_message same me message =
    let raw = or_else (strip_opt message.markdown) (strip_opt message.text) in
    let clean = clean_text same me raw in
    if (message.is_direct || one_of me.id message.mentioned_people) && truthy raw && truthy clean
    then some clean
    else none
