-- ===== src/Commands/Patterns.antt =====
-- thaum/handlers.py: the patterns of the commands, as `re.search` with re.IGNORECASE finds them.
--
-- The patterns are anchored at the start, so that a search is a match there. `.` is any character but a
-- line feed, and `$` is the end or a line feed at the end.
use thaum.Prelude.{
  ℕ, ◌+◌, Bool, true, false, ◌&&◌, ◌||◌, Option, none, some, [], ◌∷◌, leb, ◌==◌, if◌then◌else◌,
}
use thaum.Text.{Text, codes, is_space, lstrip}

-- A character without its case, as re.IGNORECASE compares it with an ASCII letter: besides the capitals
-- the Kelvin sign, the long s, and the dotted and dotless i of Turkish.
unfoldable pub fold : ℕ → ℕ
fold c =
    if leb b'A' c && leb c b'Z'
    then c + 32
    else if c == 8490
    then b'k'
    else if c == 383
    then b's'
    else if c == 304 || c == 305
    then b'i'
    else c

-- What follows a word that is written in small letters.
unfoldable pub after_word : Text → Text → Option Text
unfolding fold
after_word [] text = some text
after_word (w ∷ word) [] = none
after_word (w ∷ word) (c ∷ text) =
    let rest = after_word word text in if fold c == w then rest else none

abbrev pub prepend : ℕ → Option Text → Option Text
prepend c none = none
prepend c (some text) = some (c ∷ text)

-- `.*$`, with what it matches.
unfoldable pub rest_of_line : Text → Option Text
rest_of_line [] = some []
rest_of_line (c ∷ []) = if c == 10 then some [] else some (c ∷ [])
rest_of_line (c ∷ d ∷ text) =
    let rest = rest_of_line (d ∷ text) in if c == 10 then none else prepend c rest

-- `\s*:\s*(.*)$`.
unfoldable pub after_colon : Text → Option Text
unfolding lstrip rest_of_line
after_colon [] = none
after_colon (c ∷ text) = if c == b':' then rest_of_line (lstrip text) else none

-- `(?:\s*:\s*(?P<msg>.*))?$`: `some none` where there is no colon.
abbrev pub wrap : Option Text → Option (Option Text)
wrap none = none
wrap (some msg) = some (some msg)

unfoldable pub message_tail : Text → Option (Option Text)
unfolding after_colon
message_tail [] = some none
message_tail (c ∷ []) = if c == 10 then some none else wrap (after_colon (lstrip (c ∷ [])))
message_tail (c ∷ d ∷ text) = wrap (after_colon (lstrip (c ∷ d ∷ text)))

abbrev pub then_tail : Option Text → Option (Option Text)
unfolding message_tail
then_tail none = none
then_tail (some rest) = message_tail rest

-- `^(?P<cmd>word)(?:\s*:\s*(?P<summary>.*))?$`.
unfoldable pub match_word : Text → Text → Option (Option Text)
unfolding after_word message_tail
match_word word text = then_tail (after_word word text)

abbrev pub or_else_match : {A : Type 0} → Option A → Option A → Option A
or_else_match none b = b
or_else_match (some a) b = some a

abbrev pub tagged : Bool → Option (Option Text) → Option (Bool × Option Text)
tagged urgent none = none
tagged urgent (some msg) = some (urgent, msg)

-- ALERT_COMMAND_PATTERN, with whether the command is `alert!`.
unfoldable pub match_alert : Text → Option (Bool × Option Text)
unfolding match_word
match_alert text = or_else_match (tagged true (match_word (codes "alert!") text)) (
    or_else_match (tagged false (match_word (codes "alert") text)) (
      or_else_match (tagged false (match_word (codes "on-call") text)) (
        or_else_match (tagged false (match_word (codes "on_call") text))
          (tagged false (match_word (codes "oncall") text)))))

-- What was found before the end of the line, if it ends there.
abbrev pub before_line : Text → Option Text → Option Text
before_line t none = none
before_line t (some _) = some t

-- `[A-Z2-9]` without the case.
unfoldable pub in_id_class : ℕ → Bool
unfolding fold
in_id_class c = (leb b'a' (fold c) && leb (fold c) b'z') || (leb b'2' c && leb c b'9')

-- `(?P<alert_id>[A-Z2-9]{4}).*$`.
unfoldable pub four_of_class : Text → Option Text
unfolding in_id_class rest_of_line
four_of_class (a ∷ b ∷ c ∷ d ∷ text) =
    if in_id_class a && in_id_class b && in_id_class c && in_id_class d
    then before_line (a ∷ b ∷ c ∷ d ∷ []) (rest_of_line text)
    else none
four_of_class text = none

-- `\s+` and then the id.
unfoldable pub spaced_id : Text → Option Text
unfolding is_space lstrip four_of_class
spaced_id [] = none
spaced_id (c ∷ text) = if is_space c then four_of_class (lstrip text) else none

abbrev pub and_after : {A : Type 0} → Option Text → (Text → Option A) → Option A
and_after none f = none
and_after (some rest) f = f rest

-- `^ack\s+(?P<alert_id>[A-Z2-9]{4}).*$`.
unfoldable pub match_ack : Text → Option Text
unfolding after_word spaced_id
match_ack text = and_after (after_word (codes "ack") text) spaced_id

-- `^\s*(implode).*$`.
unfoldable pub match_implode : Text → Option Text
unfolding after_word lstrip rest_of_line
match_implode text = and_after (after_word (codes "implode") (lstrip text)) rest_of_line

-- `^\s*(usage|commands|\?).*`.
unfoldable pub match_usage : Text → Option Text
unfolding after_word lstrip
match_usage text =
    let s = lstrip text in
    or_else_match (after_word (codes "usage") s)
      (or_else_match (after_word (codes "commands") s) (after_word (codes "?") s))

-- `\S+` and what follows it.
unfoldable pub first_word : Text → Text × Text
unfolding is_space
first_word [] = ([], [])
first_word (c ∷ text) =
    let rest = first_word text in if is_space c then ([], c ∷ text) else (c ∷ rest.0, rest.1)

unfoldable pub spaced_line : Text → Text × Text → Option Text
unfolding lstrip rest_of_line
spaced_line cmd (w, []) = none
spaced_line [] (w, c ∷ rest) = none
spaced_line (d ∷ cmd) (w, c ∷ rest) = before_line (d ∷ cmd) (rest_of_line (lstrip (c ∷ rest)))

-- `^(?P<cmd>\S+)\s+.*$`.
unfoldable pub match_unknown : Text → Option Text
unfolding first_word spaced_line
match_unknown text = spaced_line (first_word text).0 (first_word text)
