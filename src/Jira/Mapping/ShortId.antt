-- ===== src/Jira/Mapping/ShortId.antt =====
-- The short id survives the way into an alias and back.
use mathlib.Core.Bool.{and-eq-true_iff}
use thaum.Prelude.{
  ℕ, zero, suc, ◌+◌, ◌<◌, ◌≡◌, refl, ◌∙◌, Bool, true, false, not, ◌&&◌, List, [], ◌∷◌, ◌++◌, arith,
  ltb, leb, if◌then◌else◌, length, drop, all, All,
}
use thaum.Text.{Text, codes, is_space, lstrip, rstrip, strip, starts_with}
use thaum.Jira.Payload.{alias_of}
use thaum.Alerts.{alphabet, char_at, generate_short_id}
use thaum.Jira.Mapping.{
  in_decade, is_digit, in_class, tail_match, digits_match, parse_short_id_from_alias,
}

all-append {ℓ} :
    {A : Type ℓ} (p : A → Bool) (xs ys : List A)
    → all p xs ≡ true
    → all p ys ≡ true
    → all p (xs ++ ys) ≡ true
all-append p [] ys hx hy = hy
all-append p (x ∷ xs) ys hx hy = ground (arith, all-append p xs ys)

all_of {ℓ} :
    {A : Type ℓ} (p q : A → Bool) (xs : List A)
    → ((a : A) → p a ≡ true → q a ≡ true)
    → all p xs ≡ true
    → all q xs ≡ true
all_of p q [] sub h = refl
all_of p q (x ∷ xs) sub h = ground (arith, sub x, all_of p q xs sub)

abbrev solid : ℕ → Bool
solid c = not (is_space c)

rstrip-solid : (s : Text) → all solid s ≡ true → rstrip s ≡ s
unfolding rstrip
rstrip-solid [] h = refl
rstrip-solid (c ∷ s) h = ground (arith, rstrip-solid s)

-- Stripping a text without white space changes nothing.
strip-solid : (s : Text) → all solid s ≡ true → strip s ≡ s
unfolding strip lstrip
strip-solid [] h = refl
strip-solid (c ∷ s) h =
    let first : is_space c ≡ false = ground arith in rw first (rstrip-solid (c ∷ s) h)

-- The digits that `strftime` writes.
abbrev pub ascii_digit : ℕ → Bool
ascii_digit c = leb b'0' c && leb c b'9'

ascii_digit-is_digit : (c : ℕ) → ascii_digit c ≡ true → is_digit c ≡ true
unfolding is_digit in_decade
ascii_digit-is_digit c h =
    let first : (leb 48 c && ltb c (48 + 10)) ≡ true = ground arith in rw first

ascii_digit-solid : (c : ℕ) → ascii_digit c ≡ true → solid c ≡ true
unfolding is_space
ascii_digit-solid c h = ground arith

in_class-solid : (c : ℕ) → in_class c ≡ true → solid c ≡ true
unfolding in_class is_space
in_class-solid c h = ground arith

digits_match-all :
    (date rest : Text)
    → all ascii_digit date ≡ true
    → digits_match (length date) (date ++ rest) ≡ tail_match rest
unfolding digits_match
digits_match-all [] rest h = refl
digits_match-all (d ∷ date) rest h =
    let (first, later) = (and-eq-true_iff (ascii_digit d) (all ascii_digit date)).0 h in
    rw (ascii_digit-is_digit d first) (digits_match-all date rest later)

char_at-all :
    (p : ℕ → Bool) (s : Text) (i : ℕ)
    → all p s ≡ true
    → i < length s
    → (c : ℕ) × (char_at s i ≡ c ∷ []) × (p c ≡ true)
unfolding char_at
char_at-all p [] i h lt = elim lt [ ]
char_at-all p (c ∷ s) zero h lt = (c, refl, ground arith)
char_at-all p (c ∷ s) (suc i) h lt =
    let (d, e, k) = char_at-all p s i (ground arith) (omega arith) in (d, e, k)

alphabet-in_class : all in_class alphabet ≡ true
unfolding alphabet in_class
alphabet-in_class = refl

length-alphabet : length alphabet ≡ 32
unfolding alphabet
length-alphabet = refl

generate_short_id-in_class :
    (picks : List ℕ)
    → All (λ i. i < 32) picks
    → (all in_class (generate_short_id picks) ≡ true)
      × (length (generate_short_id picks) ≡ length picks)
unfolding generate_short_id
generate_short_id-in_class [] h = (refl, refl)
generate_short_id-in_class (i ∷ picks) (lt, h) =
    let (c, e, k) =
      char_at-all in_class alphabet i alphabet-in_class (omega (arith, length-alphabet)) in
    let (classes, size) = generate_short_id-in_class picks h in
    rw e (rw (k, classes) (refl), omega (arith, size))

tail_match-all :
    (a b c d : ℕ)
    → all in_class (a ∷ b ∷ c ∷ d ∷ []) ≡ true
    → tail_match (b'-' ∷ a ∷ b ∷ c ∷ d ∷ []) ≡ a ∷ b ∷ c ∷ d ∷ []
unfolding tail_match
tail_match-all a b c d h = ground arith

tail_match_of_length :
    (sid : Text) → all in_class sid ≡ true → length sid ≡ 4 → tail_match (b'-' ∷ sid) ≡ sid
tail_match_of_length (a ∷ b ∷ c ∷ d ∷ []) h size = tail_match-all a b c d h
tail_match_of_length [] h size = absurd (omega arith)
tail_match_of_length (a ∷ []) h size = absurd (omega arith)
tail_match_of_length (a ∷ b ∷ []) h size = absurd (omega arith)
tail_match_of_length (a ∷ b ∷ c ∷ []) h size = absurd (omega arith)
tail_match_of_length (a ∷ b ∷ c ∷ d ∷ e ∷ s) h size = absurd (omega arith)

alias_of-solid :
    (date sid : Text)
    → all ascii_digit date ≡ true
    → all in_class sid ≡ true
    → all solid (alias_of date sid) ≡ true
unfolding alias_of is_space
alias_of-solid date sid digits classes =
    all-append solid date (b'-' ∷ sid) (all_of ascii_digit solid date ascii_digit-solid digits)
      (all_of in_class solid sid in_class-solid classes)

parse_stripped :
    (s : Text)
    → strip s ≡ s
    → parse_short_id_from_alias s
      ≡ (if starts_with s (codes "THAUM-") then digits_match 8 (drop 6 s) else [])
unfolding parse_short_id_from_alias
parse_stripped s h = rw h

-- The alias that `build_trigger_alert_body` makes of a generated short id gives that short id back,
-- whatever characters were drawn for it, on every date of eight digits.
pub parse_short_id-alias_of :
    (date : Text) (picks : List ℕ)
    → length date ≡ 8
    → all ascii_digit date ≡ true
    → length picks ≡ 4
    → All (λ i. i < 32) picks
    → parse_short_id_from_alias (alias_of date (generate_short_id picks)) ≡ generate_short_id picks
parse_short_id-alias_of date picks eight digits four drawn =
    let sid = generate_short_id picks in
    let (classes, size) = generate_short_id-in_class picks drawn in
    let matched =
      digits_match-all date (b'-' ∷ sid) digits
      ∙ tail_match_of_length sid classes (omega (arith, size)) in
    parse_stripped (alias_of date sid) (strip-solid _ (alias_of-solid date sid digits classes))
    ∙ (unfold alias_of starts_with in rw eight at matched)
