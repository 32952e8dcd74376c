-- ===== src/Text.antt =====
-- Python text as the list of its code points, with the methods of `str` that the program calls.
--
-- `strip` removes what `str.isspace` accepts. `lower` and `upper` are exact on ASCII. The program
-- only compares their results with ASCII words, so the other code points matter where their case
-- mapping yields an ASCII letter: for `upper` these are the dotless i, the long s, the sharp s and
-- the ligatures; for `lower` they are the Kelvin sign and the dotted capital I, which becomes an i
-- and a combining dot.
pub mod Strip
pub mod Upper
use Prim.Native.Char.{code}
use thaum.Prelude.{
  ℕ, zero, suc, ◌+◌, ◌-◌, String, ◌≡◌, refl, ◌↔◌, Bool, true, false, not, Option, none, some, ◌&&◌,
  ◌||◌, List, [], ◌∷◌, ◌++◌, arith, leb, ltb, ◌==◌, ==_iff, if◌then◌else◌,
}

abbrev pub Text : Type 0
Text = List ℕ

-- The code points of a literal.
abbrev pub codes : String → Text
codes String.[] = []
codes (String.◌∷◌ c s) = code c ∷ codes s

unfoldable pub text_eq : Text → Text → Bool
text_eq [] [] = true
text_eq [] (b ∷ t) = false
text_eq (a ∷ s) [] = false
text_eq (a ∷ s) (b ∷ t) = a == b && text_eq s t

pub text_eq_iff : (s t : Text) → (text_eq s t ≡ true) ↔ (s ≡ t)
unfolding text_eq
text_eq_iff [] [] = ground arith
text_eq_iff [] (b ∷ t) = ground arith
text_eq_iff (a ∷ s) [] = ground arith
text_eq_iff (a ∷ s) (b ∷ t) = ground (arith, text_eq_iff s t)

pub text_eq_refl : (s : Text) → text_eq s s ≡ true
text_eq_refl s = (text_eq_iff s s).1 refl

-- `bool(s)`.
abbrev pub truthy : Text → Bool
truthy [] = false
truthy (c ∷ s) = true

-- `a or b` on texts.
abbrev pub or_else : Text → Text → Text
or_else [] t = t
or_else (c ∷ s) t = c ∷ s

-- `str.isspace` of one character.
unfoldable pub is_space : ℕ → Bool
is_space c =
    (leb 9 c && leb c 13)
    || (leb 28 c && leb c 32)
    || c == 133
    || c == 160
    || c == 5760
    || (leb 8192 c && leb c 8202)
    || c == 8232
    || c == 8233
    || c == 8239
    || c == 8287
    || c == 12288

-- `str.lstrip()`, `str.rstrip()` and `str.strip()`.
unfoldable pub lstrip : Text → Text
unfolding is_space
lstrip [] = []
lstrip (c ∷ s) = if is_space c then lstrip s else c ∷ s

unfoldable pub rstrip : Text → Text
unfolding is_space
rstrip [] = []
rstrip (c ∷ s) = let r = rstrip s in if is_space c && not (truthy r) then [] else c ∷ r

unfoldable pub strip : Text → Text
unfolding lstrip rstrip
strip s = rstrip (lstrip s)

-- `(value or "").strip()` of an optional text.
unfoldable pub strip_opt : Option Text → Text
unfolding strip
strip_opt none = []
strip_opt (some s) = strip s

unfoldable pub lower_char : ℕ → Text
lower_char c =
    if leb b'A' c && leb c b'Z'
    then (c + 32) ∷ []
    else if c == 304
    then b'i' ∷ 775 ∷ []
    else if c == 8490
    then b'k' ∷ []
    else c ∷ []

-- `str.lower()`.
unfoldable pub lower : Text → Text
unfolding lower_char
lower [] = []
lower (c ∷ s) = lower_char c ++ lower s

unfoldable pub upper_char : ℕ → Text
upper_char c =
    if leb b'a' c && leb c b'z'
    then (c - 32) ∷ []
    else if c == 305
    then b'I' ∷ []
    else if c == 383
    then b'S' ∷ []
    else if c == 223
    then codes "SS"
    else if c == 64256
    then codes "FF"
    else if c == 64257
    then codes "FI"
    else if c == 64258
    then codes "FL"
    else if c == 64259
    then codes "FFI"
    else if c == 64260
    then codes "FFL"
    else if c == 64261 || c == 64262
    then codes "ST"
    else c ∷ []

-- `str.upper()`.
unfoldable pub upper : Text → Text
unfolding upper_char
upper [] = []
upper (c ∷ s) = upper_char c ++ upper s

-- `str.startswith()`.
unfoldable pub starts_with : Text → Text → Bool
starts_with s [] = true
starts_with [] (b ∷ p) = false
starts_with (a ∷ s) (b ∷ p) = a == b && starts_with s p

-- `c in s` of one character.
unfoldable pub has_char : ℕ → Text → Bool
has_char c [] = false
has_char c (d ∷ s) = d == c || has_char c s

-- `s.rstrip(chars)` and `s.lstrip(chars)` of one character.
unfoldable pub rstrip_char : ℕ → Text → Text
rstrip_char k [] = []
rstrip_char k (c ∷ s) = let r = rstrip_char k s in if c == k && not (truthy r) then [] else c ∷ r

unfoldable pub lstrip_char : ℕ → Text → Text
lstrip_char k [] = []
lstrip_char k (c ∷ s) = if c == k then lstrip_char k s else c ∷ s

-- `s in words`.
unfoldable pub one_of : Text → List Text → Bool
unfolding text_eq
one_of s [] = false
one_of s (w ∷ ws) = text_eq s w || one_of s ws
