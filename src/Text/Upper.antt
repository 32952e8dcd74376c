-- ===== src/Text/Upper.antt =====
-- `str.upper`, applied twice.
use thaum.Prelude.{ℕ, ◌≡◌, refl, sym, ap, ◌∙◌, [], ◌∷◌, ◌++◌, append_assoc, arith}
use thaum.Text.{Text, upper_char, upper}

upper-append : (s t : Text) → upper (s ++ t) ≡ upper s ++ upper t
unfolding upper
upper-append [] t = refl
upper-append (c ∷ s) t =
    ap (λ rest. upper_char c ++ rest) (upper-append s t)
    ∙ sym (append_assoc (upper_char c) (upper s) (upper t))

upper-upper_char : (c : ℕ) → upper (upper_char c) ≡ upper_char c
unfolding upper upper_char
upper-upper_char c = ground arith

pub upper_idem : (s : Text) → upper (upper s) ≡ upper s
unfolding upper
upper_idem [] = refl
upper_idem (c ∷ s) =
    upper-append (upper_char c) (upper s)
    ∙ ap (λ front. front ++ upper (upper s)) (upper-upper_char c)
    ∙ ap (λ rest. upper_char c ++ rest) (upper_idem s)
