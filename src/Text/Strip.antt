-- ===== src/Text/Strip.antt =====
-- Laws of stripping white space.
use thaum.Prelude.{
  ℕ, ◌≡◌, refl, sym, ap, ◌∙◌, subst, inl, inr, true, false, not, ◌&&◌, Option, none, some, [], ◌∷◌,
  ◌++◌, arith, Bool-cases,
}
use thaum.Text.{Text, truthy, is_space, lstrip, rstrip, strip, strip_opt}

-- A text whose first character, if there is one, is no space.
abbrev pub HeadOk : Text → Type 0
HeadOk [] = Unit
HeadOk (c ∷ s) = is_space c ≡ false

lstrip-HeadOk : (s : Text) → HeadOk (lstrip s)
unfolding lstrip
lstrip-HeadOk [] = tt
lstrip-HeadOk (c ∷ s) = elim (Bool-cases (is_space c)) [
  | inl e ↦ rw e (lstrip-HeadOk s)
  | inr e ↦ rw e e
]

lstrip_of_HeadOk : (s : Text) → HeadOk s → lstrip s ≡ s
unfolding lstrip
lstrip_of_HeadOk [] h = refl
lstrip_of_HeadOk (c ∷ s) h = rw h

rstrip-HeadOk : (s : Text) → HeadOk s → HeadOk (rstrip s)
unfolding rstrip
rstrip-HeadOk [] h = tt
rstrip-HeadOk (c ∷ s) h = rw h h

rstrip_cons_kept :
    (c : ℕ) (s : Text)
    → (is_space c && not (truthy (rstrip s))) ≡ false
    → rstrip (c ∷ s) ≡ c ∷ rstrip s
unfolding rstrip
rstrip_cons_kept c s h = rw h

rstrip_idem : (s : Text) → rstrip (rstrip s) ≡ rstrip s
rstrip_idem [] = unfold rstrip in refl
rstrip_idem (c ∷ s) = elim (Bool-cases (is_space c && not (truthy (rstrip s)))) [
  | inl e ↦ unfold rstrip in rw e
  | inr e ↦
      rw (rstrip_cons_kept c s e)
        (rstrip_cons_kept c (rstrip s) (rw (rstrip_idem s) e) ∙ ap (λ t. c ∷ t) (rstrip_idem s))
]

pub strip_idem : (s : Text) → strip (strip s) ≡ strip s
unfolding strip
strip_idem s =
    ap rstrip (lstrip_of_HeadOk (rstrip (lstrip s)) (rstrip-HeadOk (lstrip s) (lstrip-HeadOk s)))
    ∙ rstrip_idem (lstrip s)

pub strip-strip_opt : (o : Option Text) → strip (strip_opt o) ≡ strip_opt o
unfolding strip_opt
strip-strip_opt none = unfold strip in refl
strip-strip_opt (some s) = strip_idem s

strip-HeadOk : (s : Text) → strip s ≡ s → HeadOk s
unfolding strip
strip-HeadOk s e = subst HeadOk e (rstrip-HeadOk (lstrip s) (lstrip-HeadOk s))

rstrip_of_strip : (s : Text) → strip s ≡ s → rstrip s ≡ s
unfolding strip
rstrip_of_strip s e = ap rstrip (sym (lstrip_of_HeadOk s (strip-HeadOk s e))) ∙ e

truthy-append : (s t : Text) → truthy t ≡ true → truthy (s ++ t) ≡ true
truthy-append [] t h = h
truthy-append (c ∷ s) t h = refl

rstrip-append : (s t : Text) → rstrip t ≡ t → truthy t ≡ true → rstrip (s ++ t) ≡ s ++ t
rstrip-append [] t e h = e
rstrip-append (c ∷ s) t e h =
    let rest = rstrip-append s t e h in
    rstrip_cons_kept c (s ++ t) (rw (rest, truthy-append s t h) ground arith) ∙ ap (λ u. c ∷ u) rest

-- Two stripped texts that are not empty are stripped with anything between them.
pub strip-append :
    (s t u : Text)
    → truthy s ≡ true
    → strip s ≡ s
    → truthy u ≡ true
    → strip u ≡ u
    → strip (s ++ (t ++ u)) ≡ s ++ (t ++ u)
unfolding strip
strip-append [] t u s_there s_ok u_there u_ok = ground arith
strip-append (c ∷ s) t u s_there s_ok u_there u_ok =
    let tail = rstrip-append t u (rstrip_of_strip u u_ok) u_there in
    ap rstrip (lstrip_of_HeadOk (c ∷ (s ++ (t ++ u))) (strip-HeadOk (c ∷ s) s_ok))
    ∙ rstrip-append (c ∷ s) (t ++ u) tail (truthy-append t u u_there)
