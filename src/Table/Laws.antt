-- ===== src/Table/Laws.antt =====
-- What a query returns after a change of the table.
use mathlib.Core.Option
use mathlib.Core.Path.{fun_ext}
use thaum.Prelude.{
  ◌≡◌, refl, ◌∙◌, inl, inr, Bool, true, false, not, ◌&&◌, Option, none, some, List, [], ◌∷◌, ◌++◌,
  arith, if◌then◌else◌, Bool-cases,
}
use thaum.Table.{find_row, rows_where, update_row, add_row, delete_where}

module _ {ℓ} {A : Type ℓ} where
  pub find_row_sound : (p : A → Bool) (t : List A) (r : A) → find_row p t ≡ some r → p r ≡ true
  unfolding find_row
  find_row_sound p [] r h = cc
  find_row_sound p (x ∷ xs) r h = elim (Bool-cases (p x)) [
    | inl e ↦ let same : x ≡ r = ground arith in rw (← same) e
    | inr e ↦ find_row_sound p xs r (rw (e) at h)
  ]

  abbrev pub or_new : (A → Bool) → A → Option A → Option A
  or_new p r none = if p r then some r else none
  or_new p r (some x) = some x

  pub find_row-add_row :
      (p : A → Bool) (r : A) (t : List A) → find_row p (add_row r t) ≡ or_new p r (find_row p t)
  unfolding find_row add_row
  find_row-add_row p r [] = refl
  find_row-add_row p r (x ∷ xs) = ground (arith, find_row-add_row p r xs)

  -- A row that is found by a test which the update keeps is found updated.
  pub find_row-update_row :
      (p : A → Bool) (f : A → A) (t : List A)
      → ((r : A) → p r ≡ true → p (f r) ≡ true)
      → find_row p (update_row p f t) ≡ Option.map f (find_row p t)
  unfolding find_row update_row
  find_row-update_row p f [] keep = refl
  find_row-update_row p f (x ∷ xs) keep = ground (arith, keep x, find_row-update_row p f xs keep)

  -- A test that no updated row passes, before or after, finds what it found.
  pub find_row-update_row_other :
      (p q : A → Bool) (f : A → A) (t : List A)
      → ((r : A) → p r ≡ true → (q r ≡ false) × (q (f r) ≡ false))
      → find_row q (update_row p f t) ≡ find_row q t
  unfolding find_row update_row
  find_row-update_row_other p q f [] apart = refl
  find_row-update_row_other p q f (x ∷ xs) apart =
      ground (arith, apart x, find_row-update_row_other p q f xs apart)

  -- A test that updated rows pass and no row passed before finds the updated row.
  pub find_row-update_row_new :
      (p q : A → Bool) (f : A → A) (t : List A)
      → ((r : A) → q (f r) ≡ true)
      → find_row q t ≡ none
      → find_row q (update_row p f t) ≡ Option.map f (find_row p t)
  unfolding find_row update_row
  find_row-update_row_new p q f [] hit before = refl
  find_row-update_row_new p q f (x ∷ xs) hit before =
      ground (arith, hit x, find_row-update_row_new p q f xs hit)

  -- A test that only updated rows pass finds the updated row.
  pub find_row-update_row_only :
      (p q : A → Bool) (f : A → A) (t : List A)
      → ((r : A) → p r ≡ true → q (f r) ≡ true)
      → find_row (λ r. q r && not (p r)) t ≡ none
      → find_row q (update_row p f t) ≡ Option.map f (find_row p t)
  unfolding find_row update_row
  find_row-update_row_only p q f [] hit only = refl
  find_row-update_row_only p q f (x ∷ xs) hit only =
      ground (arith, hit x, find_row-update_row_only p q f xs hit)

  pub find_row-delete_where :
      (p q : A → Bool) (t : List A)
      → ((r : A) → q r ≡ true → p r ≡ false)
      → find_row q (delete_where p t) ≡ find_row q t
  unfolding find_row delete_where
  find_row-delete_where p q [] apart = refl
  find_row-delete_where p q (x ∷ xs) apart =
      ground (arith, apart x, find_row-delete_where p q xs apart)

  pub find_row-delete_where_self :
      (p q : A → Bool) (t : List A)
      → ((r : A) → q r ≡ true → p r ≡ true)
      → find_row q (delete_where p t) ≡ none
  unfolding find_row delete_where
  find_row-delete_where_self p q [] inside = refl
  find_row-delete_where_self p q (x ∷ xs) inside =
      ground (arith, inside x, find_row-delete_where_self p q xs inside)

  pub find_row-delete_where_kept :
      (p q : A → Bool) (t : List A) (r : A)
      → find_row q t ≡ some r
      → p r ≡ false
      → find_row q (delete_where p t) ≡ some r
  unfolding find_row delete_where
  find_row-delete_where_kept p q [] r found kept = found
  find_row-delete_where_kept p q (x ∷ xs) r found kept = elim (Bool-cases (q x)) [
    | inl here ↦
        let same : some x ≡ some r = rw here at found in
        let stays : p x ≡ false = ground (arith, same, kept) in rw (stays, here) same
    | inr there ↦
        ground (arith, there, find_row-delete_where_kept p q xs r (rw there at found) kept)
  ]

  pub rows_where-append :
      (p : A → Bool) (s t : List A) → rows_where p (s ++ t) ≡ rows_where p s ++ rows_where p t
  unfolding rows_where
  rows_where-append p [] t = refl
  rows_where-append p (x ∷ xs) t = ground (arith, rows_where-append p xs t)

  pub rows_where-delete_where : (p : A → Bool) (t : List A) → rows_where p (delete_where p t) ≡ []
  unfolding rows_where delete_where
  rows_where-delete_where p [] = refl
  rows_where-delete_where p (x ∷ xs) = ground (arith, rows_where-delete_where p xs)

  pub rows_where-delete_where_other :
      (p q : A → Bool) (t : List A)
      → ((r : A) → q r ≡ true → p r ≡ false)
      → rows_where q (delete_where p t) ≡ rows_where q t
  unfolding rows_where delete_where
  rows_where-delete_where_other p q [] apart = refl
  rows_where-delete_where_other p q (x ∷ xs) apart =
      ground (arith, apart x, rows_where-delete_where_other p q xs apart)

  -- What two tests together cover is not found if neither finds a row.
  pub find_row-none_of :
      (p₁ p₂ q : A → Bool) (t : List A)
      → ((r : A) → p₁ r ≡ false → p₂ r ≡ false → q r ≡ false)
      → find_row p₁ t ≡ none
      → find_row p₂ t ≡ none
      → find_row q t ≡ none
  unfolding find_row
  find_row-none_of p₁ p₂ q [] cover h₁ h₂ = refl
  find_row-none_of p₁ p₂ q (x ∷ xs) cover h₁ h₂ =
      ground (arith, cover x, find_row-none_of p₁ p₂ q xs cover)

  -- No row has the key of an earlier one: the primary key or the unique column holds.
  abbrev pub IsUnique : (A → A → Bool) → List A → Type ℓ
  IsUnique same [] = Unit
  IsUnique same (r ∷ rs) = (find_row (same r) rs ≡ none) × IsUnique same rs

  pub add_row-IsUnique :
      (same : A → A → Bool) (r : A) (t : List A)
      → find_row (λ x. same x r) t ≡ none
      → IsUnique same t
      → IsUnique same (add_row r t)
  unfolding find_row add_row
  add_row-IsUnique same r [] fresh h = (refl, tt)
  add_row-IsUnique same r (x ∷ xs) fresh (first, h) =
      let later : find_row (same x) (xs ++ r ∷ []) ≡ or_new (same x) r (find_row (same x) xs) =
        find_row-add_row (same x) r xs in
      ground (arith, later, add_row-IsUnique same r xs)

  pub find_row-update_row-none :
      (q p : A → Bool) (f : A → A) (t : List A)
      → ((r : A) → p r ≡ true → q r ≡ false → q (f r) ≡ false)
      → find_row q t ≡ none
      → find_row q (update_row p f t) ≡ none
  unfolding find_row update_row
  find_row-update_row-none q p f [] keep h = refl
  find_row-update_row-none q p f (x ∷ xs) keep h =
      ground (arith, keep x, find_row-update_row-none q p f xs keep)

  -- An update that keeps the key keeps the rows apart.
  pub update_row-IsUnique :
      (same : A → A → Bool) (p : A → Bool) (f : A → A) (t : List A)
      → ((x r : A) → (same x (f r) ≡ same x r) × (same (f r) x ≡ same r x))
      → IsUnique same t
      → IsUnique same (update_row p f t)
  unfolding update_row
  update_row-IsUnique same p f [] keep h = tt
  update_row-IsUnique same p f (x ∷ xs) keep (first, h) = elim (Bool-cases (p x)) [
    | inl e ↦ rw e (rw (fun_ext (λ (r : A). (keep r x).1)) first, h)
    | inr e ↦ rw e (
      find_row-update_row-none (same x) p f xs (λ r _ e. (keep x r).0 ∙ e) first,
      update_row-IsUnique same p f xs keep h,
    )
  ]

  find_row-delete_where-none :
      (q p : A → Bool) (t : List A) → find_row q t ≡ none → find_row q (delete_where p t) ≡ none
  unfolding find_row delete_where
  find_row-delete_where-none q p [] h = refl
  find_row-delete_where-none q p (x ∷ xs) h = ground (arith, find_row-delete_where-none q p xs)

  pub delete_where-IsUnique :
      (same : A → A → Bool) (p : A → Bool) (t : List A)
      → IsUnique same t
      → IsUnique same (delete_where p t)
  unfolding delete_where
  delete_where-IsUnique same p [] h = tt
  delete_where-IsUnique same p (x ∷ xs) (first, h) =
      ground
        (arith, find_row-delete_where-none (same x) p xs first, delete_where-IsUnique same p xs h)
