-- ===== src/Routes/Dispatch.antt =====
-- bots/base.py, hears, with handle_event of bots/plugins/webex_bot.py: which handler a message calls.
use thaum.Prelude.{
  ℕ, ◌≤◌, ◌≡◌, refl, sym, ap, ◌∙◌, inl, inr, true, false, Option, none, some, List, [], ◌∷◌, ◌++◌,
  arith, leb, if◌then◌else◌, Bool-cases, All,
}
use thaum.Text.{Text}
use thaum.Routes.{Route, insert_route, sort_routes, hears, hears_all, dispatch}

-- The earlier of two routes unless the later one has a smaller priority.
unfoldable pub better {ℓ} : {H : Type ℓ} → Route H → Option (Route H) → Route H
better r none = r
better r (some s) = if leb r.priority s.priority then r else s

-- The choice among the routes that follow, with one more before them.
unfoldable pub keep {ℓ} : {H : Type ℓ} → Text → Route H → Option (Route H) → Option (Route H)
unfolding better
keep text r o = if r.pattern text then some (better r o) else o

-- Of the routes whose pattern matches, the first registered one with the least priority.
unfoldable pub chosen {ℓ} :
    {H : Type ℓ} → Text → List (Route H) → Option (Route H) → Option (Route H)
unfolding keep
chosen text [] o = o
chosen text (r ∷ routes) o = keep text r (chosen text routes o)

leb-≤ : (a b : ℕ) → leb a b ≡ true → a ≤ b
leb-≤ a b e = ground arith

not_leb-≤ : (a b : ℕ) → leb a b ≡ false → b ≤ a
not_leb-≤ a b e = ground arith

module _ {ℓ} {H : Type ℓ} where
  keep_comm :
      (text : Text) (r s : Route H) (o : Option (Route H))
      → leb r.priority s.priority ≡ false
      → keep text s (keep text r o) ≡ keep text r (keep text s o)
  unfolding keep better
  keep_comm text r s none e = ground arith
  keep_comm text r s (some q) e = ground arith

  chosen-insert_route :
      (text : Text) (r : Route H) (routes : List (Route H)) (o : Option (Route H))
      → chosen text (insert_route r routes) o ≡ keep text r (chosen text routes o)
  unfolding chosen insert_route
  chosen-insert_route text r [] o = refl
  chosen-insert_route text r (s ∷ routes) o = elim (Bool-cases (leb r.priority s.priority)) [
    | inl e ↦ rw e refl
    | inr e ↦ rw e (
        ap (keep text s) (chosen-insert_route text r routes o)
        ∙ keep_comm text r s (chosen text routes o) e)
  ]

  chosen-sort_routes :
      (text : Text) (routes : List (Route H)) (o : Option (Route H))
      → chosen text (sort_routes routes) o ≡ chosen text routes o
  unfolding chosen sort_routes
  chosen-sort_routes text [] o = refl
  chosen-sort_routes text (r ∷ routes) o =
      chosen-insert_route text r (sort_routes routes) o
      ∙ ap (keep text r) (chosen-sort_routes text routes o)

  chosen-append :
      (text : Text) (xs ys : List (Route H)) (o : Option (Route H))
      → chosen text (xs ++ ys) o ≡ chosen text xs (chosen text ys o)
  unfolding chosen
  chosen-append text [] ys o = refl
  chosen-append text (x ∷ xs) ys o = ap (keep text x) (chosen-append text xs ys o)

  chosen-hears_all :
      (text : Text) (rs routes : List (Route H)) (o : Option (Route H))
      → chosen text (hears_all rs routes) o ≡ chosen text routes (chosen text rs o)
  unfolding chosen hears_all hears
  chosen-hears_all text [] routes o = refl
  chosen-hears_all text (r ∷ rs) routes o =
      chosen-hears_all text rs (hears routes r) o
      ∙ chosen-sort_routes text (routes ++ r ∷ []) (chosen text rs o)
      ∙ chosen-append text routes (r ∷ []) (chosen text rs o)

  Below : ℕ → List (Route H) → Type 0
  Below p [] = Unit
  Below p (r ∷ routes) = (p ≤ r.priority) × Below p routes

  IsSorted : List (Route H) → Type 0
  unfolding Below
  IsSorted [] = Unit
  IsSorted (r ∷ routes) = Below r.priority routes × IsSorted routes

  Below-trans : (p q : ℕ) (routes : List (Route H)) → p ≤ q → Below q routes → Below p routes
  unfolding Below
  Below-trans p q [] le b = tt
  Below-trans p q (r ∷ routes) le (b, bs) = ((omega arith), Below-trans p q routes le bs)

  insert_route-Below :
      (p : ℕ) (r : Route H) (routes : List (Route H))
      → p ≤ r.priority
      → Below p routes
      → Below p (insert_route r routes)
  unfolding Below insert_route
  insert_route-Below p r [] le b = (le, tt)
  insert_route-Below p r (s ∷ routes) le (b, bs) = elim (Bool-cases (leb r.priority s.priority)) [
    | inl e ↦ rw e (le, (b, bs))
    | inr e ↦ rw e (b, insert_route-Below p r routes le bs)
  ]

  insert_route-IsSorted :
      (r : Route H) (routes : List (Route H)) → IsSorted routes → IsSorted (insert_route r routes)
  unfolding Below IsSorted insert_route
  insert_route-IsSorted r [] v = (tt, tt)
  insert_route-IsSorted r (s ∷ routes) (below, v) = elim (Bool-cases (leb r.priority s.priority)) [
    | inl e ↦
        let le = leb-≤ r.priority s.priority e in
        rw e ((le, Below-trans r.priority s.priority routes le below), (below, v))
    | inr e ↦ rw e (
      insert_route-Below s.priority r routes (not_leb-≤ r.priority s.priority e) below,
      insert_route-IsSorted r routes v,
    )
  ]

  sort_routes-IsSorted : (routes : List (Route H)) → IsSorted (sort_routes routes)
  unfolding IsSorted sort_routes
  sort_routes-IsSorted [] = tt
  sort_routes-IsSorted (r ∷ routes) =
      insert_route-IsSorted r (sort_routes routes) (sort_routes-IsSorted routes)

  hears_all-IsSorted :
      (rs routes : List (Route H)) → IsSorted routes → IsSorted (hears_all rs routes)
  unfolding hears_all hears
  hears_all-IsSorted [] routes v = v
  hears_all-IsSorted (r ∷ rs) routes v =
      hears_all-IsSorted rs (hears routes r) (sort_routes-IsSorted (routes ++ r ∷ []))

  AtLeast : ℕ → Option (Route H) → Type 0
  AtLeast p none = Unit
  AtLeast p (some r) = p ≤ r.priority

  keep-AtLeast :
      (p : ℕ) (text : Text) (r : Route H) (o : Option (Route H))
      → p ≤ r.priority
      → AtLeast p o
      → AtLeast p (keep text r o)
  unfolding AtLeast keep better
  keep-AtLeast p text r none le a = elim (Bool-cases (r.pattern text)) [
    | inl e ↦ rw e le
    | inr e ↦ rw e tt
  ]
  keep-AtLeast p text r (some s) le a = elim (Bool-cases (r.pattern text)) [
    | inl e ↦ elim (Bool-cases (leb r.priority s.priority)) [
      | inl f ↦ rw (e, f) le
      | inr f ↦ rw (e, f) a
    ]
    | inr e ↦ rw e a
  ]

  chosen-AtLeast :
      (p : ℕ) (text : Text) (routes : List (Route H))
      → Below p routes
      → AtLeast p (chosen text routes none)
  unfolding Below AtLeast chosen
  chosen-AtLeast p text [] b = tt
  chosen-AtLeast p text (r ∷ routes) (b, bs) =
      keep-AtLeast p text r (chosen text routes none) b (chosen-AtLeast p text routes bs)

  keep-first :
      (text : Text) (r : Route H) (o : Option (Route H))
      → AtLeast r.priority o
      → keep text r o ≡ (if r.pattern text then some r else o)
  unfolding AtLeast keep better
  keep-first text r none a = refl
  keep-first text r (some s) a = ground arith

  dispatch-sorted :
      (text : Text) (routes : List (Route H))
      → IsSorted routes
      → dispatch text routes ≡ chosen text routes none
  unfolding dispatch chosen IsSorted
  dispatch-sorted text [] v = refl
  dispatch-sorted text (r ∷ routes) (below, v) =
      ap (λ o. if r.pattern text then some r else o) (dispatch-sorted text routes v)
      ∙ sym (
          keep-first text r (chosen text routes none) (chosen-AtLeast r.priority text routes below))

  -- A message calls the handler that was registered first among those with the least priority of
  -- all whose pattern matches, in whatever order the handlers were registered, and none only if no
  -- pattern matches.
  pub dispatch-hears_all :
      (text : Text) (rs : List (Route H)) → dispatch text (hears_all rs []) ≡ chosen text rs none
  unfolding chosen IsSorted
  dispatch-hears_all text rs =
      dispatch-sorted text (hears_all rs []) (hears_all-IsSorted rs [] tt)
      ∙ chosen-hears_all text rs [] none

  All-Below : (p : ℕ) (rs : List (Route H)) → All (λ r. p ≤ r.priority) rs → Below p rs
  unfolding Below
  All-Below p [] h = tt
  All-Below p (r ∷ rs) (h, hs) = (h, All-Below p rs hs)

  -- The first registered route is called if it matches and none that follows has a smaller priority.
  pub dispatch-first :
      (text : Text) (first : Route H) (rs : List (Route H))
      → All (λ r. first.priority ≤ r.priority) rs
      → first.pattern text ≡ true
      → dispatch text (hears_all (first ∷ rs) []) ≡ some first
  unfolding chosen
  dispatch-first text first rs later matches =
      dispatch-hears_all text (first ∷ rs)
      ∙ keep-first text first (chosen text rs none)
          (chosen-AtLeast first.priority text rs (All-Below first.priority rs later))
      ∙ ap (λ b. if b then some first else chosen text rs none) matches
