-- ===== src/Routes/Members.antt =====
-- bots/base.py, hears: the routes that a bot has are those that were registered.
use thaum.Prelude.{
  ◌≡◌, subst, inl, inr, some, List, [], ◌∷◌, ◌++◌, leb, Bool-cases, All, All-append, none-some,
  some-inj, if-elim,
}
use thaum.Text.{Text}
use thaum.Routes.{Route, insert_route, sort_routes, hears, hears_all, dispatch}

module _ {ℓ κ} {H : Type ℓ} (P : Route H → Type κ) where
  All-insert_route :
      (r : Route H) (routes : List (Route H)) → P r → All P routes → All P (insert_route r routes)
  unfolding insert_route
  All-insert_route r [] h hs = (h, hs)
  All-insert_route r (s ∷ routes) h (g, gs) =
      if-elim (All P) (leb r.priority s.priority) (r ∷ s ∷ routes) (s ∷ insert_route r routes)
        (λ _. (h, (g, gs))) (λ _. (g, All-insert_route r routes h gs))

  All-sort_routes : (routes : List (Route H)) → All P routes → All P (sort_routes routes)
  unfolding sort_routes
  All-sort_routes [] hs = hs
  All-sort_routes (r ∷ routes) (h, hs) =
      All-insert_route r (sort_routes routes) h (All-sort_routes routes hs)

  pub All-hears_all :
      (rs routes : List (Route H)) → All P rs → All P routes → All P (hears_all rs routes)
  unfolding hears_all hears
  All-hears_all [] routes hs gs = gs
  All-hears_all (r ∷ rs) routes (h, hs) gs =
      All-hears_all rs (hears routes r) hs
        (All-sort_routes (routes ++ r ∷ []) (All-append P routes (r ∷ []) gs (h, tt)))

  pub All-dispatch :
      (text : Text) (routes : List (Route H)) (r : Route H)
      → All P routes
      → dispatch text routes ≡ some r
      → P r
  unfolding dispatch
  All-dispatch text [] r hs e = absurd (none-some r e)
  All-dispatch text (s ∷ routes) r (h, hs) e = elim (Bool-cases (s.pattern text)) [
    | inl yes_s ↦ subst P (some-inj s r (rw yes_s at e)) h
    | inr no_s ↦ All-dispatch text routes r hs (rw no_s at e)
  ]
