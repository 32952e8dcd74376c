-- ===== src/Routes.antt =====
-- The routes of a bot's messages: BaseChatBot.hears of bots/base.py and the choice of the handler in
-- handle_event of bots/plugins/webex_bot.py.
--
-- A pattern is the test that its search makes on a text; a handler is any value.
pub mod Dispatch
pub mod Members
mod Tests
use thaum.Prelude.{ℕ, Bool, Option, none, some, List, [], ◌∷◌, ◌++◌, leb, if◌then◌else◌}
use thaum.Text.{Text}

pub record Route {ℓ} (H : Type ℓ) : Type ℓ where
  pub priority : ℕ
  pub pattern : Text → Bool
  pub handler : H

-- `list.sort` by the priority: stable.
unfoldable pub insert_route {ℓ} : {H : Type ℓ} → Route H → List (Route H) → List (Route H)
insert_route r [] = r ∷ []
insert_route r (s ∷ routes) =
    let rest = insert_route r routes in
    if leb r.priority s.priority then r ∷ s ∷ routes else s ∷ rest

unfoldable pub sort_routes {ℓ} : {H : Type ℓ} → List (Route H) → List (Route H)
unfolding insert_route
sort_routes [] = []
sort_routes (r ∷ routes) = insert_route r (sort_routes routes)

unfoldable pub hears {ℓ} : {H : Type ℓ} → List (Route H) → Route H → List (Route H)
unfolding sort_routes
hears routes r = sort_routes (routes ++ r ∷ [])

-- One registration after the other.
unfoldable pub hears_all {ℓ} : {H : Type ℓ} → List (Route H) → List (Route H) → List (Route H)
unfolding hears
hears_all [] routes = routes
hears_all (r ∷ rs) routes = hears_all rs (hears routes r)

-- The route whose handler is called, if any.
unfoldable pub dispatch {ℓ} : {H : Type ℓ} → Text → List (Route H) → Option (Route H)
dispatch text [] = none
dispatch text (r ∷ routes) =
    let rest = dispatch text routes in if r.pattern text then some r else rest
