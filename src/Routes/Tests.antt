-- ===== src/Routes/Tests.antt =====
-- Tests of the dispatch of messages.
use thaum.Prelude.{◌≡◌, refl, ℕ, true, none, some, List, [], ◌∷◌}
use thaum.Text.{codes, starts_with}
use thaum.Routes.{Route, insert_route, sort_routes, hears, hears_all, dispatch}
use thaum.Routes.Dispatch.{chosen, dispatch-hears_all}

abbrev unknown : Route ℕ
unknown = record { priority = 99; pattern = λ text. true; handler = 0 }

abbrev help : Route ℕ
help = record { priority = 10; pattern = λ text. starts_with text (codes "help"); handler = 1 }

abbrev usage : Route ℕ
usage = record { priority = 90; pattern = λ text. starts_with text (codes "usage"); handler = 2 }

abbrev more_help : Route ℕ
more_help = record { priority = 10; pattern = λ text. starts_with text (codes "he"); handler = 3 }

abbrev routes : List (Route ℕ)
routes = unknown ∷ help ∷ usage ∷ more_help ∷ []

called : dispatch (codes "help me") (hears_all routes []) ≡ some help
unfolding dispatch hears_all hears sort_routes insert_route starts_with
called = refl

fallback : dispatch (codes "halp") (hears_all routes []) ≡ some unknown
unfolding dispatch hears_all hears sort_routes insert_route starts_with
fallback = refl

dispatch-hears_all_example :
    dispatch (codes "help me") (hears_all routes []) ≡ chosen (codes "help me") routes none
dispatch-hears_all_example = dispatch-hears_all (codes "help me") routes
