-- ===== src/Atlassian/Teams/Pages.antt =====
-- lookup/plugins/atlassian.py, _iter_team_pages: a server whose pages come to an end.
use thaum.Prelude.{
  ℕ, zero, suc, ◌≤◌, ◌≡◌, refl, sym, ap, ◌∙◌, Bool, true, Option, none, some, List, [], ◌∷◌, ◌++◌,
  arith, length,
}
use thaum.Text.{Text}
use thaum.Lookup.Cache.{Cache}
use thaum.Atlassian.Teams.{
  TeamEntry, TeamAnswer, team_page, entities_of, next_cursor, add_batch, after_page, on_answer,
  iter_team_pages, Preloaded, preload_entry, preload_entries, preload_batches, preload_pages,
  preload_teams_cache,
}

-- From a cursor on, the server's pages carry these batches up to one without a cursor.
pub data PagesFrom (ask : Option Text → TeamAnswer)
    : Option Text → List (List TeamEntry) → Type 0 where
  last_page :
      {cursor : Option Text} (entities : Option (List TeamEntry)) (raw : Option Text)
      → ask cursor ≡ team_page entities raw
      → next_cursor raw ≡ none
      → PagesFrom ask cursor (entities_of entities ∷ [])
  and_page :
      {cursor : Option Text} {batches : List (List TeamEntry)} (entities : Option (List TeamEntry))
      (raw : Option Text) (next : Text)
      → ask cursor ≡ team_page entities raw
      → next_cursor raw ≡ some next
      → PagesFrom ask (some next) batches
      → PagesFrom ask cursor (entities_of entities ∷ batches)

iter_team_pages-PagesFrom :
    (ask : Option Text → TeamAnswer) (n : ℕ) (cursor : Option Text)
    (batches : List (List TeamEntry))
    → PagesFrom ask cursor batches
    → length batches ≤ n
    → iter_team_pages n ask cursor ≡ some (record { batches = batches; complete = true })
unfolding iter_team_pages on_answer after_page add_batch
iter_team_pages-PagesFrom ask zero cursor _ (last_page entities raw e stop) le = ground arith
iter_team_pages-PagesFrom ask zero cursor _ (and_page entities raw next e on pages) le =
    ground arith
iter_team_pages-PagesFrom ask (suc n) cursor _ (last_page entities raw e stop) le =
    rw e (rw stop refl)
iter_team_pages-PagesFrom ask (suc n) cursor _
      (and_page {batches = batches} entities raw next e on pages) le =
    rw e (rw on (rw (iter_team_pages-PagesFrom ask n (some next) batches pages (omega arith)) refl))

unfoldable pub all_entries : List (List TeamEntry) → List TeamEntry
all_entries [] = []
all_entries (batch ∷ batches) = batch ++ all_entries batches

module _ (enforced : Bool) (fallback_ttl : ℕ) where
  pub preload_entries-append :
      (xs ys : List TeamEntry) (done : Preloaded)
      → preload_entries enforced fallback_ttl (xs ++ ys) done
        ≡ preload_entries enforced fallback_ttl ys (preload_entries enforced fallback_ttl xs done)
  unfolding preload_entries
  preload_entries-append [] ys done = refl
  preload_entries-append (x ∷ xs) ys done =
      preload_entries-append xs ys (preload_entry enforced fallback_ttl x done)

  preload_batches-all :
      (batches : List (List TeamEntry)) (done : Preloaded)
      → preload_batches enforced fallback_ttl batches done
        ≡ preload_entries enforced fallback_ttl (all_entries batches) done
  unfolding preload_batches preload_entries all_entries
  preload_batches-all [] done = refl
  preload_batches-all (batch ∷ batches) done =
      preload_batches-all batches (preload_entries enforced fallback_ttl batch done)
      ∙ sym (preload_entries-append batch (all_entries batches) done)

-- A preload from a server whose pages come to an end, with fuel for each page, ends without an
-- exception, and has stored the entries of all pages, in order, as if they stood on one.
pub preload_teams_cache-PagesFrom :
    (n : ℕ) (enforced : Bool) (fallback_ttl : ℕ) (ask : Option Text → TeamAnswer) (c : Cache)
    (batches : List (List TeamEntry))
    → PagesFrom ask none batches
    → length batches ≤ n
    → preload_teams_cache n enforced fallback_ttl ask c
      ≡ some (true, preload_entries enforced fallback_ttl (all_entries batches) (c, 0))
unfolding preload_teams_cache preload_pages
preload_teams_cache-PagesFrom n enforced fallback_ttl ask c batches pages enough =
    rw (iter_team_pages-PagesFrom ask n none batches pages enough)
      (ap (λ done. some (true, done)) (preload_batches-all enforced fallback_ttl batches (c, 0)))
