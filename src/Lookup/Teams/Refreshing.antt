-- ===== src/Lookup/Teams/Refreshing.antt =====
-- Refreshing a team: no fetched member is lost on the way into the cache and back.
use thaum.Prelude.{◌≢◌, Option, none, some, List}
use thaum.Text.{Text}
use thaum.Table.{find_row}
use thaum.Identity.{ThaumPerson}
use thaum.Lookup.Cache.{Cache, of_email}

abbrev pub email_of : ThaumPerson → Text
email_of p = p.email

-- The cache has a person for the email.
abbrev Known : Cache → Text → Type 0
Known c email = find_row (of_email email) c.people ≢ none

or_fragment : ThaumPerson → Option ThaumPerson → ThaumPerson
or_fragment m o = elim o [ none ↦ m | some p ↦ p ]
