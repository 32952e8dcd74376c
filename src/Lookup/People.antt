-- ===== src/Lookup/People.antt =====
-- The people of `BaseLookupPlugin`: reading a person and merging a fragment.
--
-- The clock is an argument, in whole seconds. The database is one that answers: its own failures
-- are not modelled.
pub mod Merging
pub mod Reading
pub mod Ids
pub mod Validity
mod Tests
use thaum.Prelude.{
  ℕ, ◌-◌, Bool, true, false, not, ◌&&◌, ◌||◌, Option, none, some, List, [], ◌∷◌, ltb, if◌then◌else◌,
}
use thaum.Text.{Text, truthy, or_else, strip, strip_opt}
use thaum.Table.{find_row, rows_where, update_row, add_row}
use thaum.Dict.{Dict, set}
use thaum.Identity.{ThaumPerson}
use thaum.Lookup.Cache.{PersonRow, PlatformIdRow, Cache, of_email, of_platform_id, id_of_email}

abbrev pub one_week : ℕ
one_week = 604800

-- `{p.platform_key: p.platform_id for p in pid_rows}`.
unfoldable pub dict_of : List PlatformIdRow → Dict Text → Dict Text
dict_of [] d = d
dict_of (r ∷ rs) d = dict_of rs (set r.platform_key r.platform_id d)

unfoldable pub person_of : Text → Cache → PersonRow → ThaumPerson
person_of plugin c row = record {
  email = row.email;
  display_name = some (elim row.display_name [ none ↦ [] | some d ↦ d ]);
  platform_ids = dict_of (rows_where (id_of_email row.email) c.platform_ids) [];
  source_plugin = elim row.source_plugin [ none ↦ plugin | some s ↦ or_else s plugin ];
}

unfoldable pub found_person : Text → Cache → Option PersonRow → Option ThaumPerson
found_person plugin c none = none
found_person plugin c (some row) = some (person_of plugin c row)

-- `_get_person_by_email`; `plugin` is the `plugin_name` of the lookup plugin.
unfoldable pub person_by_email : Text → Text → Cache → Option ThaumPerson
unfolding found_person person_of dict_of find_row rows_where set
person_by_email plugin email c = found_person plugin c (find_row (of_email email) c.people)

-- `_get_cached_person_by_email`, which is `get_person_by_email` of the base class.
unfoldable pub get_person_by_email : Text → Option Text → Cache → Option ThaumPerson
unfolding strip_opt person_by_email
get_person_by_email plugin email c =
    let key = strip_opt email in if truthy key then person_by_email plugin key c else none

unfoldable pub by_row : Text → Cache → Option PlatformIdRow → Option ThaumPerson
unfolding person_by_email
by_row plugin c none = none
by_row plugin c (some r) = if truthy r.email then person_by_email plugin r.email c else none

unfoldable pub get_person_by_id : Text → Text → Text → Cache → Option ThaumPerson
unfolding by_row
get_person_by_id plugin bot_plugin_name person_id c =
    by_row plugin c (find_row (of_platform_id bot_plugin_name person_id) c.platform_ids)

-- `should_update_name` on an existing row.
unfoldable pub name_is_stale : ℕ → PersonRow → Bool
unfolding strip
name_is_stale now row =
    elim row.display_name [ none ↦ true | some d ↦ not (truthy d) || not (truthy (strip d)) ]
    || ltb one_week (now - row.name_last_updated)

abbrev pub has_name : ThaumPerson → Bool
has_name p = elim p.display_name [ none ↦ false | some d ↦ truthy d ]

unfoldable pub renamed : ℕ → ThaumPerson → PersonRow → PersonRow
unfolding name_is_stale
renamed now fragment row =
    if name_is_stale now row && has_name fragment
    then record row {
      display_name = fragment.display_name;
      source_plugin = some fragment.source_plugin;
      name_last_updated = now;
    }
    else row

unfoldable pub merge_row : ℕ → ThaumPerson → Option PersonRow → List PersonRow → List PersonRow
unfolding renamed update_row add_row
merge_row now fragment none people =
    add_row
      (record {
        email = fragment.email;
        display_name = fragment.display_name;
        source_plugin = some fragment.source_plugin;
        name_last_updated = now;
      })
      people
merge_row now fragment (some row) people =
    update_row (of_email fragment.email) (renamed now fragment) people

-- One round of the loop over the fragment's platform ids: an id that is known stays whose it is.
unfoldable pub add_id :
    Text → Text → Text → Option PlatformIdRow → List PlatformIdRow → List PlatformIdRow
unfolding add_row
add_id email key pid none ids =
    add_row (record { platform_key = key; platform_id = pid; email = email }) ids
add_id email key pid (some dup) ids = ids

unfoldable pub merge_ids : Text → Dict Text → List PlatformIdRow → List PlatformIdRow
unfolding add_id find_row
merge_ids email [] ids = ids
merge_ids email ((key, pid) ∷ more) ids =
    merge_ids email more (add_id email key pid (find_row (of_platform_id key pid) ids) ids)

-- `merge_person`: the cache afterwards. What it returns is `person_by_email` of the fragment's
-- email in that cache, and the assertion that this is a person is the theorem
-- `merge_person-person`.
unfoldable pub merge_person : ℕ → ThaumPerson → Cache → Cache
unfolding merge_row merge_ids find_row
merge_person now fragment c = record c {
  people = merge_row now fragment (find_row (of_email fragment.email) c.people) c.people;
  platform_ids = merge_ids fragment.email fragment.platform_ids c.platform_ids;
}
