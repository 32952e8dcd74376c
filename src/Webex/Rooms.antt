-- ===== src/Webex/Rooms.antt =====
-- bots/plugins/webex_bot.py: people and rooms at Webex.
--
-- The answers of the API are arguments, `none` or false where a call raises. The lookup plugin is that
-- of Lookup, over its tables.
pub mod Known
use thaum.Prelude.{
  ℕ, Bool, true, false, not, Option, none, some, List, [], ◌∷◌, ◌++◌, if◌then◌else◌,
}
use thaum.Text.{Text, codes, text_eq, truthy, or_else, strip, strip_opt}
use thaum.Dict.{get}
use thaum.Identity.{ThaumPerson}
use thaum.Lookup.Cache.{Cache}
use thaum.Lookup.People.{person_by_email, get_person_by_id, merge_person}

abbrev pub webex : Text
webex = codes "webex"

pub record ApiPerson : Type 0 where
  pub emails : List Text
  pub display_name : Option Text

abbrev pub fallback_email : Text → Text
fallback_email person_id = person_id ++ codes "@" ++ webex

abbrev pub first_email : List Text → Text
first_email [] = []
first_email (email ∷ emails) = email

unfoldable pub person_from_api : Text → Option ApiPerson → ThaumPerson
person_from_api person_id none = record {
  email = fallback_email person_id;
  display_name = some [];
  platform_ids = (webex, person_id) ∷ [];
  source_plugin = webex;
}
person_from_api person_id (some person) = record {
  email = or_else (first_email person.emails) (fallback_email person_id);
  display_name = person.display_name;
  platform_ids = (webex, person_id) ∷ [];
  source_plugin = webex;
}

merged_person : Text → ℕ → ThaumPerson → Cache → Option ThaumPerson × Cache
unfolding merge_person person_by_email
merged_person plugin now fragment c =
    let c' = merge_person now fragment c in (person_by_email plugin fragment.email c', c')

known_or_merged :
    Text → ℕ → Text → Option ApiPerson → Cache → Option ThaumPerson → Option ThaumPerson × Cache
unfolding merged_person person_from_api
known_or_merged plugin now person_id answer c (some person) = (some person, c)
known_or_merged plugin now person_id answer c none =
    merged_person plugin now (person_from_api person_id answer) c

-- With a lookup plugin of the name `plugin`; its assertion that the merged person is there is `none`.
unfoldable pub get_person : Text → ℕ → Text → Option ApiPerson → Cache → Option ThaumPerson × Cache
unfolding known_or_merged get_person_by_id
get_person plugin now person_id answer c =
    known_or_merged plugin now person_id answer c (get_person_by_id plugin webex person_id c)

-- How a member is added: by the id at Webex or by the email.
pub data Membership : Type 0 where
  by_id by_email : Text → Membership

unfoldable pub membership_of : ThaumPerson → Membership
unfolding get
membership_of person = elim (get webex person.platform_ids) [
  | none ↦ by_email person.email
  | some pid ↦ if truthy pid then by_id pid else by_email person.email
]

-- A member who cannot be added is logged, and the next one is added.
unfoldable pub add_members : (Membership → Bool) → List ThaumPerson → List Membership
unfolding membership_of
add_members creates [] = []
add_members creates (m ∷ members) =
    let rest = add_members creates members in
    if creates (membership_of m) then membership_of m ∷ rest else rest

pub record Room : Type 0 where
  pub title : Option Text
  pub creator_id : Text

unfoldable pub room_title : Text → Option Room → Text
unfolding strip_opt
room_title room_id none = room_id
room_title room_id (some room) = or_else (strip_opt room.title) room_id

-- What is said, whether the room is gone, and whether an exception leaves the call.
pub record Deletion : Type 0 where
  pub said : List Text
  pub deleted : Bool
  pub raised : Bool

critical : (Text → Bool) → Deletion
critical says =
    let text = codes "Critical failure during room deletion." in
    if says text
    then record { said = text ∷ []; deleted = false; raised = false }
    else record { said = []; deleted = false; raised = true }

unfoldable pub deny : (Text → Bool) → Text → Deletion
unfolding critical
deny says text =
    if says text
    then record { said = text ∷ []; deleted = false; raised = false }
    else critical says

unfoldable pub delete_room : (Text → Bool) → Bool → Text → Text → Option Room → Deletion
unfolding critical deny text_eq
delete_room says deletes me_id handle none = critical says
delete_room says deletes me_id handle (some room) =
    if text_eq room.creator_id me_id
    then (if deletes then record { said = []; deleted = true; raised = false } else critical says)
    else deny says (
        codes "Access Denied: "
        ++ handle
        ++ codes " did not create room '"
        ++ elim room.title [ none ↦ codes "None" | some title ↦ title ]
        ++ codes "'")

pub data Mentioned : Type 0 where
  nobody : Mentioned
  person : ThaumPerson → Mentioned
  native_id : Text → Mentioned

abbrev pub id_or_blank : Option Text → Text
id_or_blank none = []
id_or_blank (some pid) = pid

-- The id of the person that the lookup finds by the email, if any.
resolved_id : Option ThaumPerson → Text
unfolding get
resolved_id none = []
resolved_id (some resolved) = id_or_blank (get webex resolved.platform_ids)

mention_of_id : Text → Text → Text
mention_of_id [] otherwise = otherwise
mention_of_id (c ∷ pid) otherwise = codes "<@personId:" ++ c ∷ pid ++ codes ">"

-- `found` is what the lookup by the email gives.
unfoldable pub format_mention : (ThaumPerson → Option ThaumPerson) → Mentioned → Text
unfolding resolved_id mention_of_id strip strip_opt get
format_mention found nobody = []
format_mention found (person p) =
    mention_of_id (or_else (id_or_blank (get webex p.platform_ids)) (resolved_id (found p)))
      (or_else (strip_opt p.display_name) p.email)
format_mention found (native_id s) = mention_of_id (strip s) []
