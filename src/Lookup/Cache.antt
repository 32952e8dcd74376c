-- ===== src/Lookup/Cache.antt =====
-- The tables of lookup/models.py.
use thaum.Prelude.{ℕ, Bool, ◌&&◌, Option, List, []}
use thaum.Text.{Text, text_eq}

pub record PersonRow : Type 0 where
  pub email : Text
  pub display_name : Option Text
  pub source_plugin : Option Text
  pub name_last_updated : ℕ

pub record PlatformIdRow : Type 0 where
  pub platform_key : Text
  pub platform_id : Text
  pub email : Text

pub record TeamRow : Type 0 where
  pub team_name : Text
  pub last_cached : ℕ
  pub ttl : ℕ

pub record TeamMemberRow : Type 0 where
  pub team_name : Text
  pub email : Text

pub record TeamPlatformIdRow : Type 0 where
  pub platform_key : Text
  pub platform_id : Text
  pub team_name : Text

pub record Cache : Type 0 where
  pub people : List PersonRow
  pub platform_ids : List PlatformIdRow
  pub teams : List TeamRow
  pub team_members : List TeamMemberRow
  pub team_platform_ids : List TeamPlatformIdRow

abbrev pub empty_cache : Cache
empty_cache = record {
  people = [];
  platform_ids = [];
  teams = [];
  team_members = [];
  team_platform_ids = [];
}

abbrev pub of_email : Text → PersonRow → Bool
of_email e r = text_eq r.email e

abbrev pub of_platform_id : Text → Text → PlatformIdRow → Bool
of_platform_id key pid r = text_eq r.platform_key key && text_eq r.platform_id pid

abbrev pub id_of_email : Text → PlatformIdRow → Bool
id_of_email e r = text_eq r.email e

abbrev pub of_team : Text → TeamRow → Bool
of_team n r = text_eq r.team_name n

abbrev pub member_of : Text → TeamMemberRow → Bool
member_of n r = text_eq r.team_name n

abbrev pub id_of_team : Text → TeamPlatformIdRow → Bool
id_of_team n r = text_eq r.team_name n

abbrev pub of_team_platform_id : Text → Text → TeamPlatformIdRow → Bool
of_team_platform_id key pid r = text_eq r.platform_key key && text_eq r.platform_id pid
