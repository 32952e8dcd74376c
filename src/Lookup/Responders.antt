-- ===== src/Lookup/Responders.antt =====
-- `resolve_responder_refs`: from the references of the configuration to people and teams.
--
-- The prefixes hold none of the letters to which a non-ASCII letter is lowered, except for the
-- dotted capital I, which becomes two characters and so matches no prefix: `lower` is exact here.
pub mod Laws
mod Tests
use thaum.Prelude.{ℕ, Bool, not, Option, none, some, List, [], ◌∷◌, ◌++◌, if◌then◌else◌, drop}
use thaum.Text.{Text, codes, truthy, strip, lower, starts_with, has_char}
use thaum.Identity.{
  person_of_email, ThaumTeam, default_ttl, RespondersList, no_responders, a_person, a_team,
  add_operand,
}
use thaum.Lookup.Cache.{Cache}
use thaum.Lookup.Teams.{get_team_by_name, get_team_by_id}

-- `ref.lower().startswith(prefix)`.
abbrev pub has_prefix : Text → Text → Bool
has_prefix prefix ref = starts_with (lower ref) prefix

module _ (plugin : Text) (close : Text → List Text → Option Text) (normalize : Text → Text)
    (now : ℕ) (source_plugin : Text) (c : Cache) where
  add_found : RespondersList → Option ThaumTeam → RespondersList
  unfolding add_operand
  add_found out none = out
  add_found out (some t) = add_operand out (a_team t)

  -- A reference by a team's name, from `team:` or bare.
  add_team_name : RespondersList → Text → RespondersList
  add_team_name out name =
      if truthy name then add_found out (get_team_by_name plugin close name c) else out

  add_person_ref : RespondersList → Text → RespondersList
  add_person_ref out email =
      if truthy email then add_operand out (a_person (person_of_email email)) else out

  team_by_id : Text → Option ThaumTeam → ThaumTeam
  team_by_id tid (some t) = record t { alert_id = some tid }
  team_by_id tid none = record {
    team_name = tid;
    lookup_id = some tid;
    alert_id = some tid;
    members = [];
    last_cached = now;
    ttl = default_ttl;
  }

  add_team_id_ref : RespondersList → Text → RespondersList
  add_team_id_ref out tid =
      if truthy tid
      then add_operand out
          (a_team (team_by_id tid (get_team_by_id plugin close (codes "jira") tid c)))
      else out

  add_person_id_ref : RespondersList → Text → RespondersList
  add_person_id_ref out pid =
      if truthy pid
      then add_operand out (
          a_person (record {
            email = codes "jira-account-id:" ++ pid;
            display_name = none;
            platform_ids = (codes "jira", pid) ∷ [];
            source_plugin = source_plugin;
          }))
      else out

  -- One round of the loop.
  pub add_ref : RespondersList → Text → RespondersList
  add_ref out raw =
      let ref = strip raw in
      if not (truthy ref)
      then out
      else if has_prefix (codes "person:") ref
      then add_person_ref out (strip (drop 7 ref))
      else if has_prefix (codes "team:") ref
      then add_team_name out (normalize (drop 5 ref))
      else if has_prefix (codes "id:team:") ref
      then add_team_id_ref out (strip (drop 8 ref))
      else if has_prefix (codes "id:person:") ref
      then add_person_id_ref out (strip (drop 10 ref))
      else if has_char b'@' ref
      then add_operand out (a_person (person_of_email ref))
      else add_team_name out (normalize ref)

  pub resolve_from : RespondersList → List Text → RespondersList
  unfolding add_ref
  resolve_from out [] = out
  resolve_from out (raw ∷ refs) = resolve_from (add_ref out raw) refs

  unfoldable pub resolve_responder_refs : List Text → RespondersList
  unfolding resolve_from add_ref strip add_person_ref add_team_name add_team_id_ref
      add_person_id_ref add_operand add_found team_by_id
  resolve_responder_refs refs = resolve_from no_responders refs
