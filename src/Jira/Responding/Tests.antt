-- ===== src/Jira/Responding/Tests.antt =====
-- Tests of the responders of an alert.
use thaum.Prelude.{◌≡◌, refl, none, [], ◌∷◌}
use thaum.Text.{codes, is_space, lstrip, rstrip, strip, lower_char, lower, starts_with, has_char}
use thaum.Identity.{person_of_email, no_responders}
use thaum.Jira.Responding.{
  person_of_ref, people_of_refs, resolve_config_responders, resolve_alert_responders,
}

without_lookup :
    resolve_alert_responders none
      (codes "person: a@x" ∷ codes "team:dba" ∷ codes " b@x " ∷ codes "ops" ∷ [])
      no_responders
    ≡ record {
      people = person_of_email (codes "a@x") ∷ person_of_email (codes "b@x") ∷ [];
      teams = [];
    }
unfolding resolve_alert_responders resolve_config_responders people_of_refs person_of_ref
    starts_with has_char lower lower_char strip lstrip rstrip is_space
without_lookup = refl
