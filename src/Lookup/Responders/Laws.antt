-- ===== src/Lookup/Responders/Laws.antt =====
-- Laws of resolving responder references.
use thaum.Prelude.{
  ℕ, ◌≡◌, refl, sym, ap, ◌∙◌, inl, inr, true, false, ◌||◌, Option, none, some, List, [], ◌∷◌, ◌++◌,
  append-nil, append_assoc, arith, Bool-cases, drop,
}
use thaum.Text.{Text, codes, truthy, strip, lower, starts_with, has_char}
use thaum.Identity.{
  ThaumPerson, person_of_email, ThaumTeam, RespondersList, no_responders, responders, a_person,
  a_team, add_operand,
}
use thaum.Lookup.Cache.{Cache}
use thaum.Lookup.Responders.{
  has_prefix, add_found, add_team_name, add_person_ref, add_team_id_ref, add_person_id_ref, add_ref,
  resolve_from, resolve_responder_refs,
}
use thaum.Lookup.Teams.{get_team_by_name}

abbrev pub joined : RespondersList → RespondersList → RespondersList
joined r o = add_operand r (responders o)

lowered_team :
    (name : Text)
    → (has_prefix (codes "person:") (codes "team:" ++ name) ≡ false)
      × (has_prefix (codes "team:") (codes "team:" ++ name) ≡ true)
unfolding lower starts_with
lowered_team name = (refl, refl)

module _ (plugin : Text) (close : Text → List Text → Option Text) (normalize : Text → Text)
    (now : ℕ) (source_plugin : Text) (c : Cache) where
  abbrev ref_step : RespondersList → Text → RespondersList
  ref_step = add_ref plugin close normalize now source_plugin c

  abbrev resolving : RespondersList → List Text → RespondersList
  resolving = resolve_from plugin close normalize now source_plugin c

  add_found-joined :
      (out o : RespondersList) (t : Option ThaumTeam)
      → add_found plugin close normalize now source_plugin c (joined out o) t
        ≡ joined out (add_found plugin close normalize now source_plugin c o t)
  unfolding add_found
  add_found-joined out o none = refl
  add_found-joined out o (some t) = unfold add_operand in rw append_assoc

  add_person-joined :
      (out o : RespondersList) (p : ThaumPerson)
      → add_operand (joined out o) (a_person p) ≡ joined out (add_operand o (a_person p))
  add_person-joined out o p = unfold add_operand in rw append_assoc

  add_team-joined :
      (out o : RespondersList) (t : ThaumTeam)
      → add_operand (joined out o) (a_team t) ≡ joined out (add_operand o (a_team t))
  add_team-joined out o t = unfold add_operand in rw append_assoc

  add_team_name-joined :
      (out o : RespondersList) (name : Text)
      → add_team_name plugin close normalize now source_plugin c (joined out o) name
        ≡ joined out (add_team_name plugin close normalize now source_plugin c o name)
  unfolding add_team_name
  add_team_name-joined out o name =
      ground (arith, add_found-joined out o (get_team_by_name plugin close name c))

  add_person_ref-joined :
      (out o : RespondersList) (email : Text)
      → add_person_ref plugin close normalize now source_plugin c (joined out o) email
        ≡ joined out (add_person_ref plugin close normalize now source_plugin c o email)
  unfolding add_person_ref
  add_person_ref-joined out o email =
      ground (arith, add_person-joined out o (person_of_email email))

  add_team_id_ref-joined :
      (out o : RespondersList) (tid : Text)
      → add_team_id_ref plugin close normalize now source_plugin c (joined out o) tid
        ≡ joined out (add_team_id_ref plugin close normalize now source_plugin c o tid)
  unfolding add_team_id_ref
  add_team_id_ref-joined out o tid = elim (Bool-cases (truthy tid)) [
    | inl e ↦ rw e (add_team-joined out o _)
    | inr e ↦ rw e
  ]

  add_person_id_ref-joined :
      (out o : RespondersList) (pid : Text)
      → add_person_id_ref plugin close normalize now source_plugin c (joined out o) pid
        ≡ joined out (add_person_id_ref plugin close normalize now source_plugin c o pid)
  unfolding add_person_id_ref
  add_person_id_ref-joined out o pid = elim (Bool-cases (truthy pid)) [
    | inl e ↦ rw e (add_person-joined out o _)
    | inr e ↦ rw e
  ]

  -- What a reference adds does not depend on what stands before it.
  add_ref-joined :
      (out o : RespondersList) (raw : Text)
      → ref_step (joined out o) raw ≡ joined out (ref_step o raw)
  unfolding add_ref
  add_ref-joined out o raw =
      let ref = strip raw in
      ground (
        arith,
        add_person_ref-joined out o (strip (drop 7 ref)),
        add_team_name-joined out o (normalize (drop 5 ref)),
        add_team_id_ref-joined out o (strip (drop 8 ref)),
        add_person_id_ref-joined out o (strip (drop 10 ref)),
        add_person-joined out o (person_of_email ref),
        add_team_name-joined out o (normalize ref),
      )

  resolve_from-joined :
      (refs : List Text) (out o : RespondersList)
      → resolving (joined out o) refs ≡ joined out (resolving o refs)
  unfolding resolve_from
  resolve_from-joined [] out o = refl
  resolve_from-joined (raw ∷ refs) out o =
      rw (add_ref-joined out o raw) (resolve_from-joined refs out (ref_step o raw))

  resolve_from-append :
      (refs more : List Text) (out : RespondersList)
      → resolving out (refs ++ more) ≡ resolving (resolving out refs) more
  unfolding resolve_from
  resolve_from-append [] more out = refl
  resolve_from-append (raw ∷ refs) more out = resolve_from-append refs more (ref_step out raw)

  joined-nil : (r : RespondersList) → joined r no_responders ≡ r
  joined-nil r = unfold add_operand in rw (append-nil r.people, append-nil r.teams)

  -- References resolve one by one, in order: a list of references put behind another adds exactly
  -- what it resolves to by itself, people behind people and teams behind teams.
  pub resolve_responder_refs-append :
      (refs more : List Text)
      → resolve_responder_refs plugin close normalize now source_plugin c (refs ++ more)
        ≡ joined
            (resolve_responder_refs plugin close normalize now source_plugin c refs)
            (resolve_responder_refs plugin close normalize now source_plugin c more)
  resolve_responder_refs-append refs more =
      let first = resolving no_responders refs in
      (unfold resolve_responder_refs in
        (resolve_from-append refs more no_responders
          ∙ (ap (λ r. resolving r more) (sym (joined-nil first))
              ∙ resolve_from-joined more first no_responders)))

  -- A name with the prefix `team:` resolves as the bare name does, if the bare name is no reference
  -- of another kind.
  pub add_ref-team_prefix :
      (out : RespondersList) (name : Text)
      → strip name ≡ name
      → strip (codes "team:" ++ name) ≡ codes "team:" ++ name
      → truthy name ≡ true
      → (has_prefix (codes "person:") name
          || (has_prefix (codes "team:") name
              || (has_prefix (codes "id:team:") name || has_prefix (codes "id:person:") name)))
        ≡ false
      → has_char b'@' name ≡ false
      → ref_step out (codes "team:" ++ name) ≡ ref_step out name
  unfolding add_ref
  add_ref-team_prefix out name bare prefixed given plain no_at =
      let by_prefix = lowered_team name in
      rw (bare, prefixed) (rw (by_prefix.0, by_prefix.1) (ground arith))
