-- ===== src/Jira/Payload/Responders.antt =====
-- What the payload of responders holds.
use thaum.Prelude.{◌≡◌, refl, sym, ap, ◌∙◌, ◌⊎◌, inl, inr, Bool, true, false, not, ◌||◌, Option, none, some, List, [], ◌∷◌, ◌++◌, arith, if◌then◌else◌, Bool-cases, All}
use thaum.Text.{Text, codes, text_eq_iff, text_eq_refl, truthy, strip, strip_opt}
use thaum.Dict.{get}
use thaum.Jira.Payload.{Responder, team, user, same_responder, seen, add_new, team_id, add_teams, account_id, add_people, responders_list_to_jira_payload}
use thaum.Identity.{ThaumPerson, ThaumTeam, RespondersList, responders}

-- No entry stands twice.
abbrev pub HasNoRepeat : List Responder → Type 0
HasNoRepeat [] = Unit
HasNoRepeat (r ∷ rs) = (seen r rs ≡ false) × HasNoRepeat rs

same_responder_comm : (a b : Responder) → same_responder a b ≡ same_responder b a
unfolding same_responder
same_responder_comm (team a) (team b) = ground (arith, text_eq_iff a b, text_eq_iff b a)
same_responder_comm (user a) (user b) = ground (arith, text_eq_iff a b, text_eq_iff b a)
same_responder_comm (team a) (user b) = refl
same_responder_comm (user a) (team b) = refl

seen-append :
    (k : Responder) (xs ys : List Responder) → seen k (xs ++ ys) ≡ (seen k xs || seen k ys)
unfolding seen
seen-append k [] ys = refl
seen-append k (x ∷ xs) ys = ground (arith, seen-append k xs ys)

HasNoRepeat-append :
    (r : Responder) (xs : List Responder)
    → seen r xs ≡ false
    → HasNoRepeat xs
    → HasNoRepeat (xs ++ r ∷ [])
unfolding seen
HasNoRepeat-append r [] new h = (refl, tt)
HasNoRepeat-append r (x ∷ xs) new (first, h) = (
  seen-append x xs (r ∷ []) ∙ ground (arith, same_responder_comm x r),
  HasNoRepeat-append r xs (ground arith) h,
)

add_new-HasNoRepeat :
    (r : Responder) (xs : List Responder) → HasNoRepeat xs → HasNoRepeat (add_new r xs)
unfolding add_new
add_new-HasNoRepeat r xs h = ground (arith, HasNoRepeat-append r xs)

added-HasNoRepeat :
    (b : Bool) (r : Responder) (xs : List Responder)
    → HasNoRepeat xs
    → HasNoRepeat (if b then add_new r xs else xs)
added-HasNoRepeat true r xs h = add_new-HasNoRepeat r xs h
added-HasNoRepeat false r xs h = h

add_teams-HasNoRepeat :
    (ts : List ThaumTeam) (xs : List Responder) → HasNoRepeat xs → HasNoRepeat (add_teams ts xs)
unfolding add_teams
add_teams-HasNoRepeat [] xs h = h
add_teams-HasNoRepeat (t ∷ ts) xs h =
    add_teams-HasNoRepeat ts _ (added-HasNoRepeat (truthy (team_id t)) (team (team_id t)) xs h)

module _ (resolve : Text → Option Text) where
  add_people-HasNoRepeat :
      (ps : List ThaumPerson) (xs : List Responder)
      → HasNoRepeat xs
      → HasNoRepeat (add_people resolve ps xs)
  unfolding add_people
  add_people-HasNoRepeat [] xs h = h
  add_people-HasNoRepeat (p ∷ ps) xs h =
      add_people-HasNoRepeat ps _
        (added-HasNoRepeat (truthy (account_id resolve p)) (user (account_id resolve p)) xs h)

  -- A responder that two references resolve to is paged once: no entry of the payload repeats.
  pub responders_list_to_jira_payload-HasNoRepeat :
      (r : RespondersList) → HasNoRepeat (responders_list_to_jira_payload resolve r)
  unfolding responders_list_to_jira_payload
  responders_list_to_jira_payload-HasNoRepeat r =
      add_people-HasNoRepeat r.people _ (add_teams-HasNoRepeat r.teams [] tt)

seen-add_new :
    (k r : Responder) (xs : List Responder) → seen k xs ≡ true → seen k (add_new r xs) ≡ true
unfolding add_new
seen-add_new k r xs h = ground (arith, seen-append k xs (r ∷ []))

same_responder_refl : (r : Responder) → same_responder r r ≡ true
unfolding same_responder
same_responder_refl (team a) = text_eq_refl a
same_responder_refl (user a) = text_eq_refl a

seen-add_new_self : (r : Responder) (xs : List Responder) → seen r (add_new r xs) ≡ true
unfolding add_new seen
seen-add_new_self r xs = ground (arith, seen-append r xs (r ∷ []), same_responder_refl r)

seen-added :
    (k r : Responder) (b : Bool) (xs : List Responder)
    → seen k xs ≡ true
    → seen k (if b then add_new r xs else xs) ≡ true
seen-added k r true xs h = seen-add_new k r xs h
seen-added k r false xs h = h

seen-add_teams :
    (k : Responder) (ts : List ThaumTeam) (xs : List Responder)
    → seen k xs ≡ true
    → seen k (add_teams ts xs) ≡ true
unfolding add_teams
seen-add_teams k [] xs h = h
seen-add_teams k (t ∷ ts) xs h =
    seen-add_teams k ts _ (seen-added k (team (team_id t)) (truthy (team_id t)) xs h)

-- The id of a team: its alert id, or without one its lookup id, stripped.
pub data HasTeamId (t : ThaumTeam) : Text → Type 0 where
  by_alert : {a : Text} → t.alert_id ≡ some a → truthy a ≡ true → HasTeamId t (strip a)
  by_lookup :
      {l : Text} → (t.alert_id ≡ none) ⊎ (t.alert_id ≡ some []) → t.lookup_id ≡ some l → HasTeamId t (strip l)

team_id_of : (t : ThaumTeam) {id : Text} → HasTeamId t id → team_id t ≡ id
unfolding team_id strip_opt
team_id_of t (by_alert {a} given there) = rw given (rw there refl)
team_id_of t (by_lookup (inl missing) given) = rw missing (rw given refl)
team_id_of t (by_lookup (inr blank) given) = rw blank (rw given refl)

-- The entry stands in the payload.
abbrev pub IsIn : Responder → List Responder → Type 0
IsIn k [] = ⊥
IsIn k (r ∷ rs) = (r ≡ k) ⊎ IsIn k rs

same_responder_sound : (a b : Responder) → same_responder a b ≡ true → a ≡ b
unfolding same_responder
same_responder_sound (team a) (team b) h = ap team ((text_eq_iff a b).0 h)
same_responder_sound (user a) (user b) h = ap user ((text_eq_iff a b).0 h)
same_responder_sound (team a) (user b) h = absurd cc
same_responder_sound (user a) (team b) h = absurd cc

seen-IsIn : (k : Responder) (rs : List Responder) → seen k rs ≡ true → IsIn k rs
unfolding seen
seen-IsIn k [] h = cc
seen-IsIn k (r ∷ rs) h = elim (Bool-cases (same_responder r k)) [
    inl same ↦ inl (same_responder_sound r k same)
  | inr apart ↦ inr (seen-IsIn k rs (rw apart at h))
]

-- A team that has an id is in under it.
abbrev pub TeamIn : List Responder → ThaumTeam → Type 0
TeamIn payload t = (id : Text) → HasTeamId t id → truthy id ≡ true → IsIn (team id) payload

abbrev TeamSeen : List Responder → ThaumTeam → Type 0
TeamSeen payload t = truthy (team_id t) ≡ true → seen (team (team_id t)) payload ≡ true

TeamSeen-TeamIn : (payload : List Responder) (t : ThaumTeam) → TeamSeen payload t → TeamIn payload t
TeamSeen-TeamIn payload t h id has there =
    let same = team_id_of t has in
    seen-IsIn (team id) payload
      (ap (λ i. seen (team i) payload) (sym same) ∙ h (ap truthy same ∙ there))

teams_in : (payload : List Responder) (ts : List ThaumTeam) → All (TeamSeen payload) ts → All (TeamIn payload) ts
teams_in payload [] h = tt
teams_in payload (t ∷ ts) (first, h) = (TeamSeen-TeamIn payload t first, teams_in payload ts h)

add_teams_complete : (ts : List ThaumTeam) (xs : List Responder) → All (TeamSeen (add_teams ts xs)) ts
unfolding add_teams
add_teams_complete [] xs = tt
add_teams_complete (t ∷ ts) xs = (
  (λ has.
      seen-add_teams (team (team_id t)) ts _ (rw has (seen-add_new_self (team (team_id t)) xs))),
  add_teams_complete ts _,
)

module _ (resolve : Text → Option Text) where
  seen-add_people :
      (k : Responder) (ps : List ThaumPerson) (xs : List Responder)
      → seen k xs ≡ true
      → seen k (add_people resolve ps xs) ≡ true
  unfolding add_people
  seen-add_people k [] xs h = h
  seen-add_people k (p ∷ ps) xs h =
      seen-add_people k ps _
        (seen-added k (user (account_id resolve p)) (truthy (account_id resolve p)) xs h)

  -- The account of a person: the stripped Jira id that the person has, or else the one that the email
  -- resolves to.
  pub data HasAccount (p : ThaumPerson) : Text → Type 0 where
    by_own :
        {a : Text} → get (codes "jira") p.platform_ids ≡ some a → truthy (strip a) ≡ true → HasAccount p (strip a)
    by_email :
        {a : Text}
        → (get (codes "jira") p.platform_ids ≡ none)
          ⊎ ((own : Text) × (get (codes "jira") p.platform_ids ≡ some own) × (strip own ≡ []))
        → resolve p.email ≡ some a
        → HasAccount p a

  account_id_of : (p : ThaumPerson) {account : Text} → HasAccount p account → account_id resolve p ≡ account
  unfolding account_id strip_opt
  account_id_of p (by_own own there) = rw own (rw there refl)
  account_id_of p (by_email (inl missing) found) = rw missing (rw found refl)
  account_id_of p (by_email (inr (own, given, blank)) found) = rw given (rw blank (rw found refl))

  -- A person with an account is in under it.
  abbrev pub PersonIn : List Responder → ThaumPerson → Type 0
  PersonIn payload p = (account : Text) → HasAccount p account → truthy account ≡ true → IsIn (user account) payload

  abbrev PersonSeen : List Responder → ThaumPerson → Type 0
  PersonSeen payload p =
      truthy (account_id resolve p) ≡ true → seen (user (account_id resolve p)) payload ≡ true

  people_in : (payload : List Responder) (ps : List ThaumPerson) → All (PersonSeen payload) ps → All (PersonIn payload) ps
  people_in payload [] h = tt
  people_in payload (p ∷ ps) (first, h) =
      ((λ account has there.
          let same = account_id_of p has in
          seen-IsIn (user account) payload
            (ap (λ i. seen (user i) payload) (sym same) ∙ first (ap truthy same ∙ there))),
        people_in payload ps h)

  add_people_complete :
      (ps : List ThaumPerson) (xs : List Responder) → All (PersonSeen (add_people resolve ps xs)) ps
  unfolding add_people
  add_people_complete [] xs = tt
  add_people_complete (p ∷ ps) xs = (
    (λ has.
        seen-add_people (user (account_id resolve p)) ps _
          (rw has (seen-add_new_self (user (account_id resolve p)) xs))),
    add_people_complete ps _,
  )

  teams_stay :
      (ts : List ThaumTeam) (ps : List ThaumPerson) (xs : List Responder)
      → All (TeamSeen xs) ts
      → All (TeamSeen (add_people resolve ps xs)) ts
  teams_stay [] ps xs h = tt
  teams_stay (t ∷ ts) ps xs (first, h) =
      ((λ has. seen-add_people (team (team_id t)) ps xs (first has)), teams_stay ts ps xs h)

  -- Nobody is left out: each team has an entry under its alert id, or without one under its lookup id,
  -- and each person under the Jira account that is stored, or without one under that which the email
  -- resolves to, if the id is not empty (an alert, lookup or stored id is stripped).
  pub responders_list_to_jira_payload_complete :
      (r : RespondersList)
      → All (TeamIn (responders_list_to_jira_payload resolve r)) r.teams
        × All (PersonIn (responders_list_to_jira_payload resolve r)) r.people
  unfolding responders_list_to_jira_payload
  responders_list_to_jira_payload_complete r =
      let payload = add_people resolve r.people (add_teams r.teams []) in
      (teams_in payload r.teams
          (teams_stay r.teams r.people (add_teams r.teams []) (add_teams_complete r.teams [])),
        people_in payload r.people (add_people_complete r.people (add_teams r.teams [])))
