-- ===== src/Identity/Members.antt =====
-- The membership snapshot of a team, and the responders that a list yields.
use thaum.Prelude.{
  ℕ, ◌-◌, ◌≤◌, ◌<◌, ◌≡◌, refl, sym, inl, inr, false, Option, none, some, List, [], ◌∷◌, ◌++◌,
  append_assoc, arith, if◌then◌else◌, Bool-cases,
}
use thaum.Identity.{
  ThaumPerson, ThaumTeam, is_fresh, Refresh, fetched, failed, get_members, RespondersList,
  responders, add_operand, team_members, get_responders,
}

-- A stale team whose source answers returns exactly the answer, and for as long as the time to
-- live runs from the moment of storing, the next call returns the same members and leaves the team
-- alone, whatever the source would say.
pub get_members_snapshot :
    (first second : ThaumTeam → Refresh) (checked stored again : ℕ) (t left : ThaumTeam)
    (new : List ThaumPerson)
    → is_fresh checked t ≡ false
    → first t ≡ fetched left new
    → stored ≤ again
    → again - stored < left.ttl
    → let kept = (get_members (some first) checked stored t).0 in
      ((get_members (some first) checked stored t).1 ≡ new)
      × (get_members (some second) again again kept ≡ (kept, new))
get_members_snapshot first second checked stored again t left new stale e le near =
    unfold get_members in rw (stale) (ground arith)

-- A team is asked for again only when its snapshot is stale: without a lookup plugin, or with a
-- fresh snapshot, nothing changes and the stored members are returned; when the source fails, the
-- team and the members are those that the failed call left.
pub get_members_unrefreshed :
    (lookup : ThaumTeam → Refresh) (checked stored : ℕ) (t left : ThaumTeam)
    → lookup t ≡ failed left
    → (get_members none checked stored t ≡ (t, t.members))
      × (get_members (some lookup) checked stored t
          ≡ (if is_fresh checked t then (t, t.members) else (left, left.members)))
get_members_unrefreshed lookup checked stored t left e = (
  unfold get_members in refl,
  elim (Bool-cases (is_fresh checked t)) [
    | inl h ↦ rw h (unfold get_members in rw h)
    | inr h ↦ rw h (unfold get_members in rw (h, e))
  ],
)

-- The members found for a row of teams, one team after the other.
abbrev found : Option (ThaumTeam → Refresh) → ℕ → List ThaumTeam → List ThaumPerson
found lookup now ts = (team_members lookup now ts).1

found-append :
    (lookup : Option (ThaumTeam → Refresh)) (now : ℕ) (ts us : List ThaumTeam)
    → found lookup now (ts ++ us) ≡ found lookup now ts ++ found lookup now us
unfolding team_members
found-append lookup now [] us = refl
found-append lookup now (t ∷ ts) us = rw (found-append lookup now ts us) (
    sym (append_assoc (get_members lookup now now t).1 (found lookup now ts) (found lookup now us)))

-- The responders of a sum are the people of both sides, then the members of the left side's teams,
-- then those of the right side's, at one clock.
pub get_responders-add :
    (lookup : Option (ThaumTeam → Refresh)) (now : ℕ) (r o : RespondersList)
    → (get_responders lookup now (add_operand r (responders o))).1
      ≡ r.people
        ++ (o.people
            ++ ((get_responders lookup now (record { people = []; teams = r.teams })).1
                ++ (get_responders lookup now (record { people = []; teams = o.teams })).1))
get_responders-add lookup now r o =
    unfold get_responders add_operand in
    rw (found-append lookup now r.teams o.teams) (append_assoc r.people o.people _)
