-- ===== src/Bearer/Validate/Laws.antt =====
-- alerts/webhook_bearer.py: which tokens are accepted, and which are warned of.
use thaum.Prelude.{
  ℕ, ◌+◌, ◌*◌, ◌≤◌, ◌≡◌, refl, sym, ap, ◌∙◌, subst, ◌↔◌, inl, inr, true, false, ◌&&◌, Option, none,
  some, List, [], ◌∷◌, arith, ltb, leb, Bool-cases,
}
use thaum.Text.{Text, text_eq, text_eq_iff, truthy}
use thaum.Bearer.Throttle.{WebhookBearerWarnState, day}
use thaum.Bearer.Validate.{
  BearerPayload, Moment, seconds, maybe_log_rotation_warning, check_expiry, compare_canonical,
  parsed, validate_webhook_bearer,
}

-- The token has no expiry, or the clock is not past it.
abbrev pub IsUnexpired : BearerPayload → Moment → Type 0
IsUnexpired p m = elim p.exp [ none ↦ Unit | some exp ↦ m.expiry_checked_at ≤ exp * seconds ]

module _ (parse_payload : Text → Option BearerPayload) (expected_canonical : Text → Option Text)
    (sha256_hex : Text → Text) where
  -- The header holds this token, and the token is the configured one.
  abbrev pub IsConfigured : Option Text → Text → BearerPayload → Type 0
  IsConfigured header secret p =
      (h : Text) × (header ≡ some h)
      × (truthy h ≡ true)
      × (parse_payload h ≡ some p)
      × (expected_canonical secret ≡ some p.canonical)

  check_expiry-rejected :
      (p : BearerPayload) (exp : Option ℕ) (bot_key : Option Text) (m : Moment)
      (t : List WebhookBearerWarnState)
      → p.exp ≡ exp
      → ((check_expiry parse_payload expected_canonical sha256_hex p exp bot_key m t).accepted
          ≡ true)
        ↔ IsUnexpired p m
  unfolding check_expiry maybe_log_rotation_warning
  check_expiry-rejected p none bot_key m t h = rw h (λ _. tt, λ _. refl)
  check_expiry-rejected p (some exp) bot_key m t h =
      elim (Bool-cases (ltb (exp * seconds) m.expiry_checked_at)) [
        | inl late ↦ rw (h, late) (λ e. absurd (unequal e), λ e. absurd (ground (arith, late, e)))
        | inr early ↦
            elim (Bool-cases
              (ltb 0 p.warn && leb (exp * seconds) (m.window_checked_at + p.warn * day))) [
                | inl near ↦ rw (h, early, near) (λ _. ground (arith, early), λ _. refl)
                | inr far ↦ rw (h, early, far) (λ _. ground (arith, early), λ _. refl)
              ]
      ]
    where
      unequal : false ≡ true → ⊥
      unequal e = cc

  parsed-some :
      (header : Option Text) (p : BearerPayload)
      → (parsed parse_payload expected_canonical sha256_hex header ≡ some p)
        ↔ ((h : Text) × (header ≡ some h) × (truthy h ≡ true) × (parse_payload h ≡ some p))
  unfolding parsed
  parsed-some none p = (λ e. absurd (never e), λ (h, e, _, _). absurd (never' h e))
    where
      never : none ≡ some p → ⊥
      never e = cc

      never' : (h : Text) → none ≡ some h → ⊥
      never' h e = cc
  parsed-some (some []) p = (λ e. absurd (never e), λ (h, e, tr, _). absurd (empty h e tr))
    where
      never : none ≡ some p → ⊥
      never e = cc

      empty : (h : Text) → some [] ≡ some h → truthy h ≡ true → ⊥
      empty h e tr = ground (arith, e, tr)
  parsed-some (some (c ∷ s)) p =
      (λ e. (c ∷ s, refl, refl, e), λ (h, e, _, parses). ap parse_payload (inj h e) ∙ parses)
    where
      inj : (h : Text) → some (c ∷ s) ≡ some h → c ∷ s ≡ h
      inj h e = cc

  compare_canonical_iff :
      (o : Option BearerPayload) (expected : Option Text) (bot_key : Option Text) (m : Moment)
      (t : List WebhookBearerWarnState)
      → ((compare_canonical parse_payload expected_canonical sha256_hex o expected bot_key m
            t).accepted
          ≡ true)
        ↔ ((p : BearerPayload) × (o ≡ some p) × (expected ≡ some p.canonical) × IsUnexpired p m)
  unfolding compare_canonical
  compare_canonical_iff none expected bot_key m t =
      (λ e. absurd (f e), λ (p, e, _, _). absurd (g p e))
    where
      f : false ≡ true → ⊥
      f e = cc

      g : (p : BearerPayload) → none ≡ some p → ⊥
      g p e = cc
  compare_canonical_iff (some p) none bot_key m t =
      (λ e. absurd (f e), λ (q, _, e, _). absurd (g q e))
    where
      f : false ≡ true → ⊥
      f e = cc

      g : (q : BearerPayload) → none ≡ some q.canonical → ⊥
      g q e = cc
  compare_canonical_iff (some p) (some expected) bot_key m t =
      elim (Bool-cases (text_eq p.canonical expected)) [
        | inl same ↦ rw same (
          λ e. (
            p,
            refl,
            ap some (sym ((text_eq_iff p.canonical expected).0 same)),
            (check_expiry-rejected p p.exp bot_key m t refl).0 e,
          ),
          λ (q, e, _, fresh).
              (check_expiry-rejected p p.exp bot_key m t refl).1
                (subst (λ x. IsUnexpired x m) (sym (inj q e)) fresh),
        )
        | inr apart ↦ rw apart (λ e. absurd (f e), λ (q, e, same, _). absurd (other q e same apart))
      ]
    where
      f : false ≡ true → ⊥
      f e = cc

      inj : (q : BearerPayload) → some p ≡ some q → p ≡ q
      inj q e = cc

      canonical_inj :
          (q : BearerPayload) → some expected ≡ some q.canonical → expected ≡ q.canonical
      canonical_inj q e = cc

      other :
          (q : BearerPayload)
          → some p ≡ some q
          → some expected ≡ some q.canonical
          → text_eq p.canonical expected ≡ false
          → ⊥
      other q e same apart = f (
          sym apart
          ∙ (text_eq_iff p.canonical expected).1
              (ap (λ x. x.canonical) (inj q e) ∙ sym (canonical_inj q same)))

  -- A request is accepted exactly when it has a header, the header's payload parses, the token's
  -- canonical bytes are those of the configured secret, and the token has no expiry or has not
  -- passed it. The window before the expiry, the throttle's table and a database that fails have no
  -- influence on it.
  pub validate_webhook_bearer_iff :
      (header : Option Text) (secret : Text) (bot_key : Option Text) (m : Moment)
      (t : List WebhookBearerWarnState)
      → ((validate_webhook_bearer parse_payload expected_canonical sha256_hex header secret bot_key
            m t).accepted
          ≡ true)
        ↔ ((p : BearerPayload) × IsConfigured header secret p × IsUnexpired p m)
  unfolding validate_webhook_bearer
  validate_webhook_bearer_iff header secret bot_key m t =
      let all_cases =
        compare_canonical_iff (parsed parse_payload expected_canonical sha256_hex header)
          (expected_canonical secret) bot_key m t in
      (
        λ e.
            let (p, is_parsed, same, fresh) = all_cases.0 e in
            let (h, given, tr, parses) = (parsed-some header p).0 is_parsed in
            (p, (h, given, tr, parses, same), fresh),
        λ (p, (h, given, tr, parses, same), fresh).
            all_cases.1 (p, (parsed-some header p).1 (h, given, tr, parses), same, fresh),
      )
