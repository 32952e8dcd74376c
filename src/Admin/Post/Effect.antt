-- ===== src/Admin/Post/Effect.antt =====
-- thaum/admin_log_level.py: what a request for a log level does.
use thaum.Prelude.{
  ℕ, ◌/◌, ◌≡◌, refl, sym, ap, ◌∙◌, ◌≢◌, ◌⊎◌, inl, inr, true, Option, none, some, Bool-cases,
  Option-cases,
}
use thaum.Text.{Text, truthy, strip, lower}
use thaum.Admin.Post.{
  Response, ok, unauthorized, bad_request, not_found, AdminConfig, Request, Moment, Server,
  build_canonical_message, has_nonce, live_nonces, db_level, apply_level, store, within_skew,
  level_of_body, headers_ok, admin_hmac_secret_bytes, verify_signature, signed_request,
  timed_request, keyed_request, admin_request, handle_admin_log_level_post,
}

module _ (urlsafe_b64decode : Text → Option Text) (hmac_sha256 : Text → Text → Text)
    (parse_iso_utc : Text → Option ℕ) where
  -- The request has passed every guard, and the handler is at the transaction.
  pub record Passes (env : Text) (cfg : AdminConfig) (r : Request) (m : Moment) : Type 0 where
    pub key : Text
    pub epoch : ℕ
    pub norm : Text
    pub has_key :
        admin_hmac_secret_bytes urlsafe_b64decode hmac_sha256 parse_iso_utc env cfg ≡ some key
    pub has_route : truthy (strip cfg.route_id) ≡ true
    pub has_headers : headers_ok r.timestamp (lower (strip r.nonce)) (strip r.signature) ≡ true
    pub has_time : parse_iso_utc r.timestamp ≡ some epoch
    pub in_time : within_skew cfg.clock_skew_seconds (m.checked_at / 1000000) epoch ≡ true
    pub has_level : level_of_body r.body ≡ some norm
    pub is_signed :
        verify_signature urlsafe_b64decode hmac_sha256 parse_iso_utc key
          (build_canonical_message (strip cfg.route_id) epoch (lower (strip r.nonce)) norm)
          (strip r.signature)
        ≡ true

  -- The answer is a refusal, and the server is the same.
  abbrev pub IsUntouched : Server → Response × Server → Type 0
  IsUntouched s result = (result.0 ≢ ok) × (result.1 ≡ s)

  abbrev pub handle : Text → AdminConfig → Request → Moment → Server → Response × Server
  handle env cfg r m s =
      handle_admin_log_level_post urlsafe_b64decode hmac_sha256 parse_iso_utc env cfg r m s

  unauthorized-refused : (unauthorized ≡ ok) → ⊥
  unauthorized-refused e = cc

  not_found-refused : (not_found ≡ ok) → ⊥
  not_found-refused e = cc

  bad_request-refused : (bad_request ≡ ok) → ⊥
  bad_request-refused e = cc

  pub handle-passed :
      (env : Text) (cfg : AdminConfig) (r : Request) (m : Moment) (s : Server)
      → Passes env cfg r m
      → (norm : Text) × (level_of_body r.body ≡ some norm)
        × (handle env cfg r m s ≡ store cfg.clock_skew_seconds (lower (strip r.nonce)) norm m s)
  unfolding handle_admin_log_level_post admin_request keyed_request timed_request signed_request
  handle-passed env cfg r m s p = (
    p.norm,
    p.has_level,
    rw (p.has_key, p.has_route, p.has_headers, p.has_time, p.has_level, p.in_time, p.is_signed)
        refl,
  )

  signed_request-cases :
      (key : Text) (cfg : AdminConfig) (nonce sig : Text) (epoch : ℕ) (level : Option Text)
      (m : Moment) (s : Server)
      → ((norm : Text) × (level ≡ some norm)
          × (verify_signature urlsafe_b64decode hmac_sha256 parse_iso_utc key
                (build_canonical_message (strip cfg.route_id) epoch nonce norm)
                sig
              ≡ true))
        ⊎ IsUntouched s (
            signed_request urlsafe_b64decode hmac_sha256 parse_iso_utc key cfg nonce sig epoch level
              m s)
  unfolding signed_request
  signed_request-cases key cfg nonce sig epoch none m s = inr (bad_request-refused, refl)
  signed_request-cases key cfg nonce sig epoch (some norm) m s =
      elim (Bool-cases (
        verify_signature urlsafe_b64decode hmac_sha256 parse_iso_utc key
          (build_canonical_message (strip cfg.route_id) epoch nonce norm) sig)) [
            | inl good ↦ inl (norm, refl, good)
            | inr bad ↦ inr (rw bad (unauthorized-refused, refl))
          ]

  -- A request either passes every guard or is refused without a trace.
  pub handle-cases :
      (env : Text) (cfg : AdminConfig) (r : Request) (m : Moment) (s : Server)
      → Passes env cfg r m ⊎ IsUntouched s (handle env cfg r m s)
  unfolding handle_admin_log_level_post admin_request keyed_request timed_request
  handle-cases env cfg r m s =
      elim (Option-cases
        (admin_hmac_secret_bytes urlsafe_b64decode hmac_sha256 parse_iso_utc env cfg)) [
          | inl no_key ↦ inr (rw no_key (not_found-refused, refl))
          | inr (key, has_key) ↦ elim (Bool-cases (truthy (strip cfg.route_id))) [
            | inr no_route ↦ inr (rw (has_key, no_route) (not_found-refused, refl))
            | inl has_route ↦
                elim (Bool-cases
                  (headers_ok r.timestamp (lower (strip r.nonce)) (strip r.signature))) [
                    | inr bad ↦ inr (rw (has_key, has_route, bad) (unauthorized-refused, refl))
                    | inl has_headers ↦ elim (Option-cases (parse_iso_utc r.timestamp)) [
                      | inl no_time ↦ inr (
                          rw (has_key, has_route, has_headers, no_time)
                            (unauthorized-refused, refl))
                      | inr (epoch, has_time) ↦
                          elim (Bool-cases
                            (within_skew cfg.clock_skew_seconds (m.checked_at / 1000000) epoch)) [
                              | inr late ↦ inr (
                                  rw (has_key, has_route, has_headers, has_time, late)
                                    (unauthorized-refused, refl))
                              | inl in_time ↦
                                  elim (signed_request-cases key cfg (lower (strip r.nonce))
                                    (strip r.signature) epoch (level_of_body r.body) m s) [
                                      | inr bad ↦ inr (
                                          rw (has_key, has_route, has_headers, has_time, in_time)
                                            bad)
                                      | inl (norm, has_level, is_signed) ↦ inl (record {
                                        key = key;
                                        epoch = epoch;
                                        norm = norm;
                                        has_key = has_key;
                                        has_route = has_route;
                                        has_headers = has_headers;
                                        has_time = has_time;
                                        in_time = in_time;
                                        has_level = has_level;
                                        is_signed = is_signed;
                                      })
                                    ]
                            ]
                    ]
                  ]
          ]
        ]

  -- What the accepted request leaves: the row with the level, and the worker at that level.
  abbrev pub HasSet : Text → Moment → Server → Server → Type 0
  HasSet norm m s s' =
      (s'.level_row ≡ some (record { log_level = db_level norm; updated_at = m.stored_at }))
      × (s'.worker ≡ apply_level (db_level norm) m.stored_at s.worker)

  store-HasSet :
      (skew : ℕ) (nonce norm : Text) (m : Moment) (s : Server)
      → (store skew nonce norm m s).0 ≡ ok
      → HasSet norm m s (store skew nonce norm m s).1
  unfolding store
  store-HasSet skew nonce norm m s = elim (Bool-cases m.database_works) [
    | inr down ↦ rw down (λ e. absurd cc)
    | inl up ↦ elim (Bool-cases (has_nonce nonce (live_nonces m.stored_at s.nonces))) [
      | inl there ↦ rw (up, there) (λ e. absurd cc)
      | inr new ↦ rw (up, new) (λ e. (refl, refl))
    ]
  ]

  store-refused :
      (skew : ℕ) (nonce norm : Text) (m : Moment) (s : Server)
      → (store skew nonce norm m s).0 ≢ ok
      → ((store skew nonce norm m s).1.level_row ≡ s.level_row)
        × ((store skew nonce norm m s).1.worker ≡ s.worker)
  unfolding store
  store-refused skew nonce norm m s = elim (Bool-cases m.database_works) [
    | inr down ↦ rw down (λ e. (refl, refl))
    | inl up ↦ elim (Bool-cases (has_nonce nonce (live_nonces m.stored_at s.nonces))) [
      | inl there ↦ rw (up, there) (λ e. (refl, refl))
      | inr new ↦ rw (up, new) (λ e. absurd (e refl))
    ]
  ]

  pub handle-ok_Passes :
      (env : Text) (cfg : AdminConfig) (r : Request) (m : Moment) (s : Server)
      → (handle env cfg r m s).0 ≡ ok
      → Passes env cfg r m
  handle-ok_Passes env cfg r m s accepted = elim (handle-cases env cfg r m s) [
    | inl p ↦ p
    | inr (refused, same) ↦ absurd (refused accepted)
  ]

  -- A request that is not accepted, for whatever reason (a guard, a replay or a database that
  -- fails), changes neither the stored level nor the worker.
  pub handle-refused :
      (env : Text) (cfg : AdminConfig) (r : Request) (m : Moment) (s : Server)
      → (handle env cfg r m s).0 ≢ ok
      → ((handle env cfg r m s).1.level_row ≡ s.level_row)
        × ((handle env cfg r m s).1.worker ≡ s.worker)
  handle-refused env cfg r m s refused = elim (handle-cases env cfg r m s) [
    | inr (_, same) ↦ (ap (λ t. t.level_row) same, ap (λ t. t.worker) same)
    | inl p ↦
        let (norm, _, e) = handle-passed env cfg r m s p in
        rw e (
          store-refused cfg.clock_skew_seconds (lower (strip r.nonce)) norm m s
            (λ h. refused (ap (λ t. t.0) e ∙ h)))
  ]

  pub handle-HasSet :
      (env : Text) (cfg : AdminConfig) (r : Request) (m : Moment) (s : Server)
      → (handle env cfg r m s).0 ≡ ok
      → (norm : Text) × (level_of_body r.body ≡ some norm)
        × HasSet norm m s (handle env cfg r m s).1
  handle-HasSet env cfg r m s accepted =
      let (norm, has_level, e) =
        handle-passed env cfg r m s (handle-ok_Passes env cfg r m s accepted) in
      (
        norm,
        has_level,
        rw e (
            store-HasSet cfg.clock_skew_seconds (lower (strip r.nonce)) norm m s
              (ap (λ t. t.0) (sym e) ∙ accepted)),
      )
