-- ===== src/Admin/Post/Replay.antt =====
-- thaum/admin_log_level.py: the protection against a request that is sent twice.
use thaum.Prelude.{
  ℕ, ◌+◌, ◌*◌, ◌/◌, ◌≤◌, ◌<◌, ◌≡◌, refl, sym, ap, ◌∙◌, ◌≢◌, inl, inr, Bool, true, false, ◌&&◌, ◌||◌,
  Option, some, List, [], ◌∷◌, arith, ltb, leb, Bool-cases, All,
}
use thaum.Text.{Text, text_eq, text_eq_refl, strip, lower}
use thaum.Table.{add_row, delete_where}
use thaum.Admin.Post.{
  ok, AdminConfig, Request, Moment, Nonce, Server, has_nonce, live_nonces, store, within_skew,
}
use thaum.Admin.Post.Effect.{Passes, handle, handle-passed, handle-cases, handle-ok_Passes}

some_inj : {a b : ℕ} → some a ≡ some b → a ≡ b
some_inj e = cc

false-true : false ≡ true → ⊥
false-true e = cc

-- The table still holds the nonce, with the given time of expiry or a later one.
unfoldable pub holds_until : ℕ → Text → List Nonce → Bool
holds_until t n [] = false
holds_until t n (r ∷ rows) = (text_eq r.nonce n && leb t r.expires_at) || holds_until t n rows

holds_until-add_row :
    (t : ℕ) (n : Text) (r : Nonce) (rows : List Nonce)
    → holds_until t n rows ≡ true
    → holds_until t n (add_row r rows) ≡ true
unfolding holds_until add_row
holds_until-add_row t n r [] h = absurd (false-true h)
holds_until-add_row t n r (x ∷ rows) h = ground (arith, holds_until-add_row t n r rows)

holds_until_self :
    (t at : ℕ) (n : Text) (rows : List Nonce)
    → t ≤ at
    → holds_until t n (add_row (record { nonce = n; expires_at = at }) rows) ≡ true
unfolding holds_until add_row
holds_until_self t at n [] h = ground (arith, text_eq_refl n)
holds_until_self t at n (x ∷ rows) h = ground (arith, holds_until_self t at n rows h)

holds_until-live_nonces :
    (t now : ℕ) (n : Text) (rows : List Nonce)
    → now ≤ t
    → holds_until t n rows ≡ true
    → holds_until t n (live_nonces now rows) ≡ true
unfolding holds_until live_nonces delete_where
holds_until-live_nonces t now n [] h e = absurd (false-true e)
holds_until-live_nonces t now n (x ∷ rows) h e =
    ground (arith, holds_until-live_nonces t now n rows h)

holds_until-has_nonce :
    (t : ℕ) (n : Text) (rows : List Nonce) → holds_until t n rows ≡ true → has_nonce n rows ≡ true
unfolding holds_until has_nonce
holds_until-has_nonce t n [] h = absurd (false-true h)
holds_until-has_nonce t n (x ∷ rows) h = ground (arith, holds_until-has_nonce t n rows)

store-holds_until :
    (t skew : ℕ) (n nonce norm : Text) (m : Moment) (s : Server)
    → m.stored_at ≤ t
    → holds_until t n s.nonces ≡ true
    → holds_until t n (store skew nonce norm m s).1.nonces ≡ true
unfolding store
store-holds_until t skew n nonce norm m s soon h = elim (Bool-cases m.database_works) [
  | inr down ↦ rw down h
  | inl up ↦
      let live = holds_until-live_nonces t m.stored_at n s.nonces soon h in
      elim (Bool-cases (has_nonce nonce (live_nonces m.stored_at s.nonces))) [
        | inl there ↦ rw (up, there) live
        | inr new ↦ rw (up, new) (holds_until-add_row t n _ (live_nonces m.stored_at s.nonces) live)
      ]
]

store-ok :
    (t skew : ℕ) (nonce norm : Text) (m : Moment) (s : Server)
    → t ≤ m.expiry_from + (skew + 120) * 1000000
    → (store skew nonce norm m s).0 ≡ ok
    → holds_until t nonce (store skew nonce norm m s).1.nonces ≡ true
unfolding store
store-ok t skew nonce norm m s soon = elim (Bool-cases m.database_works) [
  | inr down ↦ rw down (λ e. absurd (cc))
  | inl up ↦ elim (Bool-cases (has_nonce nonce (live_nonces m.stored_at s.nonces))) [
    | inl there ↦ rw (up, there) (λ e. absurd (cc))
    | inr new ↦
        rw (up, new) (λ e. holds_until_self t _ nonce (live_nonces m.stored_at s.nonces) soon)
  ]
]

store-replayed :
    (t skew : ℕ) (nonce norm : Text) (m : Moment) (s : Server)
    → m.stored_at ≤ t
    → holds_until t nonce s.nonces ≡ true
    → (store skew nonce norm m s).0 ≢ ok
unfolding store
store-replayed t skew nonce norm m s soon h = elim (Bool-cases m.database_works) [
  | inr down ↦ rw down (λ e. cc)
  | inl up ↦
      rw
        (
          up,
          holds_until-has_nonce t nonce (live_nonces m.stored_at s.nonces)
              (holds_until-live_nonces t m.stored_at nonce s.nonces soon h),
        )
        (λ e. cc)
]

-- The only row of the table after an accepted request on an empty one.
store-first :
    (skew : ℕ) (nonce norm : Text) (m : Moment) (s : Server)
    → s.nonces ≡ []
    → (store skew nonce norm m s).0 ≡ ok
    → (store skew nonce norm m s).1.nonces
      ≡ record { nonce = nonce; expires_at = m.expiry_from + (skew + 120) * 1000000 } ∷ []
unfolding store live_nonces delete_where has_nonce add_row
store-first skew nonce norm m s empty = elim (Bool-cases m.database_works) [
  | inr down ↦ rw down (λ e. absurd cc)
  | inl up ↦ rw (up, empty) (λ e. refl)
]

store-expired :
    (skew at : ℕ) (nonce norm : Text) (m : Moment) (s : Server)
    → s.nonces ≡ record { nonce = nonce; expires_at = at } ∷ []
    → at < m.stored_at
    → m.database_works ≡ true
    → (store skew nonce norm m s).0 ≡ ok
unfolding store live_nonces delete_where has_nonce
store-expired skew at nonce norm m s one over up = elim (Bool-cases (ltb at m.stored_at)) [
  | inl gone ↦ rw (up, one, gone) refl
  | inr there ↦ absurd (ground (arith, there))
]

module _ (urlsafe_b64decode : Text → Option Text) (hmac_sha256 : Text → Text → Text)
    (parse_iso_utc : Text → Option ℕ) where
  -- The requests of a server, one after the other.
  unfoldable pub serve_all : Text → AdminConfig → List (Request × Moment) → Server → Server
  serve_all env cfg [] s = s
  serve_all env cfg ((r, m) ∷ rest) s =
      serve_all env cfg rest (handle urlsafe_b64decode hmac_sha256 parse_iso_utc env cfg r m s).1

  serve-holds_until :
      (t : ℕ) (n : Text) (env : Text) (cfg : AdminConfig) (r : Request) (m : Moment) (s : Server)
      → m.stored_at ≤ t
      → holds_until t n s.nonces ≡ true
      → holds_until t n (handle urlsafe_b64decode hmac_sha256 parse_iso_utc env cfg r m s).1.nonces
        ≡ true
  serve-holds_until t n env cfg r m s soon h =
      elim (handle-cases urlsafe_b64decode hmac_sha256 parse_iso_utc env cfg r m s) [
        | inr (_, same) ↦ rw same h
        | inl p ↦
            let (norm, _, e) =
              handle-passed urlsafe_b64decode hmac_sha256 parse_iso_utc env cfg r m s p in
            rw e
              (store-holds_until t cfg.clock_skew_seconds n (lower (strip r.nonce)) norm m s soon h)
      ]

  serve_all-holds_until :
      (t : ℕ) (n : Text) (env : Text) (cfg : AdminConfig) (rest : List (Request × Moment))
      (s : Server)
      → All (λ p. p.1.stored_at ≤ t) rest
      → holds_until t n s.nonces ≡ true
      → holds_until t n (serve_all env cfg rest s).nonces ≡ true
  unfolding serve_all
  serve_all-holds_until t n env cfg [] s soon h = h
  serve_all-holds_until t n env cfg ((r, m) ∷ rest) s soon h =
      serve_all-holds_until t n env cfg rest
        (handle urlsafe_b64decode hmac_sha256 parse_iso_utc env cfg r m s).1 soon.1
        (serve-holds_until t n env cfg r m s soon.0 h)

  refused_while_held :
      (t : ℕ) (env : Text) (cfg : AdminConfig) (r : Request) (m : Moment) (s : Server)
      → m.stored_at ≤ t
      → holds_until t (lower (strip r.nonce)) s.nonces ≡ true
      → (handle urlsafe_b64decode hmac_sha256 parse_iso_utc env cfg r m s).0 ≢ ok
  refused_while_held t env cfg r m s soon held accepted =
      let p = handle-ok_Passes urlsafe_b64decode hmac_sha256 parse_iso_utc env cfg r m s accepted in
      let (norm, _, e) =
        handle-passed urlsafe_b64decode hmac_sha256 parse_iso_utc env cfg r m s p in
      store-replayed t cfg.clock_skew_seconds (lower (strip r.nonce)) norm m s soon held
        (ap (λ x. x.0) (sym e) ∙ accepted)

  accepted-holds_until :
      (t : ℕ) (env : Text) (cfg : AdminConfig) (r : Request) (m : Moment) (s : Server)
      → t ≤ m.expiry_from + (cfg.clock_skew_seconds + 120) * 1000000
      → (handle urlsafe_b64decode hmac_sha256 parse_iso_utc env cfg r m s).0 ≡ ok
      → holds_until t
          (lower (strip r.nonce))
          (handle urlsafe_b64decode hmac_sha256 parse_iso_utc env cfg r m s).1.nonces
        ≡ true
  accepted-holds_until t env cfg r m s soon accepted =
      let p = handle-ok_Passes urlsafe_b64decode hmac_sha256 parse_iso_utc env cfg r m s accepted in
      let (norm, _, e) =
        handle-passed urlsafe_b64decode hmac_sha256 parse_iso_utc env cfg r m s p in
      rw e (
        store-ok t cfg.clock_skew_seconds (lower (strip r.nonce)) norm m s soon
          (ap (λ x. x.0) (sym e) ∙ accepted))

  in_skew_until :
      (skew checked epoch stored delay from : ℕ)
      → within_skew skew (checked / 1000000) epoch ≡ true
      → stored ≤ checked + delay
      → (epoch + 1) * 1000000 + delay ≤ from + 120000000
      → stored ≤ from + (skew + 120) * 1000000
  in_skew_until skew checked epoch stored delay from within quick ahead = ground arith

  -- A request that was accepted is never accepted again, whatever requests come in between and
  -- whenever it comes, if its time stamp was less than 119 seconds (and the delay) ahead of the
  -- server's clock when it was first accepted, the requests in between reached the database before
  -- the second one did, and the second one reached it within the delay after its clock test.
  pub handle-replay_refused :
      (delay epoch : ℕ) (env : Text) (cfg : AdminConfig) (r : Request) (m again : Moment)
      (between : List (Request × Moment)) (s : Server)
      → (handle urlsafe_b64decode hmac_sha256 parse_iso_utc env cfg r m s).0 ≡ ok
      → parse_iso_utc r.timestamp ≡ some epoch
      → (epoch + 1) * 1000000 + delay ≤ m.expiry_from + 120000000
      → All (λ p. p.1.stored_at ≤ again.stored_at) between
      → again.stored_at ≤ again.checked_at + delay
      → (handle urlsafe_b64decode hmac_sha256 parse_iso_utc env cfg r again (
          serve_all env cfg between
            (handle urlsafe_b64decode hmac_sha256 parse_iso_utc env cfg r m s).1)).0
        ≢ ok
  handle-replay_refused delay epoch env cfg r m again between s first has_time ahead order quick
        second =
      let p =
        handle-ok_Passes urlsafe_b64decode hmac_sha256 parse_iso_utc env cfg r again
          (serve_all env cfg between
            (handle urlsafe_b64decode hmac_sha256 parse_iso_utc env cfg r m s).1)
          second in
      let same : p.epoch ≡ epoch = some_inj (sym p.has_time ∙ has_time) in
      let live =
        in_skew_until cfg.clock_skew_seconds again.checked_at epoch again.stored_at delay
          m.expiry_from (rw same at p.in_time) quick ahead in
      let held = accepted-holds_until again.stored_at env cfg r m s live first in
      refused_while_held again.stored_at env cfg r again
        (serve_all env cfg between
          (handle urlsafe_b64decode hmac_sha256 parse_iso_utc env cfg r m s).1)
        (omega arith)
        (serve_all-holds_until again.stored_at (lower (strip r.nonce)) env cfg between
          (handle urlsafe_b64decode hmac_sha256 parse_iso_utc env cfg r m s).1 order held)
        second

  -- The bound on the time stamp is needed: a request that was accepted on a server without stored
  -- nonces is accepted a second time, without any other change, once the database is asked after
  -- the nonce's expiry (the skew and 120 seconds after the first time) while the time stamp is
  -- still within the skew of the clock. With the skew of 300 seconds that is the default, a time
  -- stamp that is 250 seconds ahead leaves more than two minutes for it.
  pub handle-replay_accepted :
      (env : Text) (cfg : AdminConfig) (r : Request) (m again : Moment) (s : Server) (epoch : ℕ)
      → s.nonces ≡ []
      → (handle urlsafe_b64decode hmac_sha256 parse_iso_utc env cfg r m s).0 ≡ ok
      → parse_iso_utc r.timestamp ≡ some epoch
      → within_skew cfg.clock_skew_seconds (again.checked_at / 1000000) epoch ≡ true
      → m.expiry_from + (cfg.clock_skew_seconds + 120) * 1000000 < again.stored_at
      → again.database_works ≡ true
      → (handle urlsafe_b64decode hmac_sha256 parse_iso_utc env cfg r again
          (handle urlsafe_b64decode hmac_sha256 parse_iso_utc env cfg r m s).1).0
        ≡ ok
  handle-replay_accepted env cfg r m again s epoch empty first has_time in_time over up =
      let p = handle-ok_Passes urlsafe_b64decode hmac_sha256 parse_iso_utc env cfg r m s first in
      let (norm, has_level, e) =
        handle-passed urlsafe_b64decode hmac_sha256 parse_iso_utc env cfg r m s p in
      let same : p.epoch ≡ epoch = some_inj (sym p.has_time ∙ has_time) in
      let p' : Passes urlsafe_b64decode hmac_sha256 parse_iso_utc env cfg r again = record {
        key = p.key;
        epoch = p.epoch;
        norm = p.norm;
        has_key = p.has_key;
        has_route = p.has_route;
        has_headers = p.has_headers;
        has_time = p.has_time;
        in_time = rw same in_time;
        has_level = p.has_level;
        is_signed = p.is_signed;
      } in
      let s' = (handle urlsafe_b64decode hmac_sha256 parse_iso_utc env cfg r m s).1 in
      let (norm', has_level', e') =
        handle-passed urlsafe_b64decode hmac_sha256 parse_iso_utc env cfg r again s' p' in
      ap (λ x. x.0) e'
      ∙ store-expired cfg.clock_skew_seconds
          (m.expiry_from + (cfg.clock_skew_seconds + 120) * 1000000) (lower (strip r.nonce)) norm'
          again s'
          (ap (λ x. x.1.nonces) e
            ∙ store-first cfg.clock_skew_seconds (lower (strip r.nonce)) norm m s empty
                (ap (λ x. x.0) (sym e) ∙ first))
          over up
