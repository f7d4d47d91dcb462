-- ===== src/Auth/Sessions.antt =====
-- auth.service.ts and token-auth.guard.ts: a session, from the login to the logout.
use micro_saas_api.Base.{
  suc, ℕ, ◌+◌, ◌≡◌, ◌≢◌, ◌≤◌, ◌⊎◌, inl, inr, refl, sym, Bool, true, false, not, ◌&&◌, List, [], ◌∷◌,
  ◌++◌, Option, none, some, filter, Member, here, there, Bool-cases, arith, All, All-Member, ltb,
  ◌==◌, Result, ok, err, ◌>>=◌, ◌>>◌, require, or_throw,
}
use micro_saas_api.Text.{Text, trim, starts_with}
use micro_saas_api.Text.Laws.{same_text_refl}
use micro_saas_api.Database.{Client}
use micro_saas_api.Auth.{
  User, AccessToken, Store, AuthError, unauthorized, Crypto, Draw, access_ttl_ms, next,
}
use micro_saas_api.Database.Rows.{Member-last}
use micro_saas_api.Auth.{not_verified, is_unused}
use micro_saas_api.Auth.Tokens.{create_token}
use micro_saas_api.Auth.Calls.{Session, authenticate, finish_login, login, logout}
use micro_saas_api.Auth.Guard.{has_token, is_expired, bearer, check_header, can_activate}

-- The header that carries a token.
abbrev pub header_of : Text → Option Text
header_of plain = some (bearer ++ plain)

Member-append_one {ℓ} :
    {A : Type ℓ} (xs : List A) (x y : A) → Member y (xs ++ x ∷ []) → Member y xs ⊎ (y ≡ x)
Member-append_one [] x y (here e) = inr (sym e)
Member-append_one [] x y (there m) = elim m [ ]
Member-append_one (z ∷ zs) x y (here e) = inl (here e)
Member-append_one (z ∷ zs) x y (there m) = elim (Member-append_one zs x y m) [
  | inl n ↦ inl (there n)
  | inr e ↦ inr e
]

removed-None :
    (q : AccessToken → Bool) (id : ℕ) (xs : List AccessToken)
    → ((t : AccessToken) → Member t xs → q t ≡ true → t.id ≡ id)
    → All (λ t. q t ≡ false) (filter (λ t. not (t.id == id)) xs)
removed-None q id [] h = tt
removed-None q id (x ∷ xs) h =
    let rest = removed-None q id xs (λ t m. h t (there m)) in
    elim (Bool-cases (q x)) [
      | inl y ↦ let gone : (x.id == id) ≡ true = ground (arith, h x (here refl) y) in rw gone rest
      | inr n ↦ elim (Bool-cases (x.id == id)) [ inl y ↦ rw y rest | inr m ↦ rw m (n, rest) ]
    ]

-- The row of a session.
abbrev pub IsSession : ℕ → Session → Draw → AccessToken → Type 0
IsSession now session draw t =
    (session.token ≡ draw.plain)
    × ((t.id ≡ draw.row_id)
        × ((t.user_id ≡ session.user.id) × (t.expires_at ≡ some (now + access_ttl_ms))))

module _ (db : Client) (k : Crypto) where
  -- The guard finds the token of a header among the rows.
  check_header-lookup :
      (now : ℕ) (plain : Text) (s : Store)
      → trim plain ≡ plain
      → plain ≢ []
      → check_header db k now (header_of plain) s ≡ (
          or_throw (db.find_first (has_token (k.hash_token plain)) s.access_tokens) unauthorized
          >>= λ t. require (not (is_expired t.expires_at now)) unauthorized >> ok t)
  unfolding check_header ◌>>=◌ starts_with
  check_header-lookup now [] s clean ne = absurd (ne refl)
  check_header-lookup now (c ∷ plain) s clean ne = rw clean refl

  -- A token whose row, with a key of 1 or more, has been removed is refused.
  pub logout-can_activate :
      (now n : ℕ) (plain : Text) (s : Store)
      → trim plain ≡ plain
      → plain ≢ []
      → ((t : AccessToken)
          → Member t s.access_tokens
          → has_token (k.hash_token plain) t ≡ true
          → t.id ≡ suc n)
      → can_activate db k now (header_of plain) (logout (some (suc n)) s)
        ≡ (err unauthorized, logout (some (suc n)) s)
  unfolding can_activate next logout ◌>>=◌
  logout-can_activate now n plain s clean ne only =
      go (db.find_first (has_token (k.hash_token plain)) left.access_tokens) refl
    where
      left : Store
      left = logout (some (suc n)) s

      go :
          (r : Option AccessToken)
          → db.find_first (has_token (k.hash_token plain)) left.access_tokens ≡ r
          → can_activate db k now (header_of plain) left ≡ (err unauthorized, left)
      go none f = rw (can_activate, check_header-lookup now plain left clean ne, f) refl
      go (some t) f =
          let (p, m) = db.find_first-some (has_token (k.hash_token plain)) left.access_tokens t f in
          let gone =
            All-Member _ left.access_tokens (removed-None _ (suc n) s.access_tokens only) m in
          absurd (ground (arith, p, gone))

  create_token-accepted :
      (now later user_id : ℕ) (draw : Draw) (s : Store)
      → trim draw.plain ≡ draw.plain
      → draw.plain ≢ []
      → All (λ t. has_token (k.hash_token draw.plain) t ≡ false) s.access_tokens
      → later ≤ now + access_ttl_ms
      → (can_activate db k later (header_of draw.plain) (create_token k now user_id draw s)).0
        ≡ ok (record {
          id = draw.row_id;
          user_id = user_id;
          token = k.hash_token draw.plain;
          last_used_at = none;
          expires_at = some (now + access_ttl_ms);
        })
  unfolding can_activate next create_token ◌>>=◌
  create_token-accepted now later user_id draw s clean ne fresh in_time =
      go (db.find_first (has_token (k.hash_token draw.plain)) created.access_tokens) refl
    where
      row : AccessToken
      row = record {
        id = draw.row_id;
        user_id = user_id;
        token = k.hash_token draw.plain;
        last_used_at = none;
        expires_at = some (now + access_ttl_ms);
      }

      created : Store
      created = create_token k now user_id draw s

      go :
          (r : Option AccessToken)
          → db.find_first (has_token (k.hash_token draw.plain)) created.access_tokens ≡ r
          → (can_activate db k later (header_of draw.plain) created).0 ≡ ok row
      go none f =
          let missed =
            All-Member _ created.access_tokens
              (db.find_first-none (has_token (k.hash_token draw.plain)) created.access_tokens f)
              (Member-last s.access_tokens row) in
          let found = same_text_refl (k.hash_token draw.plain) in
          absurd (ground (arith, missed, found))
      go (some t) f =
          let (p, m) =
            db.find_first-some (has_token (k.hash_token draw.plain)) created.access_tokens t f in
          elim (Member-append_one s.access_tokens row t m) [
            | inl old ↦
                let other = All-Member _ s.access_tokens fresh old in
                absurd (ground (arith, p, other))
            | inr same ↦
                let live : not (ltb (now + access_ttl_ms) later) ≡ true = ground (arith, in_time) in
                rw
                  (
                    can_activate,
                    check_header-lookup later draw.plain created clean ne,
                    f,
                    same,
                    live,
                  )
                  refl
          ]

  -- The token of a login gives the user access to the service for 90 days, when the token is clean text
  -- whose hash no token had.
  pub login-can_activate :
      (must_verify : Bool) (now : ℕ) (draw : Draw) (email password : Text) (s : Store)
      (session : Session) (later : ℕ)
      → (login db k must_verify now draw email password s).0 ≡ ok session
      → trim draw.plain ≡ draw.plain
      → draw.plain ≢ []
      → All (λ t. has_token (k.hash_token draw.plain) t ≡ false) s.access_tokens
      → later ≤ now + access_ttl_ms
      → let opened = (login db k must_verify now draw email password s).1 in
        (t : AccessToken) × (((can_activate db k later (header_of session.token) opened).0 ≡ ok t)
          × IsSession now session draw t)
  unfolding login finish_login next
  login-can_activate must_verify now draw email password s session later h clean ne fresh in_time =
      go (authenticate db k email password s) refl
    where
      Goal : Type 0
      Goal =
          (t : AccessToken) × (((can_activate db k later (header_of session.token)
                (login db k must_verify now draw email password s).1).0
              ≡ ok t)
            × IsSession now session draw t)

      go : (r : Result AuthError User) → authenticate db k email password s ≡ r → Goal
      go (err e) a =
          let refused : Path (Result AuthError Session) (err e) (ok session) = rw (login, a) at h in
          cc
      go (ok user) a = elim (Bool-cases (not (must_verify && is_unused user.email_verified_at))) [
        | inr n ↦
            let refused : Path (Result AuthError Session) (err not_verified) (ok session) =
              rw (login, a, finish_login, n) at h in
            cc
        | inl y ↦
            let same : Path Session (record { user = user; token = draw.plain }) session =
              cc (rw (login, a, finish_login, y) at h) in
            rw (← same, login, a, finish_login, y)
              (
                _,
                (
                  create_token-accepted now later user.id draw s clean ne fresh in_time,
                  (refl, (refl, (refl, refl))),
                ),
              )
      ]
