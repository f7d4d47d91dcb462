-- ===== src/Auth/Login.antt =====
-- auth.service.ts: who may log in.
use micro_saas_api.Base.{
  ℕ, ◌+◌, ◌≡◌, inl, inr, refl, ap, Bool, true, false, ◌&&◌, [], ◌∷◌, Option, none, some,
  if◌then◌else◌, Member, Bool-cases, Option-cases, arith, leb, Result, ok, err,
}
use micro_saas_api.Text.{Text, same_text, trim, to_lower}
use micro_saas_api.Text.Laws.{same_text_sound, same_text_refl}
use micro_saas_api.Database.{Client}
use micro_saas_api.Auth.{
  User, Store, AuthError, not_verified, wrong_credentials, Crypto, Draw, is_unused, verify_password,
  same_email, next,
}
use micro_saas_api.Auth.Calls.{
  Session, address, find_email, find_email_insensitive, with_password, authenticate, finish_login,
  login,
}

abbrev lower : ℕ → ℕ
lower c = if leb b'A' c && leb c b'Z' then c + 32 else c

lower_twice : (c : ℕ) → lower (lower c) ≡ lower c
lower_twice c = ground arith

to_lower_twice : (s : Text) → to_lower (to_lower s) ≡ to_lower s
unfolding to_lower
to_lower_twice [] = refl
to_lower_twice (c ∷ s) = rw (lower_twice c, to_lower_twice s) refl

same_text-lower : (a s : Text) → same_text a (to_lower s) ≡ true → same_email a s ≡ true
same_text-lower a s h =
    rw (same_text_sound a (to_lower s) h, to_lower_twice s) (same_text_refl (to_lower s))

-- The user has the address, up to the case of its letters, and the password.
abbrev pub IsAuthentic : Crypto → (email password : Text) → Store → User → Type 0
IsAuthentic k email password s u =
    Member u s.users
    × ((same_email u.email (trim email) ≡ true) × (verify_password k password u.password ≡ true))

module _ (db : Client) (k : Crypto) where
  with_password-some :
      (password : Text) (o : Option User) (u : User)
      → with_password db k password o ≡ some u
      → (o ≡ some u) × (verify_password k password u.password ≡ true)
  with_password-some password none u h = cc
  with_password-some password (some v) u h =
      elim (Bool-cases (verify_password k password v.password)) [
        | inl y ↦ let same : v ≡ u = cc (rw y at h) in (ap some same, rw (← same) y)
        | inr n ↦ let k : Path (Option User) none (some u) = rw n at h in cc
      ]

  found_email :
      (email : Text) (s : Store) (u : User)
      → find_email db k (address email) s ≡ some u
      → Member u s.users × (same_email u.email (trim email) ≡ true)
  unfolding find_email
  found_email email s u h =
      let (p, m) =
        db.find_first-some (λ (v : User). same_text v.email (address email)) s.users u h in
      (m, same_text-lower u.email (trim email) p)

  found_insensitive :
      (email : Text) (s : Store) (u : User)
      → find_email_insensitive db k (trim email) s ≡ some u
      → Member u s.users × (same_email u.email (trim email) ≡ true)
  unfolding find_email_insensitive
  found_insensitive email s u h =
      let (p, m) = db.find_first-some (λ (v : User). same_email v.email (trim email)) s.users u h in
      (m, p)

  authenticate-IsAuthentic :
      (email password : Text) (s : Store) (u : User)
      → authenticate db k email password s ≡ ok u
      → IsAuthentic k email password s u
  unfolding authenticate
  authenticate-IsAuthentic email password s u h =
      elim (Option-cases (with_password db k password (find_email db k (address email) s))) [
        | inr (v, f) ↦
            let same : v ≡ u = cc (rw (authenticate, f) at h) in
            let (found, valid) = with_password-some password _ v f in
            let (m, e) = found_email email s v found in rw (← same) (m, (e, valid))
        | inl n ↦
            elim (Option-cases
              (with_password db k password (find_email_insensitive db k (trim email) s))) [
                | inr (v, f) ↦
                    let same : v ≡ u = cc (rw (authenticate, n, f) at h) in
                    let (found, valid) = with_password-some password _ v f in
                    let (m, e) = found_insensitive email s v found in rw (← same) (m, (e, valid))
                | inl missing ↦
                    let refused : Path (Result AuthError User) (err wrong_credentials) (ok u) =
                      rw (authenticate, n, missing) at h in
                    cc
              ]
      ]

  -- Who is logged in has the address and the password of the request, and has confirmed the address
  -- where that is required.
  pub login-IsAuthentic :
      (must_verify : Bool) (now : ℕ) (draw : Draw) (email password : Text) (s : Store)
      (session : Session)
      → (login db k must_verify now draw email password s).0 ≡ ok session
      → IsAuthentic k email password s session.user
        × ((must_verify && is_unused session.user.email_verified_at) ≡ false)
  unfolding login finish_login next
  login-IsAuthentic must_verify now draw email password s session h =
      go (authenticate db k email password s) refl
    where
      Goal : Type 0
      Goal =
          IsAuthentic k email password s session.user
          × ((must_verify && is_unused session.user.email_verified_at) ≡ false)

      go : (r : Result AuthError User) → authenticate db k email password s ≡ r → Goal
      go (err e) a =
          let refused : Path (Result AuthError Session) (err e) (ok session) = rw (login, a) at h in
          cc
      go (ok user) a = elim (Bool-cases (must_verify && is_unused user.email_verified_at)) [
        | inl y ↦
            let refused : Path (Result AuthError Session) (err not_verified) (ok session) =
              rw (login, a, finish_login, y) at h in
            cc
        | inr n ↦
            let same : Path Session (record { user = user; token = draw.plain }) session =
              cc (rw (login, a, finish_login, n) at h) in
            rw (← same) (authenticate-IsAuthentic email password s user a, n)
      ]
