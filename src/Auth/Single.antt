-- ===== src/Auth/Single.antt =====
-- auth.service.ts: a user has one open link of a type at most.
use micro_saas_api.Base.{
  ℕ, ◌≡◌, ◌≤◌, inl, inr, refl, Bool, true, false, ◌&&◌, List, [], ◌∷◌, ◌++◌, length, filter,
  Bool-cases, arith, All, length-filter-last, length-filter-last-le, ◌==◌, and-true,
}
use micro_saas_api.Database.{Client}
use micro_saas_api.Database.Rows.{update_rows, filter-update_none}
use micro_saas_api.Auth.{
  TokenType, email_verification, password_reset, same_type, EmailToken, Store, Crypto, Draw,
}
use micro_saas_api.Auth.Tokens.{is_open, mark_used, new_email_token}
use micro_saas_api.Auth.Runs.{
  Call, registers, logs_in, logs_out, forgets, resets, verifies, resends, uses, run, DrawsOf,
  Changes, same, closes, issues, run-Changes,
}

-- No user has two unused links of one type.
abbrev pub IsSingle : List EmailToken → Type 0
IsSingle xs = (user_id : ℕ) (type : TokenType) → length (filter (is_open user_id type) xs) ≤ 1

mark_used-closed :
    (user_id : ℕ) (type : TokenType) (now : ℕ) (t : EmailToken)
    → is_open user_id type (mark_used now t) ≡ false
mark_used-closed user_id type now t = ground arith

-- Marking links as used opens none.
length-filter-close :
    (q p : EmailToken → Bool) (now : ℕ) (xs : List EmailToken)
    → ((t : EmailToken) → q (mark_used now t) ≡ false)
    → length (filter q (update_rows p (mark_used now) xs)) ≤ length (filter q xs)
length-filter-close q p now [] h = omega arith
length-filter-close q p now (x ∷ xs) h =
    let rest = length-filter-close q p now xs h in
    elim (Bool-cases (p x)) [
      | inl y ↦ elim (Bool-cases (q x)) [
        | inl z ↦ rw (y, h x, z) (omega (arith, rest))
        | inr z ↦ rw (y, h x, z) rest
      ]
      | inr n ↦ elim (Bool-cases (q x)) [
        | inl z ↦ rw (n, z) (omega (arith, rest))
        | inr z ↦ rw (n, z) rest
      ]
    ]

same_type-eq : (a b : TokenType) → same_type a b ≡ true → a ≡ b
same_type-eq email_verification email_verification h = refl
same_type-eq email_verification password_reset h = cc
same_type-eq password_reset email_verification h = cc
same_type-eq password_reset password_reset h = refl

issues-IsSingle :
    (k : Crypto) (now user_id : ℕ) (type : TokenType) (draw : Draw) (xs : List EmailToken)
    → IsSingle xs
    → IsSingle (
        update_rows (is_open user_id type) (mark_used now) xs
        ++ new_email_token k now user_id type draw ∷ [])
issues-IsSingle k now user_id type draw xs h u ty =
    let row = new_email_token k now user_id type draw in
    let closed = update_rows (is_open user_id type) (mark_used now) xs in
    elim (Bool-cases (is_open u ty row)) [
      | inr n ↦
          let kept =
            length-filter-close (is_open u ty) (is_open user_id type) now xs
              (mark_used-closed u ty now) in
          let one = h u ty in
          rw (length-filter-last (is_open u ty) closed row n) (omega (arith, kept, one))
      | inl y ↦
          let both = (and-true (user_id == u && same_type type ty) true y).0 in
          let (who, of_type) = and-true (user_id == u) (same_type type ty) both in
          let same_user : user_id ≡ u = ground (arith, who) in
          let same_ty : type ≡ ty = same_type-eq type ty of_type in
          let none_open : length (filter (is_open user_id type) closed) ≡ 0 =
            filter-update_none (is_open user_id type) (mark_used now) xs
              (mark_used-closed user_id type now) in
          let last = length-filter-last-le (is_open user_id type) closed row in
          rw (← same_user, ← same_ty) (omega (arith, none_open, last))
    ]

Changes-IsSingle {ℓ} :
    (k : Crypto) (Q : Draw → Type ℓ) {xs ys : List EmailToken}
    → Changes k Q xs ys
    → IsSingle xs
    → IsSingle ys
Changes-IsSingle k Q same h = h
Changes-IsSingle k Q (closes {ys} p now c) h =
    let one = Changes-IsSingle k Q c h in
    λ u ty.
      let kept = length-filter-close (is_open u ty) p now ys (mark_used-closed u ty now) in
      let before = one u ty in omega (arith, kept, before)
Changes-IsSingle k Q (issues {ys} now user_id type draw q c) h =
    issues-IsSingle k now user_id type draw ys (Changes-IsSingle k Q c h)

any_draws : (cs : List Call) → All (DrawsOf (λ d. Unit {0})) cs
any_draws [] = tt
any_draws (registers _ _ _ _ ∷ cs) = (tt, any_draws cs)
any_draws (logs_in _ _ _ _ _ ∷ cs) = (tt, any_draws cs)
any_draws (logs_out _ ∷ cs) = (tt, any_draws cs)
any_draws (forgets _ _ _ ∷ cs) = (tt, any_draws cs)
any_draws (resets _ _ _ _ ∷ cs) = (tt, any_draws cs)
any_draws (verifies _ _ ∷ cs) = (tt, any_draws cs)
any_draws (resends _ _ _ ∷ cs) = (tt, any_draws cs)
any_draws (uses _ _ ∷ cs) = (tt, any_draws cs)

-- After any sequence of requests no user has two unused links of one type, when no user had two
-- before it.
pub run-IsSingle :
    (db : Client) (k : Crypto) (cs : List Call) (s : Store)
    → IsSingle s.email_tokens
    → IsSingle (run db k cs s).email_tokens
run-IsSingle db k cs s h =
    Changes-IsSingle k (λ d. Unit {0})
      (run-Changes db k (λ d. Unit {0}) s.email_tokens cs s (any_draws cs) same) h
