-- ===== src/Auth/Reset.antt =====
-- auth.service.ts: what resetPassword does on each branch.
use micro_saas_api.Base.{
  ℕ, ◌≡◌, ◌⊎◌, inl, inr, refl, ap, Option, length, filter, Bool-cases, arith, All, Member-All, ◌==◌,
  Result, ok, err,
}
use micro_saas_api.Base.{Ends-ok}
use micro_saas_api.Text.{Text}
use micro_saas_api.Database.{Client}
use micro_saas_api.Database.Rows.{Member-update_rows, filter-update_none}
use micro_saas_api.Auth.{
  password_reset, EmailToken, Store, AuthError, not_confirmed, Crypto, Answer, next,
}
use micro_saas_api.Auth.Tokens.{
  is_open, mark_used, close_tokens, update_email_tokens, load_email_token, consume_auth_token,
}
use micro_saas_api.Auth.Calls.{is_confirmed, set_password, update_user, reset_password}
use micro_saas_api.Auth.Once.{IsUsable, load-Ends, consume-refused, consume-accepted}

module _ (db : Client) (k : Crypto) where
  -- The user of the link has the new password, and no open link to reset it.
  abbrev pub IsReset : Text → EmailToken → Store → Type 0
  IsReset password row s =
      All (λ u. u.id ≡ row.user_id → u.password ≡ k.hash_password password) s.users
      × (length (filter (is_open row.user_id password_reset) s.email_tokens) ≡ 0)

  abbrev pub ResetOutcome : ℕ → (token password : Text) → Store → Answer (Unit {0}) → Type 0
  ResetOutcome now token password s answer =
      ((e : AuthError) × (answer ≡ (err e, s)))
      ⊎ ((row : EmailToken) × (IsUsable k now password_reset token s row
            × ((answer.0 ≡ ok tt) × IsReset password row answer.1)))

  close_tokens-IsReset :
      (now : ℕ) (password : Text) (row : EmailToken) (s : Store)
      → IsReset password row (
          close_tokens db now row.user_id password_reset
            (update_user db k row.user_id (set_password (k.hash_password password)) s))
  unfolding update_email_tokens update_user
  close_tokens-IsReset now password row s = (
    rw
        (db.update_many_rows (λ u. u.id == row.user_id) (set_password (k.hash_password password))
          s.users)
        (Member-All _ _ λ u m e.
          elim (Member-update_rows _ (set_password (k.hash_password password)) s.users u m) [
            | inl (x, (_, (_, changed))) ↦ ap (λ v. v.password) changed
            | inr (_, other) ↦ absurd (ground (arith, e, other))
          ]),
    rw (db.update_many_rows (is_open row.user_id password_reset) (mark_used now) s.email_tokens) (
        filter-update_none (is_open row.user_id password_reset) (mark_used now) s.email_tokens
          (λ t. ground arith)),
  )

  -- resetPassword throws and writes nothing, or its link is one of the links for this, unused and not
  -- expired, and then the user of the link has the new password and no open link of this type is left.
  pub reset_password-outcome :
      (now : ℕ) (token password : Text) (confirmation : Option Text) (s : Store)
      → ResetOutcome now token password s (reset_password db k now token password confirmation s)
  unfolding reset_password next
  reset_password-outcome now token password confirmation s =
      elim (Bool-cases (is_confirmed confirmation password)) [
        | inr n ↦ rw (reset_password, n) (inl (not_confirmed, refl))
        | inl y ↦
            rw (reset_password, y) (go (load_email_token db k now password_reset token s) refl)
      ]
    where
      go :
          (r : Result AuthError EmailToken)
          → load_email_token db k now password_reset token s ≡ r
          → ResetOutcome now token password s (
              next
                (consume_auth_token db k now password_reset token s).0
                (consume_auth_token db k now password_reset token s).1
                λ row. (
                  ok tt,
                  close_tokens db now row.user_id password_reset (
                      update_user db k row.user_id
                        (set_password (k.hash_password password))
                        (consume_auth_token db k now password_reset token s).1),
                ))
      go (err e) l = rw (consume-refused db k now password_reset token s e l) (inl (e, refl))
      go (ok row) l = rw (consume-accepted db k now password_reset token s row l) (
          inr (
            row,
            (
              Ends-ok (load-Ends db k now password_reset token s) l,
              (refl, close_tokens-IsReset now password row _),
            ),
          ))
