-- ===== src/Auth/Calls.antt =====
-- auth.service.ts: what a visitor and a user may call. The mails are left out.
use micro_saas_api.Base.{
  zero, suc, ℕ, Bool, true, false, not, ◌&&◌, [], ◌∷◌, ◌++◌, Option, none, some, if◌then◌else◌,
  filter, ◌==◌, Result, ok, ◌>>◌, require, or_throw,
}
use micro_saas_api.Text.{Text, same_text, trim, to_lower}
use micro_saas_api.Database.{Client}
use micro_saas_api.Billing.Lifecycle.{trial}
use micro_saas_api.Auth.{
  User, TokenType, email_verification, password_reset, AccessToken, Store, AuthError, not_confirmed,
  email_taken, wrong_credentials, not_verified, Crypto, Draw, is_unused, verify_password,
  same_email, Answer, next,
}
use micro_saas_api.Auth.Tokens.{close_tokens, issue_auth_token, consume_auth_token, create_token}

-- RegisterDto
pub record Registration : Type 0 where
  pub name : Text
  pub email : Text
  pub password : Text
  pub confirmation : Option Text

abbrev pub is_confirmed : Option Text → Text → Bool
is_confirmed none password = true
is_confirmed (some confirmation) password = same_text confirmation password

-- What register draws: the key of the user, and two tokens.
pub record Draws : Type 0 where
  pub user_id : ℕ
  pub verify : Draw
  pub access : Draw

-- The user that a request is for, and the token that it may use from now on.
pub record Session : Type 0 where
  pub user : User
  pub token : Text

abbrev pub address : Text → Text
address email = to_lower (trim email)

abbrev pub set_password : Text → User → User
set_password hash u = record u { password = hash }

abbrev pub set_verified : ℕ → User → User
set_verified now u = record u { email_verified_at = some now }

-- logout, where the key 0 counts as none.
unfoldable pub logout : Option ℕ → Store → Store
logout none s = s
logout (some zero) s = s
logout (some (suc n)) s = record s {
  access_tokens = filter (λ (t : AccessToken). not (t.id == suc n)) s.access_tokens;
}

module _ (db : Client) (k : Crypto) where
  unfoldable pub find_email : Text → Store → Option User
  find_email email s = db.find_first (λ (u : User). same_text u.email email) s.users

  unfoldable pub find_email_insensitive : Text → Store → Option User
  find_email_insensitive email s = db.find_first (λ (u : User). same_email u.email email) s.users

  unfoldable pub update_user : ℕ → (User → User) → Store → Store
  update_user id f s = record s { users = (db.update_many (λ (u : User). u.id == id) f s.users).0 }

  abbrev new_user : ℕ → ℕ → Registration → User
  new_user trial_end id r = record {
    id = id;
    name = r.name;
    email = address r.email;
    password = k.hash_password r.password;
    email_verified_at = none;
    trial_ends_at = trial_end;
    subscription_status = trial;
  }

  abbrev check_register : Registration → Store → Result AuthError (Unit {0})
  check_register r s = do
    require (is_confirmed r.confirmation r.password) not_confirmed
    require (is_absent (find_email (address r.email) s)) email_taken
    where
      is_absent : Option User → Bool
      is_absent none = true
      is_absent (some u) = false

  -- register, without the mail. `trial_end` is trialEndsAtForNewUser.
  unfoldable pub register : (now trial_end : ℕ) → Draws → Registration → Store → Answer Session
  register now trial_end draws r s = next (check_register r s) s λ _.
      let user = new_user trial_end draws.user_id r in
      let created = record s { users = s.users ++ user ∷ [] } in
      let mailed = issue_auth_token db k now user.id email_verification draws.verify created in
      (
        ok (record { user = user; token = draws.access.plain }),
        create_token k now user.id draws.access mailed,
      )

  -- finishLogin
  unfoldable pub finish_login : Bool → ℕ → Draw → User → Store → Answer Session
  finish_login must_verify now draw user s =
      next (require (not (must_verify && is_unused user.email_verified_at)) not_verified) s
        λ _. (ok (record { user = user; token = draw.plain }), create_token k now user.id draw s)

  -- The user of an address, when the password is the user's.
  abbrev pub with_password : Text → Option User → Option User
  with_password password none = none
  with_password password (some u) = if verify_password k password u.password then some u else none

  abbrev first_user : Option User → Option User → Result AuthError User
  first_user (some u) other = ok u
  first_user none other = or_throw other wrong_credentials

  -- The user that an email address and a password give, with the fallback for mixed-case addresses.
  unfoldable pub authenticate : (email password : Text) → Store → Result AuthError User
  authenticate email password s =
      first_user (with_password password (find_email (address email) s))
        (with_password password (find_email_insensitive (trim email) s))

  -- login. `must_verify` is emailVerificationRequired.
  unfoldable pub login : Bool → ℕ → Draw → (email password : Text) → Store → Answer Session
  login must_verify now draw email password s =
      next (authenticate email password s) s λ user. finish_login must_verify now draw user s

  abbrev pub issue_to : ℕ → TokenType → Draw → Store → Option User → Store
  issue_to now type draw s none = s
  issue_to now type draw s (some u) = issue_auth_token db k now u.id type draw s

  -- forgotPassword, which answers the same whether there is such a user or not.
  unfoldable pub forgot_password : ℕ → Draw → (email : Text) → Store → Store
  forgot_password now draw email s =
      issue_to now password_reset draw s (find_email_insensitive (trim email) s)

  -- resetPassword
  unfoldable pub reset_password :
      ℕ → (token password : Text) → (confirmation : Option Text) → Store → Answer (Unit {0})
  reset_password now token password confirmation s =
      next (require (is_confirmed confirmation password) not_confirmed) s λ _.
        let consumed = consume_auth_token db k now password_reset token s in
        next consumed.0 consumed.1 λ row. (
          ok tt,
          close_tokens db now row.user_id password_reset
              (update_user row.user_id (set_password (k.hash_password password)) consumed.1),
        )

  -- verifyEmail
  unfoldable pub verify_email : ℕ → (token : Text) → Store → Answer (Unit {0})
  verify_email now token s =
      let consumed = consume_auth_token db k now email_verification token s in
      next consumed.0 consumed.1 λ row. (
        ok tt,
        close_tokens db now row.user_id email_verification
            (update_user row.user_id (set_verified now) consumed.1),
      )

  -- resendVerification
  unfoldable pub resend_verification : ℕ → Draw → User → Store → Store
  resend_verification now draw user s =
      let issued = issue_auth_token db k now user.id email_verification draw s in
      if is_unused user.email_verified_at then issued else s
