-- ===== src/Auth.antt =====
-- modules/auth/auth.service.ts and common/guards/token-auth.guard.ts: accounts, the links that are
-- mailed, and the tokens that requests carry. bcrypt, SHA-256, the random tokens and the keys that the
-- database gives are parameters. Instants are milliseconds, days have 24 hours.
pub mod Tokens
pub mod Calls
pub mod Guard
pub mod Runs
pub mod Single
pub mod Once
pub mod Reset
pub mod Sessions
pub mod Login
pub mod Tests
use micro_saas_api.Base.{
  ℕ, ◌*◌, Bool, true, false, List, [], ◌∷◌, Option, none, some, Result, ok, err,
}
use micro_saas_api.Text.{Text, codes, same_text, trim, to_lower}
use micro_saas_api.Database.{Client}
use micro_saas_api.Billing.Lifecycle.{Status, trial}

-- The columns of a user that signing in uses.
pub record User : Type 0 where
  pub id : ℕ
  pub name : Text
  pub email : Text
  pub password : Text
  pub email_verified_at : Option ℕ
  pub trial_ends_at : ℕ
  pub subscription_status : Status

-- TOKEN_TYPE_VERIFY and TOKEN_TYPE_RESET
pub data TokenType : Type 0 where
  email_verification password_reset : TokenType

abbrev pub same_type : TokenType → TokenType → Bool
same_type email_verification email_verification = true
same_type password_reset password_reset = true
same_type _ _ = false

-- AuthEmailToken
pub record EmailToken : Type 0 where
  pub id : ℕ
  pub user_id : ℕ
  pub token_type : TokenType
  pub token_hash : Text
  pub expires_at : ℕ
  pub used_at : Option ℕ

-- PersonalAccessToken
pub record AccessToken : Type 0 where
  pub id : ℕ
  pub user_id : ℕ
  pub token : Text
  pub last_used_at : Option ℕ
  pub expires_at : Option ℕ

pub record Store : Type 0 where
  pub users : List User
  pub email_tokens : List EmailToken
  pub access_tokens : List AccessToken

pub data AuthError : Type 0 where
  not_confirmed email_taken wrong_credentials not_verified : AuthError
  invalid_link used_link expired_link unauthorized : AuthError

-- CryptoService: bcrypt and SHA-256. `hash_password` is the salted hash of one request.
pub record Crypto : Type 0 where
  pub hash_password : Text → Text
  pub compare_password : Text → Text → Bool
  pub hash_token : Text → Text

-- What one request draws: a random token, and the key of the row that keeps it.
pub record Draw : Type 0 where
  pub plain : Text
  pub row_id : ℕ

-- VERIFY_TTL_MS and RESET_TTL_MS
abbrev pub ttl_of : TokenType → ℕ
ttl_of email_verification = 48 * 60 * 60 * 1000
ttl_of password_reset = 60 * 60 * 1000

abbrev pub access_ttl_ms : ℕ
access_ttl_ms = 90 * 24 * 60 * 60 * 1000

abbrev pub is_unused : Option ℕ → Bool
is_unused none = true
is_unused (some at) = false

-- verifyPassword
abbrev pub verify_password : Crypto → Text → Text → Bool
verify_password k plain [] = false
verify_password k plain (c ∷ hash) = k.compare_password plain (c ∷ hash)

-- `{ equals: email, mode: 'insensitive' }`
abbrev pub same_email : Text → Text → Bool
same_email a b = same_text (to_lower a) (to_lower b)

-- A method writes as it goes, and answers with a value or throws.
abbrev pub Answer {ℓ} : Type ℓ → Type ℓ
Answer A = Result AuthError A × Store

unfoldable pub next {ℓ κ} :
    {A : Type ℓ} {B : Type κ} → Result AuthError A → Store → (A → Answer B) → Answer B
next (err e) s go = (err e, s)
next (ok a) s go = go a
