-- ===== src/Auth/Guard.antt =====
-- token-auth.guard.ts: the token that a request carries.
use micro_saas_api.Base.{
  ℕ, Bool, true, false, not, [], ◌∷◌, Option, none, some, if◌then◌else◌, ltb, ◌==◌, Result, ok,
  ◌>>=◌, ◌>>◌, require, or_throw,
}
use micro_saas_api.Text.{Text, codes, same_text, trim, starts_with, drop}
use micro_saas_api.Database.{Client}
use micro_saas_api.Auth.{AccessToken, Store, AuthError, unauthorized, Crypto, Answer, next}

abbrev pub has_token : Text → AccessToken → Bool
has_token hash t = same_text t.token hash

-- `token.expiresAt && token.expiresAt < new Date()`
abbrev pub is_expired : Option ℕ → ℕ → Bool
is_expired none now = false
is_expired (some e) now = ltb e now

abbrev pub bearer : Text
bearer = codes "Bearer "

-- The token that a header carries.
abbrev bearer_token : Option Text → Option Text
bearer_token none = none
bearer_token (some header) = if starts_with header bearer then some (trim (drop 7 header)) else none

abbrev pub is_empty : Text → Bool
is_empty [] = true
is_empty (c ∷ s) = false

module _ (db : Client) (k : Crypto) where
  unfoldable pub check_header : ℕ → Option Text → Store → Result AuthError AccessToken
  check_header now header s = do
    plain ← or_throw (bearer_token header) unauthorized
    require (not (is_empty plain)) unauthorized
    t ← or_throw (db.find_first (has_token (k.hash_token plain)) s.access_tokens) unauthorized
    require (not (is_expired t.expires_at now)) unauthorized
    ok t

  -- canActivate: the row of the token, whose user and key the request is given.
  unfoldable pub can_activate : ℕ → Option Text → Store → Answer AccessToken
  can_activate now header s = next (check_header now header s) s λ t. (
    ok t,
    record s {
      access_tokens =
          (db.update_many (λ (x : AccessToken). x.id == t.id)
            (λ x. record x { last_used_at = some now }) s.access_tokens).0;
    },
  )
