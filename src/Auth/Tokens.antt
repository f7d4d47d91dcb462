-- ===== src/Auth/Tokens.antt =====
-- auth.service.ts: issueAuthToken, consumeAuthToken and createToken.
use micro_saas_api.Base.{
  ℕ, ◌+◌, Bool, not, ◌&&◌, [], ◌∷◌, ◌++◌, Option, none, some, ltb, ◌==◌, Result, ok, ◌>>=◌, ◌>>◌,
  require, or_throw,
}
use micro_saas_api.Text.{Text, same_text, trim}
use micro_saas_api.Database.{Client}
use micro_saas_api.Auth.{
  TokenType, same_type, EmailToken, Store, AuthError, invalid_link, used_link, expired_link, Crypto,
  Draw, ttl_of, access_ttl_ms, is_unused, Answer, next,
}

-- `where: { userId, type, usedAt: null }`
abbrev pub is_open : ℕ → TokenType → EmailToken → Bool
is_open user_id type t = t.user_id == user_id && same_type t.token_type type && is_unused t.used_at

abbrev pub mark_used : ℕ → EmailToken → EmailToken
mark_used now t = record t { used_at = some now }

abbrev pub has_hash : Text → EmailToken → Bool
has_hash hash t = same_text t.token_hash hash

-- `row.expiresAt.getTime() < Date.now()` and the tests before it.
abbrev check_row : ℕ → TokenType → Option EmailToken → Result AuthError EmailToken
check_row now type row = do
  t ← or_throw row invalid_link
  require (same_type t.token_type type) invalid_link
  require (is_unused t.used_at) used_link
  require (not (ltb t.expires_at now)) expired_link
  ok t

-- createToken
unfoldable pub create_token : Crypto → ℕ → ℕ → Draw → Store → Store
create_token k now user_id draw s = record s {
  access_tokens =
      s.access_tokens
      ++ record {
        id = draw.row_id;
        user_id = user_id;
        token = k.hash_token draw.plain;
        last_used_at = none;
        expires_at = some (now + access_ttl_ms);
      }
        ∷ [];
}

abbrev pub new_email_token : Crypto → ℕ → ℕ → TokenType → Draw → EmailToken
new_email_token k now user_id type draw = record {
  id = draw.row_id;
  user_id = user_id;
  token_type = type;
  token_hash = k.hash_token draw.plain;
  expires_at = now + ttl_of type;
  used_at = none;
}

module _ (db : Client) where
  unfoldable pub update_email_tokens :
      (EmailToken → Bool) → (EmailToken → EmailToken) → Store → Store
  update_email_tokens p f s = record s { email_tokens = (db.update_many p f s.email_tokens).0 }

  -- The rows of a user and a type are closed.
  abbrev pub close_tokens : ℕ → ℕ → TokenType → Store → Store
  close_tokens now user_id type s = update_email_tokens (is_open user_id type) (mark_used now) s

  -- issueAuthToken
  unfoldable pub issue_auth_token : Crypto → ℕ → ℕ → TokenType → Draw → Store → Store
  issue_auth_token k now user_id type draw s =
      let closed = close_tokens now user_id type s in
      record closed {
        email_tokens = closed.email_tokens ++ new_email_token k now user_id type draw ∷ [];
      }

  -- The row of a link, with the tests of consumeAuthToken.
  unfoldable pub load_email_token :
      Crypto → ℕ → TokenType → Text → Store → Result AuthError EmailToken
  load_email_token k now type plain s =
      check_row now type (db.find_first (has_hash (k.hash_token (trim plain))) s.email_tokens)

  -- consumeAuthToken
  unfoldable pub consume_auth_token : Crypto → ℕ → TokenType → Text → Store → Answer EmailToken
  consume_auth_token k now type plain s =
      next (load_email_token k now type plain s) s
        λ row. (ok row, update_email_tokens (λ t. t.id == row.id) (mark_used now) s)
