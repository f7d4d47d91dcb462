-- ===== src/Auth/Once.antt =====
-- auth.service.ts: a link is used once.
use micro_saas_api.Base.{Ends, Ends-bind, Ends-ok, answers, require-ok, or_throw-ok}
use micro_saas_api.Base.{
  ℕ, ◌≡◌, ◌≤◌, inl, inr, refl, sym, ap, ◌∙◌, true, false, List, [], ◌∷◌, Option, none, some, Member,
  arith, All, All-Member, All-append, Member-All, ◌==◌, Result, ok, err,
}
use micro_saas_api.Text.{Text, same_text, trim}
use micro_saas_api.Text.Laws.{same_text_sound, same_text_refl}
use micro_saas_api.Database.{Client}
use micro_saas_api.Database.Rows.{update_rows, All-update_rows, Member-update_rows}
use micro_saas_api.Auth.{
  TokenType, same_type, EmailToken, Store, AuthError, Crypto, Draw, is_unused, next,
}
use micro_saas_api.Auth.Tokens.{
  mark_used, has_hash, new_email_token, update_email_tokens, load_email_token, consume_auth_token,
}
use micro_saas_api.Auth.Runs.{Call, run, DrawsOf, Changes, same, closes, issues, run-Changes}

-- No link with the hash is unused.
abbrev pub IsSpent : Text → List EmailToken → Type 0
IsSpent hash xs = All (λ t. has_hash hash t ≡ true → is_unused t.used_at ≡ false) xs

-- A draw for another hash.
abbrev pub IsOther : Crypto → Text → Draw → Type 0
IsOther k hash draw = same_text (k.hash_token draw.plain) hash ≡ false

Changes-IsSpent :
    (k : Crypto) (hash : Text) {xs ys : List EmailToken}
    → Changes k (IsOther k hash) xs ys
    → IsSpent hash xs
    → IsSpent hash ys
Changes-IsSpent k hash same h = h
Changes-IsSpent k hash (closes {ys} p now c) h =
    All-update_rows _ p (mark_used now) ys (λ r m e used _. refl) (Changes-IsSpent k hash c h)
Changes-IsSpent k hash (issues {ys} now user_id type draw q c) h =
    All-append _ (update_rows _ (mark_used now) ys) (new_email_token k now user_id type draw ∷ [])
      (All-update_rows _ _ (mark_used now) ys (λ r m e used _. refl) (Changes-IsSpent k hash c h))
      (λ has. absurd (ground (arith, has, q)), tt)

-- What consumeAuthToken has tested of the row that it answers with.
abbrev pub IsUsable : Crypto → ℕ → TokenType → Text → Store → EmailToken → Type 0
IsUsable k now type plain s row =
    Member row s.email_tokens
    × ((row.token_hash ≡ k.hash_token (trim plain))
        × ((same_type row.token_type type ≡ true)
            × ((row.used_at ≡ none) × (now ≤ row.expires_at))))

is_unused-none : (at : Option ℕ) → is_unused at ≡ true → at ≡ none
is_unused-none none h = refl
is_unused-none (some at) h = cc

module _ (db : Client) (k : Crypto) where
  pub load-Ends :
      (now : ℕ) (type : TokenType) (plain : Text) (s : Store)
      → Ends (IsUsable k now type plain s) (load_email_token db k now type plain s)
  unfolding load_email_token
  load-Ends now type plain s = Ends-bind λ t found. Ends-bind λ _ typed. Ends-bind λ _ unused.
      Ends-bind λ _ in_time.
        let (has, m) =
          db.find_first-some (has_hash (k.hash_token (trim plain))) s.email_tokens t
            (or_throw-ok _ _ found) in
        let open_row = require-ok _ _ unused in
        let late = require-ok _ _ in_time in
        answers (
          m,
          (
            same_text_sound t.token_hash (k.hash_token (trim plain)) has,
            (require-ok _ _ typed, (is_unused-none t.used_at open_row, ground (arith, late))),
          ),
        )

  pub consume-refused :
      (now : ℕ) (type : TokenType) (plain : Text) (s : Store) (e : AuthError)
      → load_email_token db k now type plain s ≡ err e
      → consume_auth_token db k now type plain s ≡ (err e, s)
  unfolding consume_auth_token next
  consume-refused now type plain s e h = rw (consume_auth_token, h) refl

  pub consume-accepted :
      (now : ℕ) (type : TokenType) (plain : Text) (s : Store) (row : EmailToken)
      → load_email_token db k now type plain s ≡ ok row
      → consume_auth_token db k now type plain s
        ≡ (ok row, update_email_tokens db (λ t. t.id == row.id) (mark_used now) s)
  unfolding consume_auth_token next
  consume-accepted now type plain s row h = rw (consume_auth_token, h) refl

  -- A consumed link was loaded.
  pub consume-loaded :
      (now : ℕ) (type : TokenType) (plain : Text) (s : Store) (row : EmailToken)
      → (consume_auth_token db k now type plain s).0 ≡ ok row
      → load_email_token db k now type plain s ≡ ok row
  consume-loaded now type plain s row h = go (load_email_token db k now type plain s) refl
    where
      go :
          (r : Result AuthError EmailToken)
          → load_email_token db k now type plain s ≡ r
          → load_email_token db k now type plain s ≡ ok row
      go (err e) l =
          let k : Path (Result AuthError EmailToken) (err e) (ok row) =
            sym (ap (λ a. a.0) (consume-refused now type plain s e l)) ∙ h in
          cc
      go (ok t) l = l ∙ sym (ap (λ a. a.0) (consume-accepted now type plain s t l)) ∙ h

  load-spent :
      (now : ℕ) (type : TokenType) (plain : Text) (s : Store)
      → IsSpent (k.hash_token (trim plain)) s.email_tokens
      → (e : AuthError) × (load_email_token db k now type plain s ≡ err e)
  load-spent now type plain s h = go (load_email_token db k now type plain s) refl
    where
      go :
          (r : Result AuthError EmailToken)
          → load_email_token db k now type plain s ≡ r
          → (e : AuthError) × (load_email_token db k now type plain s ≡ err e)
      go (err e) l = (e, l)
      go (ok t) l =
          let (m, (hash, (_, (unused, _)))) = Ends-ok (load-Ends now type plain s) l in
          let used : is_unused t.used_at ≡ false =
            All-Member _ s.email_tokens h m
              (rw hash (same_text_refl (k.hash_token (trim plain)))) in
          let open_row : is_unused t.used_at ≡ true = ap is_unused unused in
          absurd (ground (arith, used, open_row))

  -- Of the links with one hash the consumed one is the only one.
  consume-IsSpent :
      (now : ℕ) (hash : Text) (row : EmailToken) (s : Store)
      → row.token_hash ≡ hash
      → Member row s.email_tokens
      → ((a b : EmailToken)
          → Member a s.email_tokens
          → Member b s.email_tokens
          → a.token_hash ≡ b.token_hash
          → a.id ≡ b.id)
      → IsSpent hash (update_email_tokens db (λ t. t.id == row.id) (mark_used now) s).email_tokens
  unfolding update_email_tokens
  consume-IsSpent now hash row s equal_hash m unique =
      rw (db.update_many_rows (λ t. t.id == row.id) (mark_used now) s.email_tokens) (
        Member-All _ (update_rows (λ t. t.id == row.id) (mark_used now) s.email_tokens) λ t n has.
          elim (Member-update_rows (λ t. t.id == row.id) (mark_used now) s.email_tokens t n) [
            | inl (x, (_, (_, e))) ↦ ap (λ r. is_unused r.used_at) e
            | inr (old, other) ↦
                let equal =
                  unique t row old m (same_text_sound t.token_hash hash has ∙ sym equal_hash) in
                absurd (ground (arith, equal, other))
          ])

  -- A link that has been consumed is never accepted again, by whatever type it is asked for, after any
  -- sequence of requests that draws no other token with its hash, when the hashes of the links were
  -- distinct.
  pub consume-once :
      (now : ℕ) (type : TokenType) (plain : Text) (s : Store) (row : EmailToken) (cs : List Call)
      (later : ℕ) (asked : TokenType)
      → ((a b : EmailToken)
          → Member a s.email_tokens
          → Member b s.email_tokens
          → a.token_hash ≡ b.token_hash
          → a.id ≡ b.id)
      → (consume_auth_token db k now type plain s).0 ≡ ok row
      → All (DrawsOf (IsOther k (k.hash_token (trim plain)))) cs
      → let after = run db k cs (consume_auth_token db k now type plain s).1 in
        (e : AuthError) × (consume_auth_token db k later asked plain after ≡ (err e, after))
  consume-once now type plain s row cs later asked unique h others =
      let hash = k.hash_token (trim plain) in
      let consumed = (consume_auth_token db k now type plain s).1 in
      let loaded = consume-loaded now type plain s row h in
      let (m, (same_hash, _)) = Ends-ok (load-Ends now type plain s) loaded in
      let spent : IsSpent hash consumed.email_tokens =
        rw (consume-accepted now type plain s row loaded)
          (consume-IsSpent now hash row s same_hash m unique) in
      let changes =
        run-Changes db k (IsOther k hash) consumed.email_tokens cs consumed others same in
      let (e, refused) =
        load-spent later asked plain (run db k cs consumed)
          (Changes-IsSpent k hash changes spent) in
      (e, consume-refused later asked plain (run db k cs consumed) e refused)
