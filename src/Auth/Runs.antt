-- ===== src/Auth/Runs.antt =====
-- auth.service.ts: any sequence of requests, and what it does to the links.
use micro_saas_api.Base.{
  zero, suc, ℕ, ◌≡◌, inl, inr, refl, Bool, List, [], ◌∷◌, ◌++◌, Option, none, some, Bool-cases, All,
  ◌==◌, Result, ok, err,
}
use micro_saas_api.Text.{Text}
use micro_saas_api.Database.{Client}
use micro_saas_api.Database.Rows.{update_rows}
use micro_saas_api.Auth.{
  User, TokenType, email_verification, password_reset, EmailToken, Store, AuthError, Crypto, Draw,
  is_unused, Answer, next,
}
use micro_saas_api.Auth.Tokens.{
  is_open, mark_used, update_email_tokens, new_email_token, issue_auth_token, consume_auth_token,
  create_token,
}
use micro_saas_api.Auth.Calls.{
  Registration, Draws, register, finish_login, login, logout, issue_to, forgot_password,
  reset_password, verify_email, resend_verification, update_user,
}
use micro_saas_api.Auth.Guard.{can_activate}

-- The requests that the service answers. The key of an access token and the row of the user come from
-- the guard.
pub data Call : Type 0 where
  registers : (now trial_end : ℕ) → Draws → Registration → Call
  logs_in : (must_verify : Bool) (now : ℕ) → Draw → (email password : Text) → Call
  logs_out : Option ℕ → Call
  forgets : (now : ℕ) → Draw → (email : Text) → Call
  resets : (now : ℕ) (token password : Text) (confirmation : Option Text) → Call
  verifies : (now : ℕ) (token : Text) → Call
  resends : (now : ℕ) → Draw → User → Call
  uses : (now : ℕ) (header : Option Text) → Call

module _ (db : Client) (k : Crypto) where
  abbrev pub run_call : Call → Store → Store
  run_call (registers now trial_end draws r) s = (register db k now trial_end draws r s).1
  run_call (logs_in must_verify now draw email password) s =
      (login db k must_verify now draw email password s).1
  run_call (logs_out id) s = logout id s
  run_call (forgets now draw email) s = forgot_password db k now draw email s
  run_call (resets now token password confirmation) s =
      (reset_password db k now token password confirmation s).1
  run_call (verifies now token) s = (verify_email db k now token s).1
  run_call (resends now draw user) s = resend_verification db k now draw user s
  run_call (uses now header) s = (can_activate db k now header s).1

  abbrev pub run : List Call → Store → Store
  run [] s = s
  run (c ∷ cs) s = run cs (run_call c s)

-- The draws of a call.
abbrev pub DrawsOf {ℓ} : (Draw → Type ℓ) → Call → Type ℓ
DrawsOf Q (registers now trial_end draws r) = Q draws.verify
DrawsOf Q (forgets now draw email) = Q draw
DrawsOf Q (resends now draw user) = Q draw
DrawsOf Q _ = Unit

-- What happens to the links: some are marked as used, or one is added after the open ones of its user
-- and type are closed. `Q` holds of what is drawn for the new ones.
pub data Changes {ℓ} (k : Crypto) (Q : Draw → Type ℓ) (xs : List EmailToken)
    : List EmailToken → Type ℓ where
  same : Changes k Q xs xs
  closes :
      {ys : List EmailToken} (p : EmailToken → Bool) (now : ℕ)
      → Changes k Q xs ys
      → Changes k Q xs (update_rows p (mark_used now) ys)
  issues :
      {ys : List EmailToken} (now user_id : ℕ) (type : TokenType) (draw : Draw)
      → Q draw
      → Changes k Q xs ys
      → Changes k Q xs (
          update_rows (is_open user_id type) (mark_used now) ys
          ++ new_email_token k now user_id type draw ∷ [])

pub next-store {ℓ κ μ} :
    {A : Type ℓ} {B : Type κ} (P : Store → Type μ) (r : Result AuthError A) (s : Store)
    (go : A → Answer B)
    → P s
    → ((a : A) → r ≡ ok a → P (go a).1)
    → P (next r s go).1
unfolding next
next-store P (err e) s go p h = p
next-store P (ok a) s go p h = h a refl

module _ {ℓ} (db : Client) (k : Crypto) (Q : Draw → Type ℓ) (xs : List EmailToken) where
  -- The links of a store have come from `xs`.
  abbrev From : Store → Type ℓ
  From s = Changes k Q xs s.email_tokens

  update-From :
      (p : EmailToken → Bool) (now : ℕ) (s : Store)
      → From s
      → From (update_email_tokens db p (mark_used now) s)
  unfolding update_email_tokens
  update-From p now s h = rw (db.update_many_rows p (mark_used now) s.email_tokens) (closes p now h)

  issue-From :
      (now user_id : ℕ) (type : TokenType) (draw : Draw) (s : Store)
      → Q draw
      → From s
      → From (issue_auth_token db k now user_id type draw s)
  unfolding issue_auth_token update_email_tokens
  issue-From now user_id type draw s q h =
      rw (db.update_many_rows (is_open user_id type) (mark_used now) s.email_tokens)
        (issues now user_id type draw q h)

  consume-From :
      (now : ℕ) (type : TokenType) (plain : Text) (s : Store)
      → From s
      → From (consume_auth_token db k now type plain s).1
  unfolding consume_auth_token
  consume-From now type plain s h =
      next-store From _ s _ h (λ row _. update-From (λ t. t.id == row.id) now s h)

  issue_to-From :
      (now : ℕ) (type : TokenType) (draw : Draw) (s : Store) (u : Option User)
      → Q draw
      → From s
      → From (issue_to db k now type draw s u)
  issue_to-From now type draw s none q h = h
  issue_to-From now type draw s (some u) q h = issue-From now u.id type draw s q h

  run_call-From : (c : Call) (s : Store) → DrawsOf Q c → From s → From (run_call db k c s)
  unfolding register login finish_login create_token logout forgot_password reset_password
      verify_email resend_verification can_activate update_user
  run_call-From (registers now trial_end draws r) s q h =
      next-store From _ s _ h (λ _ _. issue-From now _ _ draws.verify _ q h)
  run_call-From (logs_in must_verify now draw email password) s q h =
      next-store From _ s _ h (λ user _. next-store From _ s _ h (λ _ _. h))
  run_call-From (logs_out none) s q h = h
  run_call-From (logs_out (some zero)) s q h = h
  run_call-From (logs_out (some (suc n))) s q h = h
  run_call-From (forgets now draw email) s q h = issue_to-From now _ draw s _ q h
  run_call-From (resets now token password confirmation) s q h =
      let consumed = consume-From now password_reset token s h in
      next-store From _ s _ h (λ _ _.
        next-store From _ _ _ consumed
          (λ row _. update-From (is_open row.user_id password_reset) now _ consumed))
  run_call-From (verifies now token) s q h =
      let consumed = consume-From now email_verification token s h in
      next-store From _ _ _ consumed
        (λ row _. update-From (is_open row.user_id email_verification) now _ consumed)
  run_call-From (resends now draw user) s q h =
      elim (Bool-cases (is_unused user.email_verified_at)) [
        | inl y ↦ rw (run_call, resend_verification, y) (issue-From now user.id _ draw s q h)
        | inr n ↦ rw (run_call, resend_verification, n) h
      ]
  run_call-From (uses now header) s q h = next-store From _ s _ h (λ _ _. h)

  pub run-Changes :
      (cs : List Call) (s : Store)
      → All (DrawsOf Q) cs
      → Changes k Q xs s.email_tokens
      → Changes k Q xs (run db k cs s).email_tokens
  run-Changes [] s q h = h
  run-Changes (c ∷ cs) s (q, qs) h = run-Changes cs (run_call db k c s) qs (run_call-From c s q h)
