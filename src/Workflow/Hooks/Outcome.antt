-- ===== src/Workflow/Hooks/Outcome.antt =====
-- workflow-webhook.controller.ts: what a call does, on every branch.
use micro_saas_api.Base.{
  ap, false, Option, none, some, [], ◌∷◌, ◌++◌, ℕ, ◌≡◌, inl, inr, refl, true, List, Member,
  Bool-cases, Option-cases, arith, ◌==◌,
}
use micro_saas_api.Text.{Text}
use micro_saas_api.Text.Laws.{same_text_sound}
use micro_saas_api.Database.{Client}
use micro_saas_api.Common.WebhookClaims.{Event}
use micro_saas_api.Billing.Access.{Account, Settings, has_platform_access}
use micro_saas_api.Workflow.Hooks.{
  Hook, Invocation, Tables, Response, started, is_hook, holds_token, claim_invocation, invoke_for,
  invoke_found, invoke,
}

-- The workflow answers to the token: it has it, is published and active, starts by a webhook, and is not
-- archived.
pub record AnswersTo (token : Text) (w : Hook) : Type 0 where
  pub has_it : w.webhook_token ≡ some token
  pub is_published : w.published ≡ true
  pub runs : w.is_active ≡ true
  pub by_webhook : w.has_webhook ≡ true
  pub kept : w.is_archived ≡ false

-- A workflow that answers to the token, of a user with access, has one more execution, which is queued.
abbrev pub IsStarted : Settings → ℕ → Text → Tables → ℕ → Tables → Type 0
IsStarted s now token t id after =
    (w : Hook) × (Member w t.hooks
      × (AnswersTo token w
          × ((u : Account) × (Member u t.accounts
                × ((u.id ≡ w.user_id)
                    × ((has_platform_access s u now ≡ true)
                        × ((after.board.executions
                              ≡ t.board.executions
                                ++ record {
                                  id = id;
                                  user_id = w.user_id;
                                  workflow_id = w.id;
                                  created_at = now;
                                }
                                  ∷ [])
                            × (after.board.queue ≡ t.board.queue ++ id ∷ []))))))))

-- What an answer says of the tables before and after.
abbrev pub HasInvoked : Settings → ℕ → Text → Tables → Response → Tables → Type 0
HasInvoked s now token t (started id) after =
    (id ≡ t.board.next_id) × IsStarted s now token t id after
HasInvoked s now token t _ after = after.board ≡ t.board

token_of : (token : Text) (o : Option Text) → holds_token token o ≡ true → o ≡ some token
token_of token none h = cc
token_of token (some x) h = ap (λ y. some y) (same_text_sound x token h)

is_hook-AnswersTo : (token : Text) (w : Hook) → is_hook token w ≡ true → AnswersTo token w
is_hook-AnswersTo token w h = record {
  has_it = token_of token w.webhook_token (ground (arith, h));
  is_published = ground (arith, h);
  runs = ground (arith, h);
  by_webhook = ground (arith, h);
  kept = ground (arith, h);
}

module _ (db : Client) (s : Settings) where
  abbrev Holds : ℕ → Text → Tables → Response × Tables → Type 0
  Holds now token t r = HasInvoked s now token t r.0 r.1

  invoke_for-Holds :
      (now : ℕ) (token : Text) (w : Hook) (t : Tables) (events : List Event)
      → Member w t.hooks
      → is_hook token w ≡ true
      → Holds now token t (
          invoke_for db s now w
            (db.find_first (λ (u : Account). u.id == w.user_id) t.accounts)
            (record t { events = events }))
  unfolding invoke_for
  invoke_for-Holds now token w t events m h =
      elim (Option-cases (db.find_first (λ (u : Account). u.id == w.user_id) t.accounts)) [
        | inl n ↦ rw n refl
        | inr (u, f) ↦
            let (p, i) = db.find_first-some (λ (x : Account). x.id == w.user_id) t.accounts u f in
            let owner : u.id ≡ w.user_id = ground (arith, p) in
            rw f (elim (Bool-cases (has_platform_access s u now)) [
              | inl y ↦
                  rw (invoke_for, y)
                    (
                      refl,
                      (w, (m, (is_hook-AnswersTo token w h, (u, (i, (owner, (y, (refl, refl)))))))),
                    )
              | inr n ↦ rw (invoke_for, n) refl
            ])
      ]

  invoke_found-Holds :
      (now : ℕ) (token : Text) (t : Tables) (events : List Event)
      → Holds now token t (
          invoke_found db s now
            (db.find_first (is_hook token) t.hooks)
            (record t { events = events }))
  unfolding invoke_found
  invoke_found-Holds now token t events =
      elim (Option-cases (db.find_first (is_hook token) t.hooks)) [
        | inl n ↦ rw n refl
        | inr (w, f) ↦
            let (p, m) = db.find_first-some (is_hook token) t.hooks w f in
            rw f (invoke_for-Holds now token w t events m p)
      ]

  -- A call that answers with an execution has created it, under the next key, for an active and
  -- published workflow that starts by a webhook, has the call's token and is not archived, and whose
  -- owner has access to the platform; it is queued once. Every other answer leaves the executions and
  -- the queue as they were.
  pub invoke-HasInvoked :
      (now : ℕ) (r : Invocation) (t : Tables)
      → HasInvoked s now r.token t (invoke db s now r t).0 (invoke db s now r t).1
  unfolding invoke
  invoke-HasInvoked now r t = elim (Bool-cases (claim_invocation now r t).is_new) [
    | inl y ↦ rw (invoke, y) (invoke_found-Holds now r.token t (claim_invocation now r t).events)
    | inr n ↦ rw (invoke, n) refl
  ]
