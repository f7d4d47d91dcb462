-- ===== src/Billing/ManualPayments/Expiry.antt =====
-- modules/billing/manual-payment-expiry.service.ts: submissions that nobody decides lapse. The write
-- of one expiry is a transaction. The sweep of a user reads the user's stale submissions first and
-- expires one after the other. The sweep of all users, which takes the career product along, is left out.
use micro_saas_api.Base.{
  ℕ, ◌+◌, Bool, true, false, not, ◌&&◌, List, [], ◌∷◌, Option, none, some, if◌then◌else◌, length,
  filter, ltb, ◌==◌,
}
use micro_saas_api.Database.{Client}
use micro_saas_api.Billing.Lifecycle.{Status, pending_verification}
use micro_saas_api.Billing.Access.{Account}
use micro_saas_api.Billing.ManualPayments.{
  Product, platform, website, same_product, Submission, Ledger, is_pending, turn_down, expire_row,
}
use micro_saas_api.Billing.ManualPayments.Calls.{update_account, update_submission}

abbrev pub is_waiting : Status → Bool
is_waiting pending_verification = true
is_waiting _ = false

abbrev pub waits : Product → Account → Bool
waits platform u = is_waiting u.status
waits website u = is_waiting u.website_status

-- `where` of the other pending submissions of the same payer for the same product.
abbrev pub is_other_pending : Submission → Submission → Bool
is_other_pending p q =
    q.user_id == p.user_id
    && same_product q.product p.product
    && is_pending q.status
    && not (q.id == p.id)

-- `where` of the pending submission that `expireSubmission` and `expireWebsiteSubmission` look for.
abbrev pub is_open : Product → ℕ → Submission → Bool
is_open product id p = p.id == id && same_product p.product product && is_pending p.status

-- `where` of the submissions that the sweep reads, apart from the user.
abbrev pub is_stale : ℕ → Submission → Bool
is_stale cutoff p = is_pending p.status && ltb p.created_at cutoff

abbrev pub is_swept : ℕ → ℕ → Submission → Bool
is_swept user_id cutoff p = p.user_id == user_id && is_stale cutoff p

module _ (db : Client) where
  -- After the submission has lapsed: an account that waits for it is turned down, unless another
  -- submission of it is pending.
  abbrev pub settle_account : ℕ → Submission → Account → Ledger → Ledger
  settle_account now p u l =
      if waits p.product u
      then (if length (filter (is_other_pending p) l.submissions) == 0
          then update_account db p.user_id (turn_down p.product p.plan now) l
          else l)
      else l

  -- Of a submission that was found, with its payer. A submission has a payer by its foreign key.
  unfoldable pub expire_found : ℕ → Option Account → Submission → Ledger → Bool × Ledger
  expire_found now none p l = (false, l)
  expire_found now (some u) p l =
      (true, settle_account now p u (update_submission db p.id expire_row l))

  abbrev pub expire_first : ℕ → Option Submission → Ledger → Bool × Ledger
  expire_first now none l = (false, l)
  expire_first now (some p) l =
      expire_found now (db.find_first (λ (u : Account). u.id == p.user_id) l.accounts) p l

  unfoldable pub expire_submission : ℕ → Product → ℕ → Ledger → Bool × Ledger
  unfolding expire_found
  expire_submission now product id l =
      expire_first now (db.find_first (is_open product id) l.submissions) l

  unfoldable pub expire_each : ℕ → List Submission → Ledger → ℕ × Ledger
  unfolding expire_submission
  expire_each now [] l = (0, l)
  expire_each now (p ∷ ps) l =
      let one = expire_submission now p.product p.id l in
      let rest = expire_each now ps one.1 in ((if one.0 then 1 + rest.0 else rest.0), rest.1)

  -- expireStaleForUser
  unfoldable pub expire_stale_for_user : ℕ → ℕ → ℕ → Ledger → ℕ × Ledger
  unfolding expire_each
  expire_stale_for_user user_id now cutoff l =
      expire_each now (filter (is_swept user_id cutoff) l.submissions) l
