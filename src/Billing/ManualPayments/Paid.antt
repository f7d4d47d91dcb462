-- ===== src/Billing/ManualPayments/Paid.antt =====
-- manual-payment.service.ts and billing.service.ts: what an approval gives the tenant.
use micro_saas_api.Base.{
  ℕ, ◌≡◌, ◌<◌, inl, inr, refl, sym, subst, ap, ◌∙◌, Bool, true, List, [], ◌∷◌, Option, none, some,
  Bool-cases, arith, All, ◌==◌, Result, ok, err,
}
use micro_saas_api.Database.{Client}
use micro_saas_api.Database.Rows.{update_rows}
use micro_saas_api.Billing.Access.{Plan, Account, Settings, resolve_status, resolve_website_status}
use micro_saas_api.Billing.ManualPayments.{
  Product, platform, website, Submission, Ledger, PaymentError, Outcome, activate,
}
use micro_saas_api.Billing.ManualPayments.Calls.{
  checked, load_approvable, finish_approval, approve_submission, update_account,
}

-- The access that a product needs.
abbrev pub may_use : Settings → Product → Account → ℕ → Bool
may_use s platform u now = (resolve_status s u now).has_access
may_use s website u now = (resolve_website_status s u now).has_access

activate-may_use :
    (s : Settings) (product : Product) (plan : Plan) (end now : ℕ) (u : Account)
    → now < end
    → may_use s product (activate product plan end u) now ≡ true
unfolding resolve_status resolve_website_status
activate-may_use s platform plan end now u lt = ground (arith, lt)
activate-may_use s website plan end now u lt = ground (arith, lt)

-- The accounts of the payer after an update by id.
update-may_use :
    (s : Settings) (p : Submission) (end now : ℕ) (us : List Account)
    → now < end
    → All
        (λ u. (u.id == p.user_id) ≡ true → may_use s p.product u now ≡ true)
        (update_rows (λ u. u.id == p.user_id) (activate p.product p.plan end) us)
update-may_use s p end now [] lt = tt
update-may_use s p end now (u ∷ us) lt = elim (Bool-cases (u.id == p.user_id)) [
  | inl e ↦
      rw e
        ((λ _. activate-may_use s p.product p.plan end now u lt), update-may_use s p end now us lt)
  | inr e ↦ rw e ((λ h. ground (arith, e, h)), update-may_use s p end now us lt)
]

checked-answer :
    (r : Result PaymentError Submission) (l : Ledger) (go : Submission → Outcome)
    → (checked r l go).answer ≡ ok tt
    → (p : Submission) × ((r ≡ ok p)
        × (((go p).answer ≡ ok tt) × ((go p).ledger ≡ (checked r l go).ledger)))
unfolding checked
checked-answer (err e) l go h = cc
checked-answer (ok p) l go h = (p, (refl, (h, refl)))

finish_approval-accounts :
    (db : Client) (admin now : ℕ) (txn : Option ℕ) (p : Submission) (l : Ledger)
    → (finish_approval db admin now txn p l).ledger.accounts ≡ l.accounts
unfolding finish_approval
finish_approval-accounts db admin now none p l = refl
finish_approval-accounts db admin now (some t) p l = refl

-- An approval that answers has found an approvable submission, and every account of its payer may
-- then use the product that was paid for, at any time before the end of the new period and with any
-- configuration.
pub approve_submission-may_use :
    (db : Client) (s : Settings) (period_end : Plan → ℕ) (admin now later : ℕ) (txn : Option ℕ)
    (id : ℕ) (l : Ledger)
    → ((plan : Plan) → later < period_end plan)
    → (approve_submission db period_end admin now txn id l).answer ≡ ok tt
    → (p : Submission) × ((load_approvable db id l ≡ ok p)
        × All
            (λ (u : Account). (u.id == p.user_id) ≡ true → may_use s p.product u later ≡ true)
            (approve_submission db period_end admin now txn id l).ledger.accounts)
unfolding approve_submission
approve_submission-may_use db s period_end admin now later txn id l lt h =
    let (p, (loaded, (_, same))) = checked-answer (load_approvable db id l) l _ h in
    let paid = activate p.product p.plan (period_end p.plan) in
    let kept = finish_approval-accounts db admin now txn p (update_account db p.user_id paid l) in
    (
      p,
      (
        loaded,
        subst
            (λ us.
              All (λ (u : Account). (u.id == p.user_id) ≡ true → may_use s p.product u later ≡ true)
                us)
            (sym (db.update_many_rows (λ u. u.id == p.user_id) paid l.accounts)
              ∙ sym kept
              ∙ ap (λ z. z.accounts) same)
            (update-may_use s p (period_end p.plan) later l.accounts (lt p.plan)),
      ),
    )
