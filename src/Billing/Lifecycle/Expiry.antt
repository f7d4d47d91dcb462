-- ===== src/Billing/Lifecycle/Expiry.antt =====
-- subscription-lifecycle.service.ts: the access window, and the expiry.
use micro_saas_api.Base.{
  ℕ, ◌≡◌, ◌≤◌, ◌<◌, ◌⊎◌, inl, inr, refl, false, Option, none, some, Option-cases, arith,
}
use micro_saas_api.Billing.Lifecycle.{
  User, Window, trial_window, subscription_window, window, is_pending, resolve_access_window,
  ended_at, resolve_expired_at,
}

access-later :
    (u : User) (now : ℕ) (w : Window) → resolve_access_window u now ≡ some w → now < w.ends_at
unfolding resolve_access_window
access-later u now w h = elim (Option-cases u.current_period_end) [
  | inl e ↦ ground (arith, e)
  | inr (p, e) ↦ ground (arith, e)
]

-- Without access neither the trial nor, for a status that keeps it, the paid period runs.
no_access-trial :
    (u : User) (now : ℕ)
    → is_pending u.status ≡ false
    → resolve_access_window u now ≡ none
    → u.trial_ends_at ≤ now
unfolding resolve_access_window
no_access-trial u now h k = elim (Option-cases u.current_period_end) [
  | inl e ↦ ground (arith, e)
  | inr (p, e) ↦ ground (arith, e)
]

-- Without access there is none later, whatever the status but one of a pending payment becomes.
pub no_access-later :
    (u : User) (now later : ℕ)
    → now ≤ later
    → is_pending u.status ≡ false
    → resolve_access_window u now ≡ none
    → resolve_access_window u later ≡ none
unfolding resolve_access_window
no_access-later u now later le h k = elim (Option-cases u.current_period_end) [
  | inl e ↦ ground (arith, e)
  | inr (p, e) ↦ ground (arith, e)
]

ended_at_lem : (now p : ℕ) (o : Option ℕ) → ended_at now o ≡ some p → p ≤ now
ended_at_lem now p none h = cc
ended_at_lem now p (some e) h = ground arith

expiry :
    (u : User) (now : ℕ)
    → is_pending u.status ≡ false
    → resolve_access_window u now ≡ none
    → (w : Window) × ((w.ends_at ≤ now) × (resolve_expired_at u now ≡ some w))
unfolding resolve_expired_at
expiry u now h k = elim (Option-cases (ended_at now u.current_period_end)) [
  | inl e ↦ (
    window u.trial_ends_at trial_window,
    (no_access-trial u now h k, ground (arith, k, e, no_access-trial u now h k)),
  )
  | inr (p, e) ↦ (
    window p subscription_window,
    (ended_at_lem now p u.current_period_end e, ground (arith, k, e)),
  )
]

-- A user whose payment is not being verified either has an access window, which ends later, and no
-- expiry, or has no access window and an expiry that is past.
pub access_or_expired :
    (u : User) (now : ℕ)
    → is_pending u.status ≡ false
    → ((w : Window) × ((resolve_access_window u now ≡ some w)
          × ((now < w.ends_at) × (resolve_expired_at u now ≡ none))))
      ⊎ ((w : Window) × ((resolve_access_window u now ≡ none)
            × ((w.ends_at ≤ now) × (resolve_expired_at u now ≡ some w))))
unfolding resolve_expired_at
access_or_expired u now h = elim (Option-cases (resolve_access_window u now)) [
  | inr (w, e) ↦ inl (w, (e, (access-later u now w e, rw (e, resolve_expired_at) refl)))
  | inl e ↦ let (w, (past, f)) = expiry u now h e in inr (w, (e, (past, f)))
]
