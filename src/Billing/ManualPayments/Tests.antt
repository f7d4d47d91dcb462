-- ===== src/Billing/ManualPayments/Tests.antt =====
-- A tenant who submits a payment, and an admin who approves it.
use micro_saas_api.Base.{
  ◌≤◌, ℕ, ◌≡◌, refl, sym, subst, ap, true, false, [], ◌∷◌, none, some, Member, here, there, arith,
  All, ◌==◌, ok, err, ◌>>=◌,
}
use micro_saas_api.Text.{codes, trim, is_space, is_digit, drop_spaces, same_text}
use micro_saas_api.Database.{list_client}
use micro_saas_api.Billing.Lifecycle.{expired}
use micro_saas_api.Billing.Access.{Plan, monthly, Account, Settings, resolve_status}
use micro_saas_api.Billing.ManualPayments.{
  Product, platform, website, Submission, SubmissionStatus, pending, approved, lapsed, Ledger,
  utr_approved_before,
}
use micro_saas_api.Billing.ManualPayments.Calls.{
  submitted, Submit, check_submit, submit_manual_payment, finish_submit, approve_submission,
  load_approvable, load_pending, checked, finish_approval,
}
use micro_saas_api.Billing.ManualPayments.Expiry.{
  waits, expire_submission, expire_found, expire_each, expire_stale_for_user,
}
use micro_saas_api.Billing.ManualPayments.Stale.{IsSound}
use micro_saas_api.Billing.ManualPayments.Stale.Sweep.{expire_stale-none_left}
use micro_saas_api.Billing.ManualPayments.Backed.{Backing, IsBacked}
use micro_saas_api.Billing.ManualPayments.Backed.Reach.{Reach-IsBacked}
use micro_saas_api.Billing.ManualPayments.Once.{IsOnce}
use micro_saas_api.Billing.ManualPayments.Reach.{
  Reach, start, next, submits, approves, expires, Reach-IsOnce,
}
use micro_saas_api.Billing.ManualPayments.Paid.{may_use, approve_submission-may_use}

abbrev settings : Settings
settings = record {
  enabled = true;
  website_enabled = false;
  upi_enabled = true;
  upi_configured = true;
  is_super_admin = λ s. false;
}

abbrev account : Account
account = record {
  id = 7;
  email = "a@b.c";
  trial_ends_at = 10;
  status = expired;
  plan = none;
  period_end = none;
  cancel_at_period_end = false;
  website_status = expired;
  website_plan = none;
  website_period_end = none;
}

abbrev books : Ledger
books = record { accounts = account ∷ []; submissions = [] }

abbrev payment : Submit
payment = record {
  user_id = 7;
  plan = monthly;
  utr = codes " UTR 12345 ";
  file_size = 1000;
  product = platform;
}

abbrev price : Product → Plan → ℕ
price product plan = 999

abbrev period_end : Plan → ℕ
period_end plan = 200

abbrev submitted_books : Ledger
submitted_books =
    (submit_manual_payment list_client settings price 100 1 (submitted 5) payment books).ledger

abbrev row : ℕ → SubmissionStatus → Submission
row id status = record {
  id = id;
  user_id = 7;
  product = platform;
  plan = monthly;
  amount_inr = 999;
  utr = codes "UTR12345";
  screenshot_token = some 5;
  status = status;
  rejection_reason = none;
  reviewed_by = none;
  reviewed_at = none;
  created_at = 100;
}

submits_compact : submitted_books.submissions ≡ row 1 pending ∷ []
unfolding submit_manual_payment check_submit finish_submit checked ◌>>=◌ trim drop_spaces is_space
    is_digit same_text resolve_status
submits_compact = refl

abbrev approved_books : Ledger
approved_books = (approve_submission list_client period_end 3 150 (some 9) 1 submitted_books).ledger

reached : Reach list_client books approved_books
reached =
    next (next start (submits settings price 100 1 (submitted 5) payment tt))
      (approves period_end 3 150 (some 9) 1)

Reach-IsOnce_example : IsOnce approved_books.submissions
Reach-IsOnce_example =
    Reach-IsOnce list_client books approved_books
      (record { keys = tt; once = λ a b ma mb sa sb ep eu. elim ma [ ] }) reached

abbrev waiting_books : Ledger
waiting_books = record { accounts = account ∷ []; submissions = row 1 pending ∷ [] }

approves_first :
    (approve_submission list_client period_end 3 150 (some 9) 1 waiting_books).answer ≡ ok tt
unfolding approve_submission load_approvable load_pending checked finish_approval ◌>>=◌ same_text
approves_first = refl

-- Another pending submission with the transaction id of an approved one.
refuses_second :
    (approve_submission list_client period_end 3 150
      (some 9)
      2
      (record waiting_books { submissions = row 1 approved ∷ row 2 pending ∷ [] })).answer
    ≡ err utr_approved_before
unfolding approve_submission load_approvable load_pending checked finish_approval ◌>>=◌ same_text
refuses_second = refl

may_use_example :
    (p : Submission) × ((load_approvable list_client 1 waiting_books ≡ ok p)
      × All
          (λ (u : Account). (u.id == p.user_id) ≡ true → may_use settings p.product u 180 ≡ true)
          (approve_submission list_client period_end 3 150
            (some 9)
            1
            waiting_books).ledger.accounts)
may_use_example =
    approve_submission-may_use list_client settings period_end 3 150 180 (some 9) 1 waiting_books
      (λ plan. omega arith) approves_first

nobody_waits :
    (u : Account) (product : Product)
    → Member u books.accounts
    → waits product u ≡ true
    → Backing books.submissions u.id product
nobody_waits u platform (here e) w = absurd (ground (arith, w, ap (λ z. z.status) e))
nobody_waits u website (here e) w = absurd (ground (arith, w, ap (λ z. z.website_status) e))
nobody_waits u product (there m) w = elim m [ ]

-- A submission that lapses, and its account, whose trial is over.
lapsed_books : (expire_submission list_client 900 platform 1 submitted_books) ≡ (
  true,
  record {
    accounts = record account { status = expired; plan = some monthly } ∷ [];
    submissions = row 1 lapsed ∷ [];
  },
)
unfolding submit_manual_payment check_submit finish_submit checked ◌>>=◌ trim drop_spaces is_space
    is_digit same_text resolve_status expire_submission expire_found
lapsed_books = refl

Reach-IsBacked_example : IsBacked (expire_submission list_client 900 platform 1 submitted_books).1
Reach-IsBacked_example =
    Reach-IsBacked list_client books
      (expire_submission list_client 900 platform 1 submitted_books).1
      (record { account_keys = (tt, tt); submission_keys = tt; backed = nobody_waits })
      (next (next start (submits settings price 100 1 (submitted 5) payment tt))
        (expires 900 platform 1))

abbrev late : Submission
late = record (row 2 pending) { created_at = 200 }

abbrev two_payments : Ledger
two_payments = record waiting_books { submissions = row 1 pending ∷ late ∷ [] }

swept :
    expire_stale_for_user list_client 7 900 150 two_payments
    ≡ (1, record two_payments { submissions = row 1 lapsed ∷ late ∷ [] })
unfolding expire_stale_for_user expire_each expire_submission expire_found
swept = refl

two_payments-IsSound : IsSound two_payments
two_payments-IsSound = record { keys = (((λ h. omega arith), tt), (tt, tt)); payers = paid_by }
  where
    paid_by :
        (p : Submission)
        → Member p two_payments.submissions
        → (u : Account) × (Member u two_payments.accounts × (u.id ≡ p.user_id))
    paid_by p (here e) = (account, (here refl, ap (λ z. z.user_id) e))
    paid_by p (there (here e)) = (account, (here refl, ap (λ z. z.user_id) e))
    paid_by p (there (there m)) = elim m [ ]

expire_stale-none_left_example : 150 ≤ 200
expire_stale-none_left_example =
    expire_stale-none_left list_client 7 900 150 two_payments two_payments-IsSound late
      (subst (λ r. Member late r.1.submissions) (sym swept) (there (here refl))) refl refl
