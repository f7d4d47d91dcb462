-- ===== src/Billing/ManualPayments/Stale/Sweep.antt =====
-- manual-payment-expiry.service.ts: a sweep, one submission after the other.
use micro_saas_api.Base.{
  ◌≤◌, ℕ, ◌≡◌, ◌≢◌, inl, inr, refl, sym, subst, ap, ◌∙◌, Bool, true, false, List, [], ◌∷◌, length,
  filter, Member, here, there, Bool-cases, Option-cases, arith, All, All-Member, ◌==◌,
}
use micro_saas_api.Base.{All-map, All-filter}
use micro_saas_api.Database.{Client}
use micro_saas_api.Database.Rows.{update_rows}
use micro_saas_api.Billing.Access.{Account}
use micro_saas_api.Billing.ManualPayments.{Submission, Ledger, is_pending, turn_down, expire_row}
use micro_saas_api.Billing.ManualPayments.Calls.{update_submission}
use micro_saas_api.Billing.ManualPayments.Reach.{settle_account-submissions}
use micro_saas_api.Billing.ManualPayments.Backed.Calls.{turn_down-Releases}
use micro_saas_api.Billing.ManualPayments.Expiry.{
  waits, settle_account, is_other_pending, expire_found, is_open, expire_submission, expire_each,
  is_swept, expire_stale_for_user,
}
use micro_saas_api.Billing.ManualPayments.Stale.{
  IsSound, Stands, IsExpired, expire_row-IsExpired, nothing-IsExpired, account_kept,
}

All-tabulate :
    (P : Submission → Type 0) (xs : List Submission)
    → ((x : Submission) → Member x xs → P x)
    → All P xs
All-tabulate P [] f = tt
All-tabulate P (x ∷ xs) f = (f x (here refl), All-tabulate P xs (λ y m. f y (there m)))

All-filter-Member :
    (P : Submission → Type 0) (p : Submission → Bool) (xs : List Submission) {q : Submission}
    → All P (filter p xs)
    → Member q xs
    → p q ≡ true
    → P q
All-filter-Member P p [] a m h = elim m [ ]
All-filter-Member P p (x ∷ xs) a (here e) h =
    let passes : p x ≡ true = ap p e ∙ h in
    let first : P x × All P (filter p xs) = rw passes at a in subst P e first.0
All-filter-Member P p (x ∷ xs) a (there m) h = elim (Bool-cases (p x)) [
  | inl y ↦ let both : P x × All P (filter p xs) = rw y at a in All-filter-Member P p xs both.1 m h
  | inr n ↦ All-filter-Member P p xs (rw n at a) m h
]

module _ (db : Client) where
  settle_account-payer :
      (now : ℕ) (p : Submission) (u : Account) (l : Ledger) (payer : ℕ)
      → (v : Account) × (Member v l.accounts × (v.id ≡ payer))
      → (v : Account) × (Member v (settle_account db now p u l).accounts × (v.id ≡ payer))
  settle_account-payer now p u l payer a = elim (Bool-cases (waits p.product u)) [
    | inr n ↦ rw n a
    | inl y ↦ elim (Bool-cases (length (filter (is_other_pending p) l.submissions) == 0)) [
      | inr z ↦ rw (y, z) a
      | inl z ↦
          let f = turn_down p.product p.plan now in
          let kept =
            account_kept f l.accounts p.user_id payer
              (turn_down-Releases p.product p.plan now).keeps_id a in
          let written = db.update_many_rows (λ (v : Account). v.id == p.user_id) f l.accounts in
          rw (y, z)
            (subst (λ us. (v : Account) × (Member v us × (v.id ≡ payer))) (sym written) kept)
    ]
  ]

  expire_submission-IsExpired :
      (now : ℕ) (p : Submission) (l : Ledger)
      → IsSound l
      → Stands p l
      → IsExpired p.id l (expire_submission db now p.product p.id l).1
  unfolding expire_submission expire_found
  expire_submission-IsExpired now p l h s =
      elim (Option-cases (db.find_first (is_open p.product p.id) l.submissions)) [
        | inl n ↦ rw n (nothing-IsExpired p l h s (db.find_first-none _ l.submissions n))
        | inr (r, f) ↦
            elim (Option-cases (db.find_first (λ (u : Account). u.id == r.user_id) l.accounts)) [
              | inl n ↦
                  let (open_row, listed) =
                    db.find_first-some (is_open p.product p.id) l.submissions r f in
                  let (u, (mu, e)) = h.payers r listed in
                  absurd (
                    ground (
                      arith,
                      e,
                      All-Member (λ (z : Account). (z.id == r.user_id) ≡ false) l.accounts
                          (db.find_first-none _ l.accounts n) mu,
                    ))
              | inr (u, g) ↦
                  let (open_row, listed) =
                    db.find_first-some (is_open p.product p.id) l.submissions r f in
                  let same : r.id ≡ p.id = ground (arith, open_row) in
                  let m = settle_account db now r u (update_submission db r.id expire_row l) in
                  let rows : m.submissions
                      ≡ update_rows (λ z. z.id == r.id) expire_row l.submissions =
                    settle_account-submissions db now r u (update_submission db r.id expire_row l)
                    ∙ db.update_many_rows (λ (z : Submission). z.id == r.id) expire_row
                        l.submissions in
                  rw (f, g)
                    (subst (λ i. IsExpired i l m) same
                      (expire_row-IsExpired r.id l m h rows
                        (settle_account-payer now r u (update_submission db r.id expire_row l))))
            ]
      ]

  expire_each-left :
      (now : ℕ) (ps : List Submission) (l : Ledger)
      → IsSound l
      → All (λ p. Stands p l) ps
      → (q : Submission) → Member q (expire_each db now ps l).1.submissions
      → is_pending q.status ≡ true
      → Member q l.submissions × All (λ p. q.id ≢ p.id) ps
  unfolding expire_each
  expire_each-left now [] l h s q m w = (m, tt)
  expire_each-left now (p ∷ ps) l h (s, ss) q m w =
      let x = expire_submission-IsExpired now p l h s in
      let next = (expire_submission db now p.product p.id l).1 in
      let (listed, others) =
        expire_each-left now ps next x.sound
          (All-map (λ r. Stands r l) (λ r. Stands r next) ps x.stands ss) q m w in
      let (before, differs) = x.left q listed w in (before, (differs, others))

  -- After the sweep of a user no submission of the user for the platform or the website is pending
  -- that was made before the cutoff, where submissions have their keys and their payers' accounts are
  -- there.
  pub expire_stale-none_left :
      (user_id now cutoff : ℕ) (l : Ledger)
      → IsSound l
      → (q : Submission) → Member q (expire_stale_for_user db user_id now cutoff l).1.submissions
      → q.user_id ≡ user_id
      → is_pending q.status ≡ true
      → cutoff ≤ q.created_at
  unfolding expire_stale_for_user
  expire_stale-none_left user_id now cutoff l h q m own w =
      elim (Bool-cases (is_swept user_id cutoff q)) [
        | inr n ↦ ground (arith, n, own, w)
        | inl y ↦
            let all_stand =
              All-tabulate (λ r. Stands r l) l.submissions
                (λ r k. record { row = r; listed = k; same_id = refl; same_buys = refl }) in
            let (before, differs) =
              expire_each-left now (filter (is_swept user_id cutoff) l.submissions) l h
                (All-filter (λ r. Stands r l) (is_swept user_id cutoff) l.submissions all_stand) q m
                w in
            absurd (
              All-filter-Member (λ r. q.id ≢ r.id) (is_swept user_id cutoff) l.submissions differs
                before y refl)
      ]
