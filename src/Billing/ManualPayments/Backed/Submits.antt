-- ===== src/Billing/ManualPayments/Backed/Submits.antt =====
-- manual-payment.service.ts: what a submission keeps.
use micro_saas_api.Base.{
  ℕ, ◌≡◌, ◌≢◌, inl, inr, refl, sym, subst, ap, ◌∙◌, true, false, List, [], ◌∷◌, ◌++◌, Bool-cases,
  arith, All, ◌==◌,
}
use micro_saas_api.Database.{Client}
use micro_saas_api.Database.Rows.{
  update_rows, IsKey-append, IsKey-update_rows, Member-update_rows, Member-kept, Member-updated,
  Member-front, Member-last,
}
use micro_saas_api.Billing.Access.{Plan, Account, Settings}
use micro_saas_api.Billing.ManualPayments.{
  Product, platform, website, same_product, Submission, Ledger, is_pending, await_verification,
}
use micro_saas_api.Billing.ManualPayments.Calls.{
  SubmitFate, no_proof, no_token, no_account, submitted, set_token, update_submission, Submit,
  finish_submit, new_submission, submit_manual_payment,
}
use micro_saas_api.Billing.ManualPayments.Expiry.{waits}
use micro_saas_api.Billing.ManualPayments.Backed.{Backing, IsBacked, same_product_sound}
use micro_saas_api.Billing.ManualPayments.Backed.Calls.{
  update_account-rows, update_submission-rows, checked-IsBacked,
}

-- Who waits after `await_verification` waits for its product, or waited before.
await_verification-waits :
    (product r : Product) (plan : Plan) (u : Account)
    → same_product r product ≡ false
    → waits r (await_verification product plan u) ≡ true
    → waits r u ≡ true
await_verification-waits platform platform plan u d w = cc
await_verification-waits platform website plan u d w = w
await_verification-waits website website plan u d w = cc
await_verification-waits website platform plan u d w = w

await_verification-id :
    (product : Product) (plan : Plan) (u : Account) → (await_verification product plan u).id ≡ u.id
await_verification-id platform plan u = refl
await_verification-id website plan u = refl

Backing-append :
    (xs : List Submission) (n : Submission) (id : ℕ) (product : Product)
    → Backing xs id product
    → Backing (xs ++ n ∷ []) id product
Backing-append xs n id product b = record {
  row = b.row;
  listed = Member-front xs (n ∷ []) b.listed;
  payer = b.payer;
  buys = b.buys;
  undecided = b.undecided;
}

IsBacked-append :
    (l : Ledger) (n : Submission)
    → All (λ (p : Submission). p.id ≢ n.id) l.submissions
    → IsBacked l
    → IsBacked (record l { submissions = l.submissions ++ n ∷ [] })
IsBacked-append l n fresh h = record {
  account_keys = h.account_keys;
  submission_keys = IsKey-append (λ p. p.id) l.submissions n h.submission_keys fresh;
  backed = λ u product m w. Backing-append l.submissions n u.id product (h.backed u product m w);
}

-- A change of columns that nobody's backing reads.
record Quiet (g : Submission → Submission) : Type 0 where
  same_id : (p : Submission) → (g p).id ≡ p.id
  same_payer : (p : Submission) → (g p).user_id ≡ p.user_id
  same_buys : (p : Submission) → (g p).product ≡ p.product
  same_status : (p : Submission) → (g p).status ≡ p.status

Backing-update :
    (id : ℕ) (g : Submission → Submission) (xs : List Submission) (user_id : ℕ) (product : Product)
    → Quiet g
    → Backing xs user_id product
    → Backing (update_rows (λ p. p.id == id) g xs) user_id product
Backing-update id g xs user_id product k b = elim (Bool-cases (b.row.id == id)) [
  | inl e ↦ record {
    row = g b.row;
    listed = Member-updated (λ p. p.id == id) g xs b.listed e;
    payer = k.same_payer b.row ∙ b.payer;
    buys = k.same_buys b.row ∙ b.buys;
    undecided = ap is_pending (k.same_status b.row) ∙ b.undecided;
  }
  | inr e ↦ record {
    row = b.row;
    listed = Member-kept (λ p. p.id == id) g xs b.listed e;
    payer = b.payer;
    buys = b.buys;
    undecided = b.undecided;
  }
]

IsBacked-Quiet :
    (id : ℕ) (g : Submission → Submission) (l : Ledger)
    → Quiet g
    → IsBacked l
    → IsBacked (record l { submissions = update_rows (λ p. p.id == id) g l.submissions })
IsBacked-Quiet id g l k h = record {
  account_keys = h.account_keys;
  submission_keys =
      IsKey-update_rows (λ p. p.id) (λ p. p.id == id) g l.submissions k.same_id h.submission_keys;
  backed =
      λ u product m w. Backing-update id g l.submissions u.id product k (h.backed u product m w);
}

-- An account may wait once a submission backs it.
IsBacked-await :
    (l : Ledger) (id : ℕ) (product : Product) (plan : Plan)
    → Backing l.submissions id product
    → IsBacked l
    → IsBacked (record l {
      accounts = update_rows (λ u. u.id == id) (await_verification product plan) l.accounts;
    })
IsBacked-await l id product plan b h = record {
  account_keys =
      IsKey-update_rows (λ u. u.id) (λ u. u.id == id) (await_verification product plan) l.accounts
        (await_verification-id product plan) h.account_keys;
  submission_keys = h.submission_keys;
  backed = λ u r m w.
      elim (Member-update_rows (λ z. z.id == id) (await_verification product plan) l.accounts u m) [
        | inr (k, n) ↦ h.backed u r k w
        | inl (x, (mx, (px, e))) ↦
            let same_id : u.id ≡ x.id = ap (λ z. z.id) e ∙ await_verification-id product plan x in
            elim (Bool-cases (same_product r product)) [
              | inl s ↦
                  let whose : id ≡ u.id = ground (arith, px, same_id) in
                  let bought : product ≡ r = sym (same_product_sound r product s) in
                  subst (λ z. Backing l.submissions u.id z) bought
                    (subst (λ z. Backing l.submissions z product) whose b)
              | inr d ↦
                  let waited =
                    await_verification-waits product r plan x d
                      (subst (λ z. waits r z ≡ true) e w) in
                  subst (λ z. Backing l.submissions z r) (sym same_id) (h.backed x r mx waited)
            ]
      ];
}

module _ (db : Client) where
  pub submit_manual_payment-IsBacked :
      (s : Settings) (price : Product → Plan → ℕ) (now fresh_id : ℕ) (fate : SubmitFate)
      (r : Submit) (l : Ledger)
      → All (λ (p : Submission). p.id ≢ fresh_id) l.submissions
      → IsBacked l
      → IsBacked (submit_manual_payment db s price now fresh_id fate r l).ledger
  unfolding submit_manual_payment finish_submit
  submit_manual_payment-IsBacked s price now fresh_id fate r l fresh h =
      checked-IsBacked db _ l _ h λ utr _.
        let n = new_submission db now fresh_id (price r.product r.plan) r utr in
        let m : Ledger = record l { submissions = l.submissions ++ n ∷ [] } in
        let b : Backing m.submissions r.user_id r.product = record {
          row = n;
          listed = Member-last l.submissions n;
          payer = refl;
          buys = refl;
          undecided = refl;
        } in
        finished fate m b (IsBacked-append l n fresh h)
    where
      quiet : (t : ℕ) → Quiet (set_token t)
      quiet t = record {
        same_id = λ p. refl;
        same_payer = λ p. refl;
        same_buys = λ p. refl;
        same_status = λ p. refl;
      }

      attached :
          (t : ℕ) (m : Ledger)
          → IsBacked m
          → IsBacked (update_submission db fresh_id (set_token t) m)
      attached t m k =
          subst IsBacked (sym (update_submission-rows db fresh_id (set_token t) m))
            (IsBacked-Quiet fresh_id (set_token t) m (quiet t) k)

      finished :
          (f : SubmitFate) (m : Ledger)
          → Backing m.submissions r.user_id r.product
          → IsBacked m
          → IsBacked (finish_submit db fresh_id r f m).ledger
      finished no_proof m b k = k
      finished no_token m b k = k
      finished (no_account t) m b k = attached t m k
      finished (submitted t) m b k =
          let n = update_submission db fresh_id (set_token t) m in
          let backing =
            subst (λ z. Backing z.submissions r.user_id r.product)
              (sym (update_submission-rows db fresh_id (set_token t) m))
              (Backing-update fresh_id (set_token t) m.submissions r.user_id r.product (quiet t)
                b) in
          subst IsBacked
            (sym (update_account-rows db r.user_id (await_verification r.product r.plan) n))
            (IsBacked-await n r.user_id r.product r.plan backing (attached t m k))
