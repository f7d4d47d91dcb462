-- ===== src/Common/WebhookClaims/Tests.antt =====
-- webhook-idempotency.service.ts: some deliveries.
use micro_saas_api.Base.{ℕ, zero, suc, ◌≡◌, refl, true, false, [], ◌∷◌, ◌++◌}
use micro_saas_api.Text.{Text, codes, same_text}
use micro_saas_api.Common.WebhookClaims.{Claim, claim, purge_expired}

abbrev first : Claim
first = claim 1000 500 (codes "razorpay") (codes "paid:1") []

first_new : first.is_new ≡ true
unfolding claim
first_new = refl

-- After a purge past the time to live the delivery counts as new.
claimed_again :
    (claim 3000 500 (codes "razorpay") (codes "paid:1") (purge_expired 2000 first.events)).is_new
    ≡ true
unfolding claim purge_expired same_text
claimed_again = refl

abbrev repeat : ℕ → Text
repeat zero = []
repeat (suc n) = b'x' ∷ repeat n

-- Keys are cut to 128 characters: two that differ after them count as one.
cut_keys :
    (claim 0 500
      (codes "workflow")
      (repeat 128 ++ codes "1")
      (claim 0 500 (codes "workflow") (repeat 128 ++ codes "2") []).events).is_new
    ≡ false
unfolding claim same_text
cut_keys = refl
