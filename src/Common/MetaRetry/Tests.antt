-- ===== src/Common/MetaRetry/Tests.antt =====
-- meta-api-retry.ts: two failures and a success.
use micro_saas_api.Base.{ℕ, ◌*◌, ◌%◌, ◌≡◌, refl, [], ◌∷◌, if◌then◌else◌, ◌==◌}
use micro_saas_api.Common.MetaRetry.{Answer, with_meta_api_retry, retry_from}

abbrev answers : ℕ → Answer ℕ
answers n =
    if n == 0
    then record { status = 429; body = 0 }
    else if n == 1
    then record { status = 503; body = 0 }
    else record { status = 200; body = 7 }

abbrev jitter : ℕ → ℕ
jitter n = 10 * (n % 2)

third_attempt :
    with_meta_api_retry answers jitter 500 0 3
    ≡ record { answer = record { status = 200; body = 7 }; attempts = 3; waits = 500 ∷ (1010 ∷ []) }
unfolding with_meta_api_retry retry_from
third_attempt = refl
