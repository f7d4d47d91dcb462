-- ===== src/Common/MetaRetry.antt =====
-- common/meta-api-retry.ts: calls of Meta's API that are tried again. `answers` is what the calls
-- give, in their order, and `jitter` what `Math.random()` adds to the waits.
pub mod Attempts
pub mod Tests
use micro_saas_api.Base.{
  ℕ, zero, suc, ◌+◌, ◌*◌, ◌^◌, Bool, not, ◌||◌, List, [], ◌∷◌, if◌then◌else◌, leb, ◌==◌,
}

pub record Answer {ℓ} (A : Type ℓ) : Type ℓ where
  pub status : ℕ
  pub body : A

-- What `withMetaApiRetry` returns, with the waits between its calls.
pub record Retried {ℓ} (A : Type ℓ) : Type ℓ where
  pub answer : Answer A
  pub attempts : ℕ
  pub waits : List ℕ

abbrev pub is_retryable_meta_status : ℕ → Bool
is_retryable_meta_status status = status == 429 || leb 500 status

-- `Math.floor(Math.random() * 200)` is below 200.
abbrev pub meta_api_retry_delay : ℕ → ℕ → ℕ → ℕ
meta_api_retry_delay jitter attempt base_delay_ms = base_delay_ms * 2 ^ attempt + jitter

module _ {ℓ} {A : Type ℓ} (answers : ℕ → Answer A) (jitter : ℕ → ℕ) (base_delay_ms : ℕ) where
  abbrev pub wait_before : ℕ → Retried A → Retried A
  wait_before attempt r = record r {
    waits = meta_api_retry_delay (jitter attempt) attempt base_delay_ms ∷ r.waits;
  }

  -- The loop from `attempt` on, with `left` attempts left; `last` is the answer so far.
  unfoldable pub retry_from : Answer A → ℕ → ℕ → Retried A
  retry_from last attempt zero = record { answer = last; attempts = attempt; waits = [] }
  retry_from last attempt (suc left) =
      let rest = retry_from (answers attempt) (suc attempt) left in
      if not (is_retryable_meta_status (answers attempt).status) || (left == 0)
      then record { answer = answers attempt; attempts = suc attempt; waits = [] }
      else wait_before attempt rest

  -- `nothing` is the empty object.
  unfoldable pub with_meta_api_retry : A → ℕ → Retried A
  unfolding retry_from
  with_meta_api_retry nothing max_attempts =
      retry_from (record { status = 0; body = nothing }) 0 max_attempts
