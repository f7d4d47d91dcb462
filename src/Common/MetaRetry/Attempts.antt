-- ===== src/Common/MetaRetry/Attempts.antt =====
-- meta-api-retry.ts: how often a call is tried, and how long it waits.
use micro_saas_api.Base.{
  ℕ, zero, suc, ◌+◌, ◌-◌, ◌*◌, ◌^◌, ◌≡◌, ◌≤◌, ◌<◌, inl, inr, refl, subst, Bool, true, List, [],
  Bool-cases, arith, ◌==◌, sum_by,
}
use native.Mathlib.Nat.{pow-suc}
use micro_saas_api.Common.MetaRetry.{
  wait_before, Answer, Retried, is_retryable_meta_status, retry_from, with_meta_api_retry,
}

abbrev pub is_retryable {ℓ} : {A : Type ℓ} → (ℕ → Answer A) → ℕ → Bool
is_retryable answers n = is_retryable_meta_status (answers n).status

-- The outcome of attempts from `attempt` on: the answer is that of the last attempt, all before it
-- could be tried again, and the last one could be only when no attempt was left.
pub record IsOutcome {ℓ} {A : Type ℓ} (answers : ℕ → Answer A) (attempt bound : ℕ) (r : Retried A)
    : Type ℓ where
  pub index : ℕ
  pub index_bound : index < bound
  pub first : attempt ≤ index
  pub attempts : r.attempts ≡ suc index
  pub answer : r.answer ≡ answers index
  pub tried_before : (n : ℕ) → attempt ≤ n → n < index → is_retryable answers n ≡ true
  pub given_up : is_retryable answers index ≡ true → suc index ≡ bound

IsOutcome-later {ℓ} :
    {A : Type ℓ} (answers : ℕ → Answer A) (attempt bound : ℕ) (r : Retried A) (waits : List ℕ)
    → is_retryable answers attempt ≡ true
    → IsOutcome answers (suc attempt) bound r
    → IsOutcome answers attempt bound (record r { waits = waits })
IsOutcome-later answers attempt bound r waits e o = record {
  index = o.index;
  index_bound = o.index_bound;
  first = omega (arith, o.first);
  attempts = o.attempts;
  answer = o.answer;
  tried_before = λ n h k. elim (Bool-cases (n == attempt)) [
    | inl s ↦
        let same : attempt ≡ n = ground (arith, s) in
        subst (λ m. is_retryable answers m ≡ true) same e
    | inr d ↦ o.tried_before n (ground (arith, d, h)) k
  ];
  given_up = o.given_up;
}

module _ {ℓ} {A : Type ℓ} (answers : ℕ → Answer A) (jitter : ℕ → ℕ) (base_delay_ms : ℕ) where
  abbrev run : Answer A → ℕ → ℕ → Retried A
  run last attempt left = retry_from answers jitter base_delay_ms last attempt left

  IsOutcome-now :
      (attempt left : ℕ)
      → (is_retryable answers attempt ≡ true → left ≡ 0)
      → IsOutcome answers attempt
          (attempt + suc left)
          (record { answer = answers attempt; attempts = suc attempt; waits = [] })
  IsOutcome-now attempt left h = record {
    index = attempt;
    index_bound = omega arith;
    first = omega arith;
    attempts = refl;
    answer = refl;
    tried_before = λ n j k. absurd (omega (arith, j, k));
    given_up = λ e. omega (arith, h e);
  }

  run-now :
      (last : Answer A) (attempt left : ℕ)
      → (is_retryable answers attempt ≡ true → left ≡ 0)
      → run last attempt (suc left)
        ≡ record { answer = answers attempt; attempts = suc attempt; waits = [] }
  unfolding retry_from
  run-now last attempt left h = elim (Bool-cases (is_retryable answers attempt)) [
    | inl e ↦ let none_left = h e in rw (e, none_left) refl
    | inr e ↦ rw e refl
  ]

  run-again :
      (last : Answer A) (attempt left : ℕ)
      → is_retryable answers attempt ≡ true
      → run last attempt (suc (suc left))
        ≡ wait_before answers jitter base_delay_ms attempt
            (run (answers attempt) (suc attempt) (suc left))
  unfolding retry_from
  run-again last attempt left e = ground (arith, e)

  retry_from-IsOutcome :
      (last : Answer A) (attempt left : ℕ)
      → IsOutcome answers attempt (attempt + suc left) (run last attempt (suc left))
  retry_from-IsOutcome last attempt zero =
      rw (run-now last attempt zero (λ e. refl)) (IsOutcome-now attempt zero (λ e. refl))
  retry_from-IsOutcome last attempt (suc left) = elim (Bool-cases (is_retryable answers attempt)) [
    | inl e ↦
        let later : IsOutcome answers (suc attempt) (attempt + suc (suc left))
            (run (answers attempt) (suc attempt) (suc left)) =
          subst
            (λ b.
              IsOutcome answers (suc attempt) b (run (answers attempt) (suc attempt) (suc left)))
            (omega arith) (retry_from-IsOutcome (answers attempt) (suc attempt) left) in
        rw (run-again last attempt left e) (IsOutcome-later answers attempt _ _ _ e later)
    | inr e ↦
        let over : is_retryable answers attempt ≡ true → suc left ≡ 0 = λ t. ground (arith, e, t) in
        rw (run-now last attempt (suc left) over) (IsOutcome-now attempt (suc left) over)
  ]

  -- With an attempt at least, the last attempt's answer is returned, with the number of the attempts:
  -- one at least and `max_attempts` at most. An answer of status 429 or 500 and above is the reason of
  -- every further attempt, and is returned after the last attempt only.
  pub with_meta_api_retry-IsOutcome :
      (nothing : A) (max_attempts : ℕ)
      → 0 < max_attempts
      → IsOutcome answers 0 max_attempts
          (with_meta_api_retry answers jitter base_delay_ms nothing max_attempts)
  unfolding with_meta_api_retry
  with_meta_api_retry-IsOutcome nothing zero h = absurd (omega (arith, h))
  with_meta_api_retry-IsOutcome nothing (suc left) h =
      subst (λ b. IsOutcome answers 0 b (run (record { status = 0; body = nothing }) 0 (suc left)))
        (omega arith) (retry_from-IsOutcome (record { status = 0; body = nothing }) 0 left)

  total_wait : Retried A → ℕ
  total_wait r = sum_by (λ n. n) r.waits

  delay-le-add :
      (attempt left : ℕ) → base_delay_ms * 2 ^ attempt ≤ base_delay_ms * 2 ^ (attempt + left)
  delay-le-add attempt zero =
      let same : attempt + 0 ≡ attempt = omega arith in rw same (omega arith)
  delay-le-add attempt (suc left) =
      let same : attempt + suc left ≡ suc (attempt + left) = omega arith in
      rw (same, pow-suc 2 (attempt + left)) (omega (arith, delay-le-add attempt left))

  retry_from-total_wait :
      ((n : ℕ) → jitter n < 200)
      → (last : Answer A) (attempt left : ℕ)
      → total_wait (run last attempt (suc left)) + base_delay_ms * 2 ^ attempt
        ≤ base_delay_ms * 2 ^ (attempt + left) + 199 * left
  unfolding total_wait
  retry_from-total_wait h last attempt zero =
      rw (run-now last attempt zero (λ e. refl)) (omega (arith, delay-le-add attempt 0))
  retry_from-total_wait h last attempt (suc left) =
      elim (Bool-cases (is_retryable answers attempt)) [
        | inl e ↦
            let later = retry_from-total_wait h (answers attempt) (suc attempt) left in
            let same : suc attempt + left ≡ attempt + suc left = omega arith in
            let shifted : total_wait (run (answers attempt) (suc attempt) (suc left))
                  + base_delay_ms * (2 ^ attempt * 2)
                ≤ base_delay_ms * 2 ^ (attempt + suc left) + 199 * left =
              rw (same, pow-suc 2 attempt) at later in
            rw (run-again last attempt left e) (omega (arith, shifted, h attempt))
        | inr e ↦
            let over : is_retryable answers attempt ≡ true → suc left ≡ 0 =
              λ t. ground (arith, e, t) in
            rw (run-now last attempt (suc left) over)
              (omega (arith, delay-le-add attempt (suc left)))
      ]

  -- With an attempt at least and jitters below 200 ms, all the waits of a call and one more `baseDelayMs` come to at most
  -- `baseDelayMs * 2 ^ (maxAttempts - 1) + 199 * (maxAttempts - 1)`.
  pub with_meta_api_retry-waits_bound :
      (nothing : A) (max_attempts : ℕ)
      → 0 < max_attempts
      → ((n : ℕ) → jitter n < 200)
      → sum_by
            (λ n. n)
            (with_meta_api_retry answers jitter base_delay_ms nothing max_attempts).waits
          + base_delay_ms
        ≤ base_delay_ms * 2 ^ (max_attempts - 1) + 199 * (max_attempts - 1)
  unfolding with_meta_api_retry total_wait
  with_meta_api_retry-waits_bound nothing zero h j = absurd (omega (arith, h))
  with_meta_api_retry-waits_bound nothing (suc left) h j =
      let bound = retry_from-total_wait j (record { status = 0; body = nothing }) 0 left in
      let same : suc left - 1 ≡ left = omega arith in
      let from_zero : 0 + left ≡ left = omega arith in
      let shifted : total_wait (run (record { status = 0; body = nothing }) 0 (suc left))
            + base_delay_ms * 2 ^ 0
          ≤ base_delay_ms * 2 ^ left + 199 * left =
        rw from_zero at bound in
      rw same (omega (arith, shifted))
