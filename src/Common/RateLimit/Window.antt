-- ===== src/Common/RateLimit/Window.antt =====
-- rate-limit.service.ts: sequences of calls, and the calls that a window of time lets through.
use micro_saas_api.Base.{
  lookup-insert_self, lookup-insert, lookup, insert, ℕ, ◌+◌, ◌*◌, ◌≡◌, ◌≤◌, ◌<◌, inl, inr, refl,
  sym, subst, ap, Bool, true, false, ◌&&◌, List, [], ◌∷◌, Option, none, some, String, str_eq,
  eq_iff, filter, map, Bool-cases, arith, All,
}
use micro_saas_api.Common.RateLimit.{Bucket, Buckets, check_bucket, check}

pub record Call : Type 0 where
  pub key : String
  pub at : ℕ

abbrev one_if : Bool → ℕ
one_if true = 1
one_if false = 0

module _ (limit window : ℕ) where
  -- The buckets after some calls, and how many of the calls of a key were allowed.
  unfoldable pub buckets_after : List Call → Buckets → Buckets
  buckets_after [] bs = bs
  buckets_after (c ∷ cs) bs = buckets_after cs (check limit window c.at c.key bs).1

  unfoldable pub allowed_calls : String → List Call → Buckets → ℕ
  allowed_calls k [] bs = 0
  allowed_calls k (c ∷ cs) bs =
      let r = check limit window c.at c.key bs in
      one_if (str_eq c.key k && r.0.allowed) + allowed_calls k cs r.1

  -- The calls of one key see one bucket.
  allowed_times : List ℕ → Option Bucket → ℕ
  allowed_times [] b = 0
  allowed_times (t ∷ ts) b =
      let r = check_bucket limit window t b in one_if r.0.allowed + allowed_times ts (some r.1)

  abbrev times_of : String → List Call → List ℕ
  times_of k cs = map (λ c. c.at) (filter (λ c. str_eq c.key k) cs)

  abbrev left : Call → Buckets → Bucket
  left c bs = (check_bucket limit window c.at (lookup c.key bs)).1

  allowed_calls-lookup :
      (k : String) (cs : List Call) (bs : Buckets)
      → allowed_calls k cs bs ≡ allowed_times (times_of k cs) (lookup k bs)
  unfolding allowed_calls allowed_times check
  allowed_calls-lookup k [] bs = refl
  allowed_calls-lookup k (c ∷ cs) bs = elim (Bool-cases (str_eq c.key k)) [
    | inl e ↦ ground (
      arith,
      e,
      allowed_calls-lookup k cs (insert c.key (left c bs) bs),
      lookup-insert c.key k (left c bs) bs,
      ap (λ z. lookup z bs) ((eq_iff c.key k).0 e),
    )
    | inr e ↦ ground (
      arith,
      e,
      allowed_calls-lookup k cs (insert c.key (left c bs) bs),
      lookup-insert c.key k (left c bs) bs,
    )
  ]

  -- The counts stay within the limit.
  abbrev IsWithin : Option Bucket → Type 0
  IsWithin none = Unit
  IsWithin (some b) = b.count ≤ limit

  check_bucket-IsWithin :
      (t : ℕ) (b : Option Bucket)
      → 1 ≤ limit
      → IsWithin b
      → IsWithin (some (check_bucket limit window t b).1)
  unfolding check_bucket
  check_bucket-IsWithin t none pos h = omega arith
  check_bucket-IsWithin t (some b) pos h = ground arith

  -- Until a bucket is reset it gives out what is left of the limit.
  allowed_times-le :
      (ts : List ℕ) (b : Bucket)
      → b.count ≤ limit
      → All (λ t. t < b.reset_at) ts
      → allowed_times ts (some b) + b.count ≤ limit
  unfolding allowed_times check_bucket
  allowed_times-le [] b h a = omega arith
  allowed_times-le (t ∷ ts) b h (lt, a) =
      ground
        (arith, allowed_times-le ts b h a, allowed_times-le ts (record b { count = b.count + 1 }))

  abbrev used : Option Bucket → ℕ
  used none = 0
  used (some b) = b.count

  early :
      (start t : ℕ) (ts : List ℕ)
      → start ≤ t
      → All (λ t. (start ≤ t) × (t < start + window)) ts
      → All (λ s. s < t + window) ts
  early start t [] le a = tt
  early start t (s ∷ ts) le (lt, a) = (omega (arith, lt, le), early start t ts le a)

  allowed_times_bound :
      (start : ℕ) (ts : List ℕ) (b : Option Bucket)
      → 1 ≤ limit
      → IsWithin b
      → All (λ t. (start ≤ t) × (t < start + window)) ts
      → allowed_times ts b + used b ≤ 2 * limit
  unfolding allowed_times check_bucket
  allowed_times_bound start [] none pos h a = omega arith
  allowed_times_bound start [] (some b) pos h a = omega arith
  allowed_times_bound start (t ∷ ts) none pos h (lt, a) = omega (
    arith,
    allowed_times-le ts (record { count = 1; reset_at = t + window }) pos (early start t ts lt.0 a),
  )
  allowed_times_bound start (t ∷ ts) (some b) pos h (lt, a) = ground (
    arith,
    allowed_times-le ts (record { count = 1; reset_at = t + window }) pos (early start t ts lt.0 a),
    allowed_times_bound start ts (some b) pos h a,
    λ (more : b.count + 1 ≤ limit).
        allowed_times_bound start ts (some (record b { count = b.count + 1 })) pos more a,
  )

  buckets_after-IsWithin :
      (k : String) (cs : List Call) (bs : Buckets)
      → 1 ≤ limit
      → IsWithin (lookup k bs)
      → IsWithin (lookup k (buckets_after cs bs))
  unfolding buckets_after check
  buckets_after-IsWithin k [] bs pos h = h
  buckets_after-IsWithin k (c ∷ cs) bs pos h =
      buckets_after-IsWithin k cs (insert c.key (left c bs) bs) pos (
        subst IsWithin (sym (lookup-insert c.key k (left c bs) bs))
          (elim (Bool-cases (str_eq c.key k)) [
            | inl e ↦ rw e (
                check_bucket-IsWithin c.at (lookup c.key bs) pos
                  (subst (λ z. IsWithin (lookup z bs)) (sym ((eq_iff c.key k).0 e)) h))
            | inr e ↦ rw e h
          ]))

  times_of-All :
      (P : ℕ → Type 0) (k : String) (cs : List Call) → All (λ c. P c.at) cs → All P (times_of k cs)
  times_of-All P k [] h = tt
  times_of-All P k (c ∷ cs) (h, hs) = elim (Bool-cases (str_eq c.key k)) [
    | inl e ↦ rw e (h, times_of-All P k cs hs)
    | inr e ↦ rw e (times_of-All P k cs hs)
  ]

  -- Whatever calls came before, and whatever other keys call in between: of the calls that a key makes
  -- within one window of time, at most twice the limit is allowed.
  pub allowed_calls_bound :
      (k : String) (start : ℕ) (before cs : List Call)
      → 1 ≤ limit
      → All (λ c. (start ≤ c.at) × (c.at < start + window)) cs
      → allowed_calls k cs (buckets_after before []) ≤ 2 * limit
  allowed_calls_bound k start before cs pos a =
      let within : IsWithin (lookup k (buckets_after before [])) =
        buckets_after-IsWithin k before [] pos (unfold lookup in tt) in
      omega (
        arith,
        allowed_calls-lookup k cs (buckets_after before []),
        allowed_times_bound start (times_of k cs) (lookup k (buckets_after before [])) pos within
            (times_of-All (λ t. (start ≤ t) × (t < start + window)) k cs a),
      )

  retry_bucket :
      (now later : ℕ) (b : Option Bucket)
      → (check_bucket limit window now b).0.allowed ≡ false
      → now + 1000 * (check_bucket limit window now b).0.retry_after_sec ≤ later
      → (check_bucket limit window later (some (check_bucket limit window now b).1)).0.allowed
        ≡ true
  unfolding check_bucket
  retry_bucket now later none h w = cc
  retry_bucket now later (some b) h w = ground arith

  -- A refused call that is repeated, by itself, after the seconds that the refusal names is allowed.
  pub retry_after-allowed :
      (now later : ℕ) (k : String) (bs : Buckets)
      → (check limit window now k bs).0.allowed ≡ false
      → now + 1000 * (check limit window now k bs).0.retry_after_sec ≤ later
      → (check limit window later k (check limit window now k bs).1).0.allowed ≡ true
  unfolding check
  retry_after-allowed now later k bs h w =
      rw (lookup-insert_self k (check_bucket limit window now (lookup k bs)).1 bs)
        (retry_bucket now later (lookup k bs) h w)
