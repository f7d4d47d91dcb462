-- ===== src/Common/RateLimit.antt =====
-- common/rate-limit/rate-limit.service.ts: how many calls a key has in a window of time. Instants are
-- milliseconds.
pub mod Window
pub mod Tests
use micro_saas_api.Base.{
  lookup, insert, ℕ, ◌+◌, ◌-◌, ◌/◌, Bool, true, false, List, Option, none, some, String,
  if◌then◌else◌, leb,
}

pub record Bucket : Type 0 where
  pub count : ℕ
  pub reset_at : ℕ

abbrev pub Buckets : Type 0
Buckets = List (String × Bucket)

-- RateLimitResult
pub record RateLimitResult : Type 0 where
  pub allowed : Bool
  pub limit : ℕ
  pub remaining : ℕ
  pub retry_after_sec : ℕ

abbrev pub allow : ℕ → ℕ → RateLimitResult
allow limit count = record {
  allowed = true;
  limit = limit;
  remaining = limit - count;
  retry_after_sec = 0;
}

-- `Math.ceil((bucket.resetAt - now) / 1000)`
abbrev pub refuse : ℕ → ℕ → RateLimitResult
refuse limit wait = record {
  allowed = false;
  limit = limit;
  remaining = 0;
  retry_after_sec = (wait + 999) / 1000;
}

module _ (limit window now : ℕ) where
  -- The bucket of a key, as `check` finds it: the result, and the bucket that it leaves.
  unfoldable pub check_bucket : Option Bucket → RateLimitResult × Bucket
  check_bucket none = (allow limit 1, record { count = 1; reset_at = now + window })
  check_bucket (some b) =
      if leb b.reset_at now
      then (allow limit 1, record { count = 1; reset_at = now + window })
      else if leb limit b.count
      then (refuse limit (b.reset_at - now), b)
      else (allow limit (b.count + 1), record b { count = b.count + 1 })

  unfoldable pub check : String → Buckets → RateLimitResult × Buckets
  check key buckets = let r = check_bucket (lookup key buckets) in (r.0, insert key r.1 buckets)
