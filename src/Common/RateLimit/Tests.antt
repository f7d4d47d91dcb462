-- ===== src/Common/RateLimit/Tests.antt =====
-- Two calls a minute: the end of one window and the start of the next.
use micro_saas_api.Base.{lookup, insert, ℕ, ◌+◌, ◌*◌, ◌≡◌, ◌≤◌, refl, false, List, [], ◌∷◌, arith}
use micro_saas_api.Common.RateLimit.{Buckets, check, check_bucket}
use micro_saas_api.Common.RateLimit.Window.{Call, buckets_after, allowed_calls, allowed_calls_bound}

abbrev call : ℕ → Call
call t = record { key = "ip"; at = t }

-- The first call opens a bucket that is reset at 60000.
abbrev early_calls : List Call
early_calls = call 0 ∷ []

abbrev crowd : List Call
crowd = call 59000 ∷ call 60000 ∷ call 60001 ∷ call 60002 ∷ []

-- Three calls within two seconds, with a limit of two a minute.
three_allowed : allowed_calls 2 60000 "ip" crowd (buckets_after 2 60000 early_calls []) ≡ 3
unfolding allowed_calls buckets_after check check_bucket lookup insert
three_allowed = refl

allowed_calls_bound_example :
    allowed_calls 2 60000 "ip" crowd (buckets_after 2 60000 early_calls []) ≤ 4
allowed_calls_bound_example =
    allowed_calls_bound 2 60000 "ip" 59000 early_calls crowd (omega arith) (omega arith)

abbrev full : Buckets
full = ("ip", record { count = 2; reset_at = 60000 }) ∷ []

full_refuses : (check 2 60000 58500 "ip" full).0.allowed ≡ false
unfolding check check_bucket lookup
full_refuses = refl

full_wait : 58500 + 1000 * (check 2 60000 58500 "ip" full).0.retry_after_sec ≤ 60500
unfolding check check_bucket lookup
full_wait = omega arith
