-- ===== src/Common/WebhookClaims/Claims.antt =====
-- webhook-idempotency.service.ts: an event is handled once.
use micro_saas_api.Base.{
  ℕ, ◌+◌, ◌≡◌, ◌≤◌, inl, inr, refl, ap, ◌∙◌, Bool, true, false, not, List, [], ◌∷◌, filter, any,
  Member, here, there, Bool-cases, arith, All, ltb,
}
use micro_saas_api.Text.{Text}
use micro_saas_api.Text.Laws.{same_text_refl}
use micro_saas_api.Common.WebhookClaims.{Event, event_key, has_key, claim, purge_expired}

-- What happens to the table: a delivery that is claimed, and the removal of the old rows.
pub data Call : Type 0 where
  deliver : (now ttl_ms : ℕ) (source idempotency_key : Text) → Call
  purge : (now : ℕ) → Call

abbrev pub run_call : Call → List Event → List Event
run_call (deliver now ttl_ms source idempotency_key) events =
    (claim now ttl_ms source idempotency_key events).events
run_call (purge now) events = purge_expired now events

abbrev pub run : List Call → List Event → List Event
run [] events = events
run (c ∷ cs) events = run cs (run_call c events)

-- No purge after `until`.
abbrev pub PurgesBy : ℕ → Call → Type 0
PurgesBy until (deliver _ _ _ _) = Unit
PurgesBy until (purge now) = now ≤ until

-- A row with the key that expires at `until` or later.
abbrev Holds : Text → ℕ → List Event → Type 0
Holds key until events =
    (e : Event) × (Member e events × ((has_key key e ≡ true) × (until ≤ e.expires_at)))

any-Member :
    (p : Event → Bool) (e : Event) (xs : List Event) → Member e xs → p e ≡ true → any p xs ≡ true
any-Member p e [] m h = elim m [ ]
any-Member p e (x ∷ xs) (here same) h = rw (ap p same ∙ h) refl
any-Member p e (x ∷ xs) (there m) h = ground (arith, any-Member p e xs m h)

Member-filter :
    (p : Event → Bool) (e : Event) (xs : List Event)
    → Member e xs
    → p e ≡ true
    → Member e (filter p xs)
Member-filter p e [] m h = elim m [ ]
Member-filter p e (x ∷ xs) (here same) h = rw (ap p same ∙ h) (here same)
Member-filter p e (x ∷ xs) (there m) h = elim (Bool-cases (p x)) [
  | inl y ↦ rw y (there (Member-filter p e xs m h))
  | inr n ↦ rw n (Member-filter p e xs m h)
]

Holds-run_call :
    (c : Call) (key : Text) (until : ℕ) (events : List Event)
    → PurgesBy until c
    → Holds key until events
    → Holds key until (run_call c events)
unfolding claim purge_expired
Holds-run_call (deliver now ttl_ms source k) key until events h (e, (m, r)) =
    elim (Bool-cases (any (has_key (event_key source k)) events)) [
      | inl y ↦ rw (run_call, y) (e, (m, r))
      | inr n ↦ rw (run_call, n) (e, (there m, r))
    ]
Holds-run_call (purge now) key until events h (e, (m, (k, u))) =
    (e, (Member-filter (λ x. not (ltb x.expires_at now)) e events m (ground (arith, h, u)), (k, u)))

Holds-run :
    (cs : List Call) (key : Text) (until : ℕ) (events : List Event)
    → All (PurgesBy until) cs
    → Holds key until events
    → Holds key until (run cs events)
Holds-run [] key until events h k = k
Holds-run (c ∷ cs) key until events (h, hs) k =
    Holds-run cs key until (run_call c events) hs (Holds-run_call c key until events h k)

Holds-claim :
    (now ttl_ms : ℕ) (source key : Text) (events : List Event)
    → (claim now ttl_ms source key events).is_new ≡ true
    → Holds (event_key source key) (now + ttl_ms) (claim now ttl_ms source key events).events
unfolding claim
Holds-claim now ttl_ms source key events new =
    elim (Bool-cases (any (has_key (event_key source key)) events)) [
      | inl y ↦ absurd (ground (arith, new, y))
      | inr n ↦ rw n (
        record {
          source = source;
          idempotency_key = event_key source key;
          expires_at = now + ttl_ms;
        },
        (here refl, (same_text_refl (event_key source key), omega arith)),
      )
    ]

claim-duplicate :
    (now ttl_ms : ℕ) (source key : Text) (events : List Event) (until : ℕ)
    → Holds (event_key source key) until events
    → (claim now ttl_ms source key events).is_new ≡ false
unfolding claim
claim-duplicate now ttl_ms source key events until (e, (m, (k, u))) =
    rw (any-Member (has_key (event_key source key)) e events m k) refl

-- After a delivery that was new, every delivery with the same source and key is a duplicate, whatever
-- is delivered or purged between them and however late it comes, as long as no purge is later than the
-- first one's time to live.
pub claim-once :
    (now ttl_ms : ℕ) (source key : Text) (events : List Event) (cs : List Call) (later ttl : ℕ)
    → All (PurgesBy (now + ttl_ms)) cs
    → (claim now ttl_ms source key events).is_new ≡ true
    → (claim later ttl source key (run cs (claim now ttl_ms source key events).events)).is_new
      ≡ false
claim-once now ttl_ms source key events cs later ttl h new =
    claim-duplicate later ttl source key (run cs (claim now ttl_ms source key events).events)
      (now + ttl_ms)
      (Holds-run cs (event_key source key) (now + ttl_ms)
        (claim now ttl_ms source key events).events h
        (Holds-claim now ttl_ms source key events new))
