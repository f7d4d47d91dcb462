-- ===== src/Career/Alerts/Outcome.antt =====
-- career-job-alert.service.ts: what an alert does to the profile, by its outcome.
use micro_saas_api.Base.{
  ℕ, ◌≡◌, ◌⊎◌, inl, inr, refl, Bool, true, false, not, ◌||◌, List, [], ◌∷◌, Option, none, some,
  if◌then◌else◌, length, Bool-cases, arith, ◌==◌,
}
use micro_saas_api.Text.{take}
use micro_saas_api.Career.Alerts.{
  Profile, AlertOutcome, sent, skipped, Delivery, delivered, both_failed, undelivered,
  thrown_before, thrown_after, Alert, Alerted, none_sent, write_alert, finish_alert, fresh_matches,
  send_fresh, send_matches, cooling_down, candidate_jobs, send_instant_alert,
}

abbrev pub is_sent : AlertOutcome → Bool
is_sent sent = true
is_sent _ = false

-- An alert that is not sent leaves the profile; one that is sent writes its jobs and its time.
Writes : Alert → Profile → Alerted → Type 0
Writes a p r = r.profile ≡ (if is_sent r.outcome then write_alert a.now r.job_ids p else p)

finish_alert-Writes :
    (a : Alert) (top : List ℕ) (p : Profile) (d : Delivery) → Writes a p (finish_alert a top p d)
unfolding Writes
finish_alert-Writes a top p delivered = elim (Bool-cases a.saved) [
  | inl y ↦ rw y refl
  | inr n ↦ rw n refl
]
finish_alert-Writes a top p both_failed = refl
finish_alert-Writes a top p undelivered = refl
finish_alert-Writes a top p thrown_before = refl
finish_alert-Writes a top p thrown_after = refl

send_matches-Writes :
    (a : Alert) (p : Profile) (m : Option (List ℕ)) → Writes a p (send_matches a p m)
unfolding Writes
send_matches-Writes a p none = refl
send_matches-Writes a p (some ms) = fresh (fresh_matches p ms)
  where
    fresh : (js : List ℕ) → Writes a p (send_fresh a p js)
    fresh [] = refl
    fresh (j ∷ js) = finish_alert-Writes a (take 3 (j ∷ js)) p (a.deliver (take 3 (j ∷ js)))

-- A test that ends the alert did not hold of one that is sent.
guard-Writes :
    (a : Alert) (p : Profile) (b : Bool) (r : Alerted)
    → Writes a p r
    → Writes a p (if b then none_sent skipped p else r)
unfolding Writes
guard-Writes a p true r h = refl
guard-Writes a p false r h = h

guard-passed :
    (p : Profile) (b : Bool) (r : Alerted)
    → is_sent (if b then none_sent skipped p else r).outcome ≡ true
    → (b ≡ false) × (is_sent r.outcome ≡ true)
guard-passed p true r h = cc
guard-passed p false r h = (refl, h)

-- What allows an alert to be sent.
pub record IsAllowed (a : Alert) (p : Profile) : Type 0 where
  pub contact : p.has_contact ≡ true
  pub opted_in : p.digest_opt_out ≡ false
  pub access : a.has_access ≡ true
  pub cooled_down : cooling_down a p.alert_state.last_instant_alert_at ≡ false

sent-IsAllowed :
    (a : Alert) (p : Profile) → is_sent (send_instant_alert a p).outcome ≡ true → IsAllowed a p
unfolding send_instant_alert
sent-IsAllowed a p h =
    let (may_be_told, later) = guard-passed p (not p.has_contact || p.digest_opt_out) _ h in
    let (may_use, last) = guard-passed p (not a.has_access) _ later in
    let (cooled, rest) =
      guard-passed p (cooling_down a p.alert_state.last_instant_alert_at) _ last in
    record {
      contact = ground (arith, may_be_told);
      opted_in = ground (arith, may_be_told);
      access = ground (arith, may_use);
      cooled_down = cooled;
    }

send_instant_alert-Writes : (a : Alert) (p : Profile) → Writes a p (send_instant_alert a p)
unfolding send_instant_alert
send_instant_alert-Writes a p = guard-Writes a p (not p.has_contact || p.digest_opt_out) _ (
    guard-Writes a p (not a.has_access) _ (
      guard-Writes a p (cooling_down a p.alert_state.last_instant_alert_at) _ (
        guard-Writes a p (length (candidate_jobs a) == 0) _
          (send_matches-Writes a p (a.match_jobs (candidate_jobs a))))))

-- An alert that is skipped or fails, wherever that happens, leaves the profile as it was. One that is
-- sent writes its jobs and its time into the profile, and is sent only to a profile with a contact,
-- that has not opted out, may use the service, and has had no alert within the cooldown.
pub send_instant_alert-outcome :
    (a : Alert) (p : Profile)
    → ((is_sent (send_instant_alert a p).outcome ≡ false) × ((send_instant_alert a p).profile ≡ p))
      ⊎ ((is_sent (send_instant_alert a p).outcome ≡ true)
          × (((send_instant_alert a p).profile
                ≡ write_alert a.now (send_instant_alert a p).job_ids p)
              × IsAllowed a p))
unfolding Writes
send_instant_alert-outcome a p =
    let w : (send_instant_alert a p).profile ≡ (
        if is_sent (send_instant_alert a p).outcome
        then write_alert a.now (send_instant_alert a p).job_ids p
        else p) =
      send_instant_alert-Writes a p in
    elim (Bool-cases (is_sent (send_instant_alert a p).outcome)) [
      | inl y ↦ inr (y, (rw y at w, sent-IsAllowed a p y))
      | inr n ↦ inl (n, rw n at w)
    ]
