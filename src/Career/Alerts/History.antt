-- ===== src/Career/Alerts/History.antt =====
-- career-job-alert.service.ts: what a profile has been told of.
use micro_saas_api.Base.{
  ℕ, ◌-◌, ◌≡◌, ◌≢◌, ◌≤◌, ◌⊎◌, inl, inr, refl, sym, subst, ap, ◌∙◌, Bool, true, false, not, ◌||◌,
  List, [], ◌∷◌, ◌++◌, Option, none, some, if◌then◌else◌, length, filter, Bool-cases, arith, All,
  ◌==◌,
}
use micro_saas_api.Text.{take, drop}
use micro_saas_api.Career.Alerts.{
  Profile, skipped, Delivery, delivered, both_failed, undelivered, thrown_before, thrown_after,
  Alert, Alerted, has, keep_last, merge_notified_job_ids, none_sent, max_notified_job_ids,
  write_alert, finish_alert, fresh_matches, send_fresh, send_matches, cooling_down, candidate_jobs,
  send_instant_alert,
}
use mathlib.Core.List.{append-nil}
use micro_saas_api.Career.Alerts.Distinct.{
  IsDistinct, unique-IsDistinct, IsDistinct-append, IsDistinct-drop, keep_last-append, All-take,
  IsDistinct-take, IsDistinct-filter,
}

-- Alerts one after the other: what the profile is then, and the jobs that it has been told of, which
-- begin with those before.
abbrev pub run : List Alert → List ℕ → Profile → List ℕ × Profile
run [] told p = (told, p)
run (a ∷ more) told p = let r = send_instant_alert a p in run more (told ++ r.job_ids) r.profile

-- Jobs that are told of: at most three, no job twice, and none that the profile is known to know.
pub record IsNew (notified js : List ℕ) : Type 0 where
  pub distinct : IsDistinct js
  pub unknown : All (λ j. has j notified ≡ false) js
  pub few : length js ≤ 3

-- The profile can be written, no delivery throws once a message is out, and matching answers no job
-- twice.
pub record IsReliable (a : Alert) : Type 0 where
  pub saved : a.saved ≡ true
  pub whole : (js : List ℕ) → a.deliver js ≢ thrown_after
  pub matched_once : (js ms : List ℕ) → a.match_jobs js ≡ some ms → IsDistinct ms

-- An alert tells of nothing and leaves the profile, or tells of new jobs and writes them down.
IsStep : Alert → Profile → Alerted → Type 0
IsStep a p r =
    ((r.job_ids ≡ []) × (r.profile ≡ p))
    ⊎ (IsNew p.alert_state.notified_job_ids r.job_ids × (r.profile ≡ write_alert a.now r.job_ids p))

length-take-3 : (js : List ℕ) → length (take 3 js) ≤ 3
length-take-3 [] = omega arith
length-take-3 (a ∷ []) = omega arith
length-take-3 (a ∷ (b ∷ [])) = omega arith
length-take-3 (a ∷ (b ∷ (c ∷ js))) = omega arith

filter-unknown :
    (known xs : List ℕ) → All (λ j. has j known ≡ false) (filter (λ j. not (has j known)) xs)
filter-unknown known [] = tt
filter-unknown known (x ∷ xs) = elim (Bool-cases (has x known)) [
  | inl y ↦ rw y (filter-unknown known xs)
  | inr n ↦ rw n (n, filter-unknown known xs)
]

finish_alert-IsStep :
    (a : Alert) (top : List ℕ) (p : Profile) (d : Delivery)
    → IsReliable a
    → d ≢ thrown_after
    → IsNew p.alert_state.notified_job_ids top
    → IsStep a p (finish_alert a top p d)
unfolding IsStep
finish_alert-IsStep a top p delivered h w n = rw h.saved (inr (n, refl))
finish_alert-IsStep a top p both_failed h w n = inl (refl, refl)
finish_alert-IsStep a top p undelivered h w n = inl (refl, refl)
finish_alert-IsStep a top p thrown_before h w n = inl (refl, refl)
finish_alert-IsStep a top p thrown_after h w n = absurd (w refl)

send_fresh-IsStep :
    (a : Alert) (p : Profile) (js : List ℕ)
    → IsReliable a
    → IsDistinct js
    → All (λ j. has j p.alert_state.notified_job_ids ≡ false) js
    → IsStep a p (send_fresh a p js)
unfolding IsStep
send_fresh-IsStep a p [] h d u = inl (refl, refl)
send_fresh-IsStep a p (j ∷ js) h d u =
    finish_alert-IsStep a (take 3 (j ∷ js)) p (a.deliver (take 3 (j ∷ js))) h
      (h.whole (take 3 (j ∷ js)))
      (record {
        distinct = IsDistinct-take 3 (j ∷ js) d;
        unknown = All-take (λ k. has k p.alert_state.notified_job_ids ≡ false) 3 (j ∷ js) u;
        few = length-take-3 (j ∷ js);
      })

send_matches-IsStep :
    (a : Alert) (p : Profile) (m : Option (List ℕ))
    → IsReliable a
    → ((ms : List ℕ) → m ≡ some ms → IsDistinct ms)
    → IsStep a p (send_matches a p m)
unfolding IsStep
send_matches-IsStep a p none h d = inl (refl, refl)
send_matches-IsStep a p (some ms) h d =
    let known = p.alert_state.notified_job_ids in
    send_fresh-IsStep a p (fresh_matches p ms) h
      (IsDistinct-filter (λ j. not (has j known)) ms (d ms refl)) (filter-unknown known ms)

-- A test that ends the alert.
guard-IsStep :
    (a : Alert) (p : Profile) (b : Bool) (r : Alerted)
    → IsStep a p r
    → IsStep a p (if b then none_sent skipped p else r)
unfolding IsStep
guard-IsStep a p true r h = inl (refl, refl)
guard-IsStep a p false r h = h

send_instant_alert-IsStep :
    (a : Alert) (p : Profile) → IsReliable a → IsStep a p (send_instant_alert a p)
unfolding send_instant_alert
send_instant_alert-IsStep a p h = guard-IsStep a p (not p.has_contact || p.digest_opt_out) _ (
    guard-IsStep a p (not a.has_access) _ (
      guard-IsStep a p (cooling_down a p.alert_state.last_instant_alert_at) _ (
        guard-IsStep a p (length (candidate_jobs a) == 0) _ (
          send_matches-IsStep a p (a.match_jobs (candidate_jobs a)) h
            (h.matched_once (candidate_jobs a))))))

-- The profile knows the last jobs that it has been told of.
record Knows (told : List ℕ) (p : Profile) : Type 0 where
  known : p.alert_state.notified_job_ids ≡ keep_last max_notified_job_ids told
  once : IsDistinct p.alert_state.notified_job_ids

Knows-write_alert :
    (told js : List ℕ) (now : ℕ) (p : Profile)
    → Knows told p
    → IsNew p.alert_state.notified_job_ids js
    → Knows (told ++ js) (write_alert now js p)
unfolding merge_notified_job_ids
Knows-write_alert told js now p k n =
    let known = p.alert_state.notified_job_ids in
    let joined = IsDistinct-append known js k.once n.distinct n.unknown in
    let all_kept = unique-IsDistinct [] (known ++ js) joined (none_seen (known ++ js)) in
    let merged : merge_notified_job_ids known js ≡ keep_last max_notified_job_ids (known ++ js) =
      ap (λ z. keep_last max_notified_job_ids z) all_kept in
    record {
      known =
          merged
          ∙ ap (λ z. keep_last max_notified_job_ids (z ++ js)) k.known
          ∙ keep_last-append max_notified_job_ids told js;
      once =
          subst IsDistinct (sym merged)
            (IsDistinct-drop (length (known ++ js) - max_notified_job_ids) (known ++ js) joined);
    }
  where
    none_seen : (ks : List ℕ) → All (λ j. has j [] ≡ false) ks
    none_seen [] = tt
    none_seen (j ∷ ks) = (refl, none_seen ks)

send_instant_alert-Knows :
    (a : Alert) (told : List ℕ) (p : Profile)
    → IsReliable a
    → Knows told p
    → Knows (told ++ (send_instant_alert a p).job_ids) (send_instant_alert a p).profile
unfolding IsStep
send_instant_alert-Knows a told p h k = elim (send_instant_alert-IsStep a p h) [
  | inl (none_told, same) ↦ rw (none_told, same, append-nil) k
  | inr (n, written) ↦
      rw written (Knows-write_alert told (send_instant_alert a p).job_ids a.now p k n)
]

run-Knows :
    (alerts : List Alert) (told : List ℕ) (p : Profile)
    → All IsReliable alerts
    → Knows told p
    → Knows (run alerts told p).0 (run alerts told p).1
run-Knows [] told p h k = k
run-Knows (a ∷ more) told p (h, hs) k =
    run-Knows more (told ++ (send_instant_alert a p).job_ids) (send_instant_alert a p).profile hs
      (send_instant_alert-Knows a told p h k)

-- After any alerts to a profile that starts with at most 500 notified jobs, none twice, an alert tells
-- of at most three jobs, no job twice, and of none of the 500 jobs that the profile was told of last,
-- where the profile can be written each time, no delivery throws once a message is out, and matching
-- answers no job twice.
pub send_instant_alert-IsNew :
    (alerts : List Alert) (a : Alert) (p : Profile)
    → length p.alert_state.notified_job_ids ≤ max_notified_job_ids
    → IsDistinct p.alert_state.notified_job_ids
    → All IsReliable alerts
    → IsReliable a
    → IsNew
        (keep_last max_notified_job_ids (run alerts p.alert_state.notified_job_ids p).0)
        (send_instant_alert a (run alerts p.alert_state.notified_job_ids p).1).job_ids
unfolding IsStep
send_instant_alert-IsNew alerts a p few d hs h =
    let known = p.alert_state.notified_job_ids in
    let whole : length known - max_notified_job_ids ≡ 0 = omega (arith, few) in
    let at_first : Knows known p = record {
      known = ap (λ n. drop n known) (sym whole);
      once = d;
    } in
    let later = run-Knows alerts known p hs at_first in
    elim (send_instant_alert-IsStep a (run alerts known p).1 h) [
      | inl (none_told, same) ↦
          rw none_told (record { distinct = tt; unknown = tt; few = omega arith })
      | inr (n, written) ↦
          subst (λ z. IsNew z (send_instant_alert a (run alerts known p).1).job_ids) later.known n
    ]
