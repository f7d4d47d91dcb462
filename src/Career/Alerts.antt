-- ===== src/Career/Alerts.antt =====
-- modules/career/services/career-job-alert.service.ts and career-alert-state.util.ts: the alerts about
-- new jobs that a profile gets. The jobs of a profile, how they match it and how a message is delivered
-- are what the other services answer; instants are milliseconds.
pub mod Distinct
pub mod History
pub mod Outcome
pub mod Tests
use micro_saas_api.Base.{
  ℕ, ◌+◌, ◌-◌, Bool, true, false, not, ◌||◌, List, [], ◌∷◌, ◌++◌, Option, none, some, if◌then◌else◌,
  length, filter, any, ltb, ◌==◌,
}
use micro_saas_api.Text.{take, drop}

-- CareerAlertState
pub record AlertState : Type 0 where
  pub notified_job_ids : List ℕ
  pub last_instant_alert_at : Option ℕ

abbrev pub max_notified_job_ids : ℕ
max_notified_job_ids = 500

-- The columns of a profile that an alert reads or writes.
pub record Profile : Type 0 where
  pub has_contact : Bool
  pub digest_opt_out : Bool
  pub alert_state : AlertState
  pub job_session : List ℕ

pub data AlertOutcome : Type 0 where
  sent skipped failed : AlertOutcome

-- What `deliver` answers: that the primary channel got it, that both channels failed, or neither. Or it
-- throws, before a message is out or after.
pub data Delivery : Type 0 where
  delivered both_failed undelivered thrown_before thrown_after : Delivery

-- What one alert meets: the clock, whether the profile may use the service, the jobs, and the answers
-- of matching (none where it throws), of delivery, and whether the profile can be written.
pub record Alert : Type 0 where
  pub now : ℕ
  pub cooldown : ℕ
  pub has_access : Bool
  pub new_job_ids : List ℕ
  pub active_job_ids : List ℕ
  pub match_jobs : List ℕ → Option (List ℕ)
  pub deliver : List ℕ → Delivery
  pub saved : Bool

pub record Alerted : Type 0 where
  pub outcome : AlertOutcome
  pub job_ids : List ℕ
  pub profile : Profile

abbrev pub has : ℕ → List ℕ → Bool
has j js = any (λ k. k == j) js

abbrev pub keep : Bool → ℕ → List ℕ → List ℕ
keep true j js = j ∷ js
keep false j js = js

-- `[...new Set(js)]`, past the numbers that were seen.
unfoldable pub unique : List ℕ → List ℕ → List ℕ
unique seen [] = []
unique seen (j ∷ js) = keep (not (has j seen)) j (unique (j ∷ seen) js)

-- `js.slice(-n)`, for an n above 0.
abbrev pub keep_last : ℕ → List ℕ → List ℕ
keep_last n js = drop (length js - n) js

unfoldable pub merge_notified_job_ids : List ℕ → List ℕ → List ℕ
unfolding unique
merge_notified_job_ids existing added =
    keep_last max_notified_job_ids (unique [] (existing ++ added))

abbrev pub none_sent : AlertOutcome → Profile → Alerted
none_sent outcome p = record { outcome = outcome; job_ids = []; profile = p }

-- `buildProfileDataPatch` with the new alert state and job session.
abbrev pub write_alert : ℕ → List ℕ → Profile → Profile
write_alert now top p = record p {
  alert_state = record {
    notified_job_ids = merge_notified_job_ids p.alert_state.notified_job_ids top;
    last_instant_alert_at = some now;
  };
  job_session = top;
}

-- After the delivery. A delivery or a write that throws counts as failed, though a message may be out.
abbrev pub finish_alert : Alert → List ℕ → Profile → Delivery → Alerted
finish_alert a top p delivered =
    if a.saved
    then record { outcome = sent; job_ids = top; profile = write_alert a.now top p }
    else record { outcome = failed; job_ids = top; profile = p }
finish_alert a top p both_failed = none_sent failed p
finish_alert a top p undelivered = none_sent skipped p
finish_alert a top p thrown_before = none_sent failed p
finish_alert a top p thrown_after = record { outcome = failed; job_ids = top; profile = p }

-- The matches that the profile has not been told of.
abbrev pub fresh_matches : Profile → List ℕ → List ℕ
fresh_matches p matches = filter (λ j. not (has j p.alert_state.notified_job_ids)) matches

abbrev pub send_fresh : Alert → Profile → List ℕ → Alerted
send_fresh a p [] = none_sent skipped p
send_fresh a p (j ∷ js) = finish_alert a (take 3 (j ∷ js)) p (a.deliver (take 3 (j ∷ js)))

abbrev pub send_matches : Alert → Profile → Option (List ℕ) → Alerted
send_matches a p none = none_sent failed p
send_matches a p (some matches) = send_fresh a p (fresh_matches p matches)

abbrev pub cooling_down : Alert → Option ℕ → Bool
cooling_down a none = false
cooling_down a (some at) = ltb a.now (at + a.cooldown)

abbrev pub candidate_jobs : Alert → List ℕ
candidate_jobs a = filter (λ j. has j a.new_job_ids) a.active_job_ids

unfoldable pub send_instant_alert : Alert → Profile → Alerted
unfolding merge_notified_job_ids
send_instant_alert a p =
    if not p.has_contact || p.digest_opt_out
    then none_sent skipped p
    else if not a.has_access
    then none_sent skipped p
    else if cooling_down a p.alert_state.last_instant_alert_at
    then none_sent skipped p
    else if length (candidate_jobs a) == 0
    then none_sent skipped p
    else send_matches a p (a.match_jobs (candidate_jobs a))
