-- ===== src/Career/Alerts/Tests.antt =====
-- career-job-alert.service.ts: two alerts to one profile.
use micro_saas_api.Base.{ℕ, ◌≡◌, refl, subst, true, false, [], ◌∷◌, none, some, arith}
use micro_saas_api.Career.Alerts.{
  Profile, sent, delivered, Alert, send_instant_alert, unique, keep_last, merge_notified_job_ids,
  max_notified_job_ids,
}
use micro_saas_api.Career.Alerts.Distinct.{IsDistinct}
use micro_saas_api.Career.Alerts.History.{run, IsNew, IsReliable, send_instant_alert-IsNew}

abbrev profile : Profile
profile = record {
  has_contact = true;
  digest_opt_out = false;
  alert_state = record { notified_job_ids = 4 ∷ []; last_instant_alert_at = none };
  job_session = [];
}

-- Matching keeps the jobs in their order.
abbrev alert : ℕ → Alert
alert now = record {
  now = now;
  cooldown = 100;
  has_access = true;
  new_job_ids = 4 ∷ (5 ∷ (6 ∷ []));
  active_job_ids = 4 ∷ (5 ∷ (9 ∷ []));
  match_jobs = λ js. some (4 ∷ (5 ∷ []));
  deliver = λ js. delivered;
  saved = true;
}

tells_of_five : send_instant_alert (alert 10) profile ≡ record {
  outcome = sent;
  job_ids = 5 ∷ [];
  profile = record profile {
    alert_state = record { notified_job_ids = 4 ∷ (5 ∷ []); last_instant_alert_at = some 10 };
    job_session = 5 ∷ [];
  };
}
unfolding send_instant_alert merge_notified_job_ids unique
tells_of_five = refl

distinct : IsDistinct (4 ∷ (5 ∷ []))
distinct = (((λ e. omega (arith, e)), tt), (tt, tt))

reliable : (now : ℕ) → IsReliable (alert now)
reliable now = record {
  saved = refl;
  whole = λ js h. cc;
  matched_once =
      λ js ms e. let same : 4 ∷ (5 ∷ []) ≡ ms = ground (arith, e) in subst IsDistinct same distinct;
}

send_instant_alert-IsNew_example :
    IsNew
      (keep_last max_notified_job_ids (run (alert 10 ∷ []) (4 ∷ []) profile).0)
      (send_instant_alert (alert 200) (run (alert 10 ∷ []) (4 ∷ []) profile).1).job_ids
send_instant_alert-IsNew_example =
    send_instant_alert-IsNew (alert 10 ∷ []) (alert 200) profile (omega arith) (tt, tt)
      (reliable 10, tt) (reliable 200)
