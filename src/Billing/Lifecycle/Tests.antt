-- ===== src/Billing/Lifecycle/Tests.antt =====
-- A tenant three days before the end of a paid month, and a day after it.
use micro_saas_api.Base.{ℕ, ◌+◌, ◌-◌, ◌*◌, ◌≡◌, refl, Bool, false, none, some, String, arith}
use micro_saas_api.Billing.Lifecycle.{
  active, User, subscription_window, window, day, days_until, resolve_access_window,
  resolve_expired_at, Notice, expiring_notice, expired_notice, remind, remind_expiring,
  remind_expired, Fate, marked, not_marked,
}
use micro_saas_api.Billing.Lifecycle.Reminders.{remind-keeps_access, remind-says_once, same_notice}

abbrev month_end : ℕ
month_end = 1700000000000

abbrev tenant : User
tenant = record {
  id = 1;
  email = "a@b.c";
  trial_ends_at = 1690000000000;
  current_period_end = some month_end;
  status = active;
  expiring_notified_for = none;
  expired_notified_for = none;
}

abbrev nobody : String → Bool
nobody s = false

abbrev delivered : Notice → Fate
delivered n = marked

abbrev three_days_before : ℕ
three_days_before = month_end - 3 * day

abbrev a_day_after : ℕ
a_day_after = month_end + day

keeps_access_example :
    resolve_access_window (remind nobody delivered 7 three_days_before tenant).user a_day_after
    ≡ resolve_access_window tenant a_day_after
keeps_access_example =
    remind-keeps_access nobody delivered 7 three_days_before a_day_after tenant (omega arith)

first_notice :
    (remind nobody delivered 7 three_days_before tenant).sent
    ≡ some (expiring_notice 1 (window month_end subscription_window) 3)
unfolding remind remind_expiring resolve_access_window days_until
first_notice = refl

second_notice :
    (remind nobody delivered 7 a_day_after
      (remind nobody delivered 7 three_days_before tenant).user).sent
    ≡ some (expired_notice 1 (window month_end subscription_window))
unfolding remind remind_expiring remind_expired resolve_access_window resolve_expired_at days_until
second_notice = refl

abbrev unwritten : Notice → Fate
unwritten n = not_marked

-- The user cannot be written after the notice: the next run sends it again.
again :
    (remind nobody unwritten 7 three_days_before
      (remind nobody unwritten 7 three_days_before tenant).user).sent
    ≡ (remind nobody unwritten 7 three_days_before tenant).sent
unfolding remind remind_expiring resolve_access_window days_until
again = refl

says_once_example :
    same_notice
      (expiring_notice 1 (window month_end subscription_window) 3)
      (expired_notice 1 (window month_end subscription_window))
    ≡ false
says_once_example =
    remind-says_once nobody delivered delivered 7 7 three_days_before a_day_after tenant _ _
      first_notice (λ h. cc) second_notice
