-- ===== src/Billing/Access.antt =====
-- modules/billing/billing.service.ts: the status of the platform subscription and of the website
-- add-on, and the access that they give. Prices and dates for display are left out.
use micro_saas_api.Base.{
  str_eq, ◌&&◌, ℕ, Bool, true, false, not, ◌||◌, Option, none, some, String, if◌then◌else◌, ltb,
}
use micro_saas_api.Billing.Lifecycle.{
  other, Status, trial, active, past_due, cancelled, expired, pending_verification,
}

pub data Plan : Type 0 where
  monthly yearly : Plan

-- The columns of a user that billing reads and writes.
pub record Account : Type 0 where
  pub id : ℕ
  pub email : String
  pub trial_ends_at : ℕ
  pub status : Status
  pub plan : Option Plan
  pub period_end : Option ℕ
  pub cancel_at_period_end : Bool
  pub website_status : Status
  pub website_plan : Option Plan
  pub website_period_end : Option ℕ

-- What the configuration says, and who is a super admin.
pub record Settings : Type 0 where
  pub enabled : Bool
  pub website_enabled : Bool
  pub upi_enabled : Bool
  pub upi_configured : Bool
  pub is_super_admin : String → Bool

-- The fields `status` and `has_access` of a billing status.
pub record Access : Type 0 where
  pub status : Status
  pub has_access : Bool

abbrev pub access : Status → Bool → Access
access status has_access = record { status = status; has_access = has_access }

-- `!!periodEnd && periodEnd > now`
abbrev pub within_period : Option ℕ → ℕ → Bool
within_period none now = false
within_period (some e) now = ltb now e

-- The end of both methods.
abbrev pub trial_or_expired : Account → ℕ → Access
trial_or_expired u now = if ltb now u.trial_ends_at then access trial true else access expired false

abbrev pub status_access : Status → Account → ℕ → Access
status_access pending_verification u now = access pending_verification false
status_access active u now =
    if within_period u.period_end now then access active true else trial_or_expired u now
status_access past_due u now = access past_due (within_period u.period_end now)
status_access cancelled u now = access cancelled (within_period u.period_end now)
status_access _ u now = trial_or_expired u now

-- resolveStatus
unfoldable pub resolve_status : Settings → Account → ℕ → Access
resolve_status s u now =
    if s.is_super_admin u.email || not s.enabled
    then access active true
    else status_access u.status u now

abbrev pub is_absent : Option ℕ → Bool
is_absent none = true
is_absent (some e) = false

abbrev pub website_access : Status → Account → ℕ → Access
website_access pending_verification u now =
    access pending_verification (ltb now u.trial_ends_at || within_period u.website_period_end now)
website_access active u now =
    if within_period u.website_period_end now then access active true else trial_or_expired u now
website_access cancelled u now =
    if within_period u.website_period_end now then access cancelled true else trial_or_expired u now
website_access (other s) u now =
    if not (ltb now u.trial_ends_at) && str_eq s "none" && is_absent u.website_period_end
    then access (other s) false
    else trial_or_expired u now
website_access _ u now = trial_or_expired u now

-- resolveWebsiteStatus
unfoldable pub resolve_website_status : Settings → Account → ℕ → Access
resolve_website_status s u now =
    if s.is_super_admin u.email || not s.website_enabled
    then access active true
    else website_access u.website_status u now

-- hasPlatformAccess
unfoldable pub has_platform_access : Settings → Account → ℕ → Bool
has_platform_access s u now =
    s.is_super_admin u.email || not s.enabled || (resolve_status s u now).has_access
