-- ===== src/Billing/Lifecycle.antt =====
-- modules/billing/subscription-lifecycle.service.ts: the daily job that reminds tenants before their
-- access ends and marks them expired once. Instants are milliseconds since 1970.
pub mod Expiry
pub mod Reminders
pub mod Tests
use micro_saas_api.Base.{
  ℕ, ◌+◌, ◌-◌, ◌/◌, Bool, true, false, not, ◌&&◌, List, [], ◌∷◌, ◌++◌, Option, none, some, String,
  if◌then◌else◌, ltb, leb, ◌==◌, min,
}

-- `subscriptionStatus`
pub data Status : Type 0 where
  trial active past_due cancelled expired pending_verification : Status
  other : String → Status

-- LifecycleUser, without the name that mails greet with.
pub record User : Type 0 where
  pub id : ℕ
  pub email : String
  pub trial_ends_at : ℕ
  pub current_period_end : Option ℕ
  pub status : Status
  pub expiring_notified_for : Option ℕ
  pub expired_notified_for : Option ℕ

pub data WindowKind : Type 0 where
  trial_window subscription_window : WindowKind

-- AccessWindow
pub record Window : Type 0 where
  pub ends_at : ℕ
  pub kind : WindowKind

-- sameInstant
abbrev pub same_instant : Option ℕ → ℕ → Bool
same_instant none b = false
same_instant (some a) b = a == b

abbrev pub day : ℕ
day = 86400000

-- daysUntil: the days that have begun until a date, none for a past one.
unfoldable pub days_until : ℕ → ℕ → ℕ
days_until date now = (date - now + (day - 1)) / day

-- `expiringDays` of the parsed setting; `none` for one that is no number.
unfoldable pub expiring_days : Option ℕ → ℕ
expiring_days none = 7
expiring_days (some n) = if ltb n 1 then 7 else min n 30

abbrev pub keeps_period : Status → Bool
keeps_period active = true
keeps_period past_due = true
keeps_period cancelled = true
keeps_period _ = false

abbrev pub is_pending : Status → Bool
is_pending pending_verification = true
is_pending _ = false

-- `periodEnd && periodEnd > now`
abbrev pub runs_at : ℕ → Option ℕ → Option ℕ
runs_at now none = none
runs_at now (some e) = if ltb now e then some e else none

abbrev pub window : ℕ → WindowKind → Window
window e kind = record { ends_at = e; kind = kind }

abbrev pub trial_window_of : User → ℕ → Option Window
trial_window_of u now =
    if ltb now u.trial_ends_at then some (window u.trial_ends_at trial_window) else none

-- resolveAccessWindow
unfoldable pub resolve_access_window : User → ℕ → Option Window
resolve_access_window u now =
    if is_pending u.status
    then none
    else if keeps_period u.status
    then elim (runs_at now u.current_period_end) [
      | some e ↦ some (window e subscription_window)
      | none ↦ trial_window_of u now
    ]
    else trial_window_of u now

-- `periodEnd && periodEnd <= now`
abbrev pub ended_at : ℕ → Option ℕ → Option ℕ
ended_at now none = none
ended_at now (some e) = if leb e now then some e else none

-- resolveExpiredAt
unfoldable pub resolve_expired_at : User → ℕ → Option Window
unfolding resolve_access_window
resolve_expired_at u now = elim (resolve_access_window u now) [
  | some w ↦ none
  | none ↦ elim (ended_at now u.current_period_end) [
    | some e ↦ some (window e subscription_window)
    | none ↦ if leb u.trial_ends_at now then some (window u.trial_ends_at trial_window) else none
  ]
]

-- The two notifications of the job.
pub data Notice : Type 0 where
  expiring_notice : ℕ → Window → ℕ → Notice
  expired_notice : ℕ → Window → Notice

-- How far a round comes with a notice: the notifier throws, or it has sent the notice and the user cannot
-- be written, or both go well. The notifier does not throw where a mail fails, so such a notice is sent.
pub data Fate : Type 0 where
  not_sent not_marked marked : Fate

-- What a round of the job leaves of a user, the notice that is out, and whether the round counts it.
pub record Reminded : Type 0 where
  pub user : User
  pub sent : Option Notice
  pub counted : Bool

abbrev pub unchanged : User → Reminded
unchanged u = record { user = u; sent = none; counted = false }

-- The `try`: the notice is sent, then the user is written.
abbrev pub tell : Fate → Notice → (User → User) → User → Reminded
tell not_sent n write u = unchanged u
tell not_marked n write u = record { user = u; sent = some n; counted = false }
tell marked n write u = record { user = write u; sent = some n; counted = true }

abbrev pub mark_expiring : Window → User → User
mark_expiring w u = record u { expiring_notified_for = some w.ends_at }

-- `user.subscriptionStatus !== 'expired' && user.subscriptionStatus !== 'cancelled'`
abbrev pub status_after_expiry : Status → Status
status_after_expiry cancelled = cancelled
status_after_expiry _ = expired

abbrev pub mark_expired : Window → User → User
mark_expired w u = record u {
  expired_notified_for = some w.ends_at;
  status = status_after_expiry u.status;
}

module _ (is_super_admin : String → Bool) (fate : Notice → Fate) (window_days : ℕ) where
  -- `daysLeft >= 1 && daysLeft <= windowDays && !sameInstant(...)`
  abbrev pub is_due : User → ℕ → Window → Bool
  is_due u days_left w =
      leb 1 days_left
      && leb days_left window_days
      && not (same_instant u.expiring_notified_for w.ends_at)

  -- The branch of a user with access.
  unfoldable pub remind_expiring : User → ℕ → Window → Reminded
  remind_expiring u now w =
      let notice = expiring_notice u.id w (days_until w.ends_at now) in
      let told = tell (fate notice) notice (mark_expiring w) u in
      if is_due u (days_until w.ends_at now) w then told else unchanged u

  unfoldable pub remind_expired : User → Window → Reminded
  remind_expired u w =
      let notice = expired_notice u.id w in
      let told = tell (fate notice) notice (mark_expired w) u in
      if same_instant u.expired_notified_for w.ends_at then unchanged u else told

  -- The loop's round for one user.
  unfoldable pub remind : ℕ → User → Reminded
  remind now u =
      if is_super_admin u.email then unchanged u else elim (resolve_access_window u now) [
        | some w ↦ remind_expiring u now w
        | none ↦ if is_pending u.status then unchanged u else elim (resolve_expired_at u now) [
          | none ↦ unchanged u
          | some w ↦ remind_expired u w
        ]
      ]

  -- The statuses that the job loads.
  abbrev pub is_loaded : Status → Bool
  is_loaded pending_verification = false
  is_loaded (other s) = false
  is_loaded _ = true

  pub record Job : Type 0 where
    pub users : List User
    pub notices : List Notice
    pub expiring : ℕ
    pub expired : ℕ

  abbrev pub sent_list : Option Notice → List Notice
  sent_list none = []
  sent_list (some n) = n ∷ []

  -- `expiring += 1` and `expired += 1`, after the user is written.
  abbrev pub is_expiring : Bool → Option Notice → ℕ
  is_expiring true (some (expiring_notice i w d)) = 1
  is_expiring _ _ = 0

  abbrev pub is_expired : Bool → Option Notice → ℕ
  is_expired true (some (expired_notice i w)) = 1
  is_expired _ _ = 0

  -- The loop over the loaded users; each user is a row of the table.
  unfoldable pub remind_all : ℕ → List User → Job
  remind_all now [] = record { users = []; notices = []; expiring = 0; expired = 0 }
  remind_all now (u ∷ us) =
      let r = if is_loaded u.status then remind now u else unchanged u in
      let rest = remind_all now us in
      record {
        users = r.user ∷ rest.users;
        notices = sent_list r.sent ++ rest.notices;
        expiring = is_expiring r.counted r.sent + rest.expiring;
        expired = is_expired r.counted r.sent + rest.expired;
      }

  -- processLifecycleReminders
  unfoldable pub process_reminders : Bool → ℕ → List User → Job
  process_reminders billing_enabled now users =
      if billing_enabled
      then remind_all now users
      else record { users = users; notices = []; expiring = 0; expired = 0 }
