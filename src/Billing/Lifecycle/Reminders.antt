-- ===== src/Billing/Lifecycle/Reminders.antt =====
-- subscription-lifecycle.service.ts: what the job does to a user, and what it sends.
use micro_saas_api.Base.{
  ◌≢◌, if◌then◌else◌, ℕ, ◌+◌, ◌≡◌, ◌≤◌, inl, inr, refl, subst, ap, Bool, true, false, List, [], ◌∷◌,
  ◌++◌, Option, none, some, String, length, Bool-cases, Option-cases, arith, ◌==◌,
}
use micro_saas_api.Billing.Lifecycle.{
  Fate, not_sent, not_marked, marked, tell, mark_expiring, mark_expired, sent_list, is_expired,
  is_expiring, remind_all, process_reminders, is_due, User, Window, same_instant, days_until,
  is_pending, resolve_access_window, resolve_expired_at, Notice, expiring_notice, expired_notice,
  Reminded, unchanged, remind_expiring, remind_expired, remind,
}
use micro_saas_api.Billing.Lifecycle.Expiry.{no_access-later}

module _ (is_super : String → Bool) (fate : Notice → Fate) (days : ℕ) where
  abbrev told_expiring : ℕ → User → Window → Reminded
  told_expiring now u w =
      let n = expiring_notice u.id w (days_until w.ends_at now) in
      tell (fate n) n (mark_expiring w) u

  abbrev told_expired : User → Window → Reminded
  told_expired u w = let n = expired_notice u.id w in tell (fate n) n (mark_expired w) u

  expiring_cases {ℓ} :
      (P : Reminded → Type ℓ) (now : ℕ) (u : User) (w : Window)
      → P (unchanged u)
      → (same_instant u.expiring_notified_for w.ends_at ≡ false → P (told_expiring now u w))
      → P (remind_expiring is_super fate days u now w)
  unfolding remind_expiring
  expiring_cases P now u w same warn =
      elim (Bool-cases (is_due is_super fate days u (days_until w.ends_at now) w)) [
        | inl e ↦ simp e (warn (ground (arith, e)))
        | inr e ↦ simp e same
      ]

  expired_cases {ℓ} :
      (P : Reminded → Type ℓ) (u : User) (w : Window)
      → P (unchanged u)
      → (same_instant u.expired_notified_for w.ends_at ≡ false → P (told_expired u w))
      → P (remind_expired is_super fate days u w)
  unfolding remind_expired
  expired_cases P u w same end = elim (Bool-cases (same_instant u.expired_notified_for w.ends_at)) [
    | inl e ↦ rw e same
    | inr e ↦ rw e (end e)
  ]

  -- What a round may do to a user.
  remind_cases {ℓ} :
      (P : Reminded → Type ℓ) (now : ℕ) (u : User)
      → P (unchanged u)
      → ((w : Window)
          → same_instant u.expiring_notified_for w.ends_at ≡ false
          → P (told_expiring now u w))
      → ((w : Window)
          → is_pending u.status ≡ false
          → resolve_access_window u now ≡ none
          → same_instant u.expired_notified_for w.ends_at ≡ false
          → P (told_expired u w))
      → P (remind is_super fate days now u)
  unfolding remind
  remind_cases P now u same warn end = elim (Bool-cases (is_super u.email)) [
    | inl s ↦ simp s same
    | inr s ↦ elim (Option-cases (resolve_access_window u now)) [
      | inr (w, e) ↦ rw (s, e) (expiring_cases P now u w same (warn w))
      | inl e ↦ elim (Bool-cases (is_pending u.status)) [
        | inl p ↦ rw (s, e, p) same
        | inr p ↦ elim (Option-cases (resolve_expired_at u now)) [
          | inl n ↦ rw (s, e, p, n) same
          | inr (w, f) ↦ rw (s, e, p, f) (expired_cases P u w same (end w p e))
        ]
      ]
    ]
  ]

-- A round tells a user by a notice, and how far it came.
tell_cases {ℓ} :
    (P : Reminded → Type ℓ) (f : Fate) (n : Notice) (write : User → User) (u : User)
    → P (unchanged u)
    → (f ≡ not_marked → P (record { user = u; sent = some n; counted = false }))
    → P (record { user = write u; sent = some n; counted = true })
    → P (tell f n write u)
tell_cases P not_sent n write u same lost kept = same
tell_cases P not_marked n write u same lost kept = lost refl
tell_cases P marked n write u same lost kept = kept

-- A user without access has none as an expired one either.
no_access-expired :
    (u : User) (w : Window) (later : ℕ)
    → is_pending u.status ≡ false
    → resolve_access_window u later ≡ none
    → resolve_access_window (mark_expired w u) later ≡ resolve_access_window u later
unfolding resolve_access_window
no_access-expired u w later p h = elim (Option-cases u.current_period_end) [
  | inl e ↦ ground (arith, e)
  | inr (q, e) ↦ ground (arith, e)
]

-- The job takes no access away: whatever it does to a user, at any later time the user has the
-- access window as before.
pub remind-keeps_access :
    (is_super : String → Bool) (fate : Notice → Fate) (days : ℕ) (now later : ℕ) (u : User)
    → now ≤ later
    → resolve_access_window (remind is_super fate days now u).user later
      ≡ resolve_access_window u later
unfolding resolve_access_window
remind-keeps_access is_super fate days now later u le =
    let Keeps : Reminded → Type 0 =
      λ r. resolve_access_window r.user later ≡ resolve_access_window u later in
    remind_cases is_super fate days Keeps now u refl
      (λ w new. tell_cases Keeps _ _ (mark_expiring w) u refl (λ f. refl) refl)
      (λ w p none_now new.
        tell_cases Keeps _ _ (mark_expired w) u refl (λ f. refl)
          (no_access-expired u w later p (no_access-later u now later le p none_now)))

-- Two notices that tell a user the same: of one kind, for windows that end at one instant.
unfoldable pub same_notice : Notice → Notice → Bool
same_notice (expiring_notice i w d) (expiring_notice j v e) = w.ends_at == v.ends_at
same_notice (expired_notice i w) (expired_notice j v) = w.ends_at == v.ends_at
same_notice _ _ = false

-- The marks of a user say that a notice was sent.
abbrev is_told : User → Notice → Bool
is_told u (expiring_notice i w d) = same_instant u.expiring_notified_for w.ends_at
is_told u (expired_notice i w) = same_instant u.expired_notified_for w.ends_at

subst_notice {ℓ} : (P : Notice → Type ℓ) {n m : Notice} → some n ≡ some m → P n → P m
subst_notice P {n} {m} h p = subst P (ap (λ o. elim o [ some k ↦ k | none ↦ n ]) h) p

same_instant_self : (e : ℕ) → same_instant (some e) e ≡ true
same_instant_self e = ground arith

same_instant-differ :
    (o : Option ℕ) (a b : ℕ) → same_instant o a ≡ true → same_instant o b ≡ false → (a == b) ≡ false
same_instant-differ none a b h k = cc
same_instant-differ (some c) a b h k = ground arith

silent_expiring :
    (u : User) (n : Notice) (w : Window) (i d : ℕ)
    → is_told u n ≡ true
    → same_instant u.expiring_notified_for w.ends_at ≡ false
    → same_notice n (expiring_notice i w d) ≡ false
unfolding same_notice
silent_expiring u (expiring_notice j v e) w i d h k = same_instant-differ _ _ _ h k
silent_expiring u (expired_notice j v) w i d h k = refl

silent_expired :
    (u : User) (n : Notice) (w : Window) (i : ℕ)
    → is_told u n ≡ true
    → same_instant u.expired_notified_for w.ends_at ≡ false
    → same_notice n (expired_notice i w) ≡ false
unfolding same_notice
silent_expired u (expiring_notice j v e) w i h k = refl
silent_expired u (expired_notice j v) w i h k = same_instant-differ _ _ _ h k

module _ (is_super : String → Bool) (fate : Notice → Fate) (days now : ℕ) (u : User) where
  -- A notice that is out is marked, unless the write of its mark failed.
  abbrev IsTold : Notice → Reminded → Type 0
  IsTold n r = r.sent ≡ some n → fate n ≢ not_marked → is_told r.user n ≡ true

  remind-IsTold : (n : Notice) → IsTold n (remind is_super fate days now u)
  remind-IsTold n =
      remind_cases is_super fate days (IsTold n) now u (λ h k. cc)
        (λ w new.
          tell_cases (IsTold n) _ _ (mark_expiring w) u (λ h k. cc) (λ f h k. lost _ f h k)
            (λ h k.
              subst_notice (λ m. is_told (mark_expiring w u) m ≡ true) h
                (same_instant_self w.ends_at)))
        (λ w p none_now new.
          tell_cases (IsTold n) _ _ (mark_expired w) u (λ h k. cc) (λ f h k. lost _ f h k)
            (λ h k.
              subst_notice (λ m. is_told (mark_expired w u) m ≡ true) h
                (same_instant_self w.ends_at)))
    where
      lost :
          (m : Notice)
          → fate m ≡ not_marked
          → some m ≡ some n
          → fate n ≢ not_marked
          → is_told u n ≡ true
      lost m f h k = absurd (k (subst_notice (λ x. fate x ≡ not_marked) h f))

  abbrev IsSilent : Notice → Notice → Reminded → Type 0
  IsSilent n n' r = r.sent ≡ some n' → same_notice n n' ≡ false

  told-IsSilent :
      (n n' : Notice) → is_told u n ≡ true → IsSilent n n' (remind is_super fate days now u)
  told-IsSilent n n' told =
      remind_cases is_super fate days (IsSilent n n') now u (λ h. cc)
        (λ w new.
          let other = silent_expiring u n w u.id (days_until w.ends_at now) told new in
          tell_cases (IsSilent n n') _ _ (mark_expiring w) u (λ h. cc)
            (λ f h. subst_notice (λ m. same_notice n m ≡ false) h other)
            (λ h. subst_notice (λ m. same_notice n m ≡ false) h other))
        (λ w p none_now new.
          let other = silent_expired u n w u.id told new in
          tell_cases (IsSilent n n') _ _ (mark_expired w) u (λ h. cc)
            (λ f h. subst_notice (λ m. same_notice n m ≡ false) h other)
            (λ h. subst_notice (λ m. same_notice n m ≡ false) h other))

-- No two runs in a row tell a user the same, unless the user could not be written after the first
-- notice: a notice that a run sends a user is of another kind, or about another end, than the one that
-- a run on the user as the first left it sends, whenever it runs, for however many days ahead, and
-- however far the second comes.
pub remind-says_once :
    (is_super : String → Bool) (fate fate' : Notice → Fate) (days days' now later : ℕ) (u : User)
    (n n' : Notice)
    → (remind is_super fate days now u).sent ≡ some n
    → fate n ≢ not_marked
    → (remind is_super fate' days' later (remind is_super fate days now u).user).sent ≡ some n'
    → same_notice n n' ≡ false
remind-says_once is_super fate fate' days days' now later u n n' h written =
    told-IsSilent is_super fate' days' later _ n n'
      (remind-IsTold is_super fate days now u n h written)

-- The numbers that the job reports add up to the notices that it sent, with billing on or off, where
-- every user can be written.
pub process_reminders-counts :
    (is_super : String → Bool) (fate : Notice → Fate) (days now : ℕ) (enabled : Bool)
    (us : List User)
    → ((n : Notice) → fate n ≢ not_marked)
    → (process_reminders is_super fate days enabled now us).expiring
        + (process_reminders is_super fate days enabled now us).expired
      ≡ length (process_reminders is_super fate days enabled now us).notices
unfolding process_reminders remind_all
process_reminders-counts is_super fate days now false us written = refl
process_reminders-counts is_super fate days now true us written = all us
  where
    IsCounted : Reminded → Type 0
    IsCounted r =
        (a b : ℕ) (ns : List Notice)
        → a + b ≡ length ns
        → (is_expiring is_super fate days r.counted r.sent + a)
            + (is_expired is_super fate days r.counted r.sent + b)
          ≡ length (sent_list is_super fate days r.sent ++ ns)

    round : (v : User) → IsCounted (remind is_super fate days now v)
    round v =
        remind_cases is_super fate days IsCounted now v (λ a b ns h. omega (arith, h))
          (λ w new.
            tell_cases IsCounted _ _ (mark_expiring w) v (λ a b ns h. omega (arith, h))
              (λ f. absurd (written _ f)) (λ a b ns h. omega (arith, h)))
          (λ w p none_now new.
            tell_cases IsCounted _ _ (mark_expired w) v (λ a b ns h. omega (arith, h))
              (λ f. absurd (written _ f)) (λ a b ns h. omega (arith, h)))

    loaded :
        (v : User) (b : Bool)
        → IsCounted (if b then remind is_super fate days now v else unchanged v)
    loaded v true = round v
    loaded v false = λ a b ns h. omega (arith, h)

    all :
        (us : List User)
        → (remind_all is_super fate days now us).expiring
            + (remind_all is_super fate days now us).expired
          ≡ length (remind_all is_super fate days now us).notices
    all [] = refl
    all (v ∷ vs) = loaded v _ _ _ _ (all vs)
