-- ===== src/Availability/Slots/Offers.antt =====
-- slot-engine.ts and availability.service.ts: offered slots against the conflict check.
use micro_saas_api.Base.{
  ℕ, ◌+◌, ◌≡◌, ◌≤◌, inl, inr, refl, sym, subst, Bool, false, List, [], ◌∷◌, some, filter, find,
  Member, here, there, Bool-cases, Option-cases, arith, All, All-Member, ok,
}
use micro_saas_api.Database.{Client}
use micro_saas_api.Availability.Bookings.{
  Booking, Calendar, is_active, conflicts, assert_no_conflict,
}
use micro_saas_api.Availability.Slots.{
  TimeSlot, ScheduleWindow, Zone, taken, filter_future_slots, pick_schedule, on_day,
  slots_for_resource,
}
use micro_saas_api.Availability.Slots.Grid.{generated-IsFree}

module _ (zone : Zone) where
  filter-Member :
      (p : TimeSlot → Bool) (xs : List TimeSlot) (s : TimeSlot)
      → Member s (filter p xs)
      → Member s xs
  filter-Member p [] s m = elim m [ ]
  filter-Member p (x ∷ xs) s m = elim (Bool-cases (p x)) [
    | inr e ↦ there (filter-Member p xs s (rw e at m))
    | inl e ↦ kept (filter-Member p xs s) (rw e at m)
  ]
    where
      kept : (Member s (filter p xs) → Member s xs) → Member s (x ∷ filter p xs) → Member s (x ∷ xs)
      kept rec (here e) = here e
      kept rec (there n) = there (rec n)

  future-Member :
      (xs : List TimeSlot) (s : TimeSlot) → Member s (filter_future_slots zone xs) → Member s xs
  unfolding filter_future_slots
  future-Member xs s m = elim (Bool-cases zone.is_today) [
    | inl e ↦ filter-Member _ xs s (rw (filter_future_slots, e) at m)
    | inr e ↦ rw (filter_future_slots, e) at m
  ]

  -- What is free among the active bookings of the day conflicts with no booking.
  free_lem :
      (user_id resource_id : ℕ) (s : TimeSlot) (bs : List Booking)
      → zone.day_start ≤ s.starts_at
      → s.ends_at ≤ zone.day_end
      → taken zone
          (filter (λ b. is_active b.status) (filter (on_day zone user_id resource_id) bs))
          s
        ≡ false
      → All (λ b. conflicts user_id resource_id s.starts_at s.ends_at b ≡ false) bs
  free_lem user_id resource_id s [] le le' h = tt
  free_lem user_id resource_id s (b ∷ bs) le le' h =
      (ground (arith, h, le, le'), free_lem user_id resource_id s bs le le' (ground (arith, h)))

  find-All :
      (P : ScheduleWindow → Type 0) (p : ScheduleWindow → Bool) (xs : List ScheduleWindow)
      (x : ScheduleWindow)
      → All P xs
      → find p xs ≡ some x
      → P x
  find-All P p [] x a h = cc
  find-All P p (y ∷ ys) x (a, rest) h = elim (Bool-cases (p y)) [
    | inl e ↦ subst P (some_inj (rw e at h)) a
    | inr e ↦ find-All P p ys x rest (rw e at h)
  ]
    where
      some_inj : some y ≡ some x → y ≡ x
      some_inj q = cc

  -- On a date whose local times all lie between its first instant and the next date's, and with
  -- schedules that close by midnight, a slot that is offered for a resource can be booked: no booking
  -- of the resource is in its way.
  pub offered-no_conflict :
      (db : Client) (user_id resource_id : ℕ) (schedules : List ScheduleWindow) (c : Calendar)
      (s : TimeSlot)
      → ((minute : ℕ)
          → minute ≤ 1440
          → (zone.day_start ≤ zone.utc minute) × (zone.utc minute ≤ zone.day_end))
      → All (λ w. w.end_min ≤ 1440) schedules
      → Member s (slots_for_resource zone user_id resource_id schedules c)
      → assert_no_conflict db user_id resource_id s.starts_at s.ends_at c ≡ ok tt
  unfolding slots_for_resource
  offered-no_conflict db user_id resource_id schedules c s day closes m =
      elim (Option-cases (pick_schedule zone schedules)) [
        | inl n ↦ nothing (rw (slots_for_resource, n) at m)
        | inr (w, e) ↦
            let (cursor, f) =
              generated-IsFree zone w _ s (future-Member _ s (rw (slots_for_resource, e) at m)) in
            let late : w.end_min ≤ 1440 = find-All _ _ schedules w closes e in
            let opens : zone.day_start ≤ s.starts_at =
              subst (λ (z : TimeSlot). zone.day_start ≤ z.starts_at) (sym f.same)
                (day cursor (omega (arith, f.in_hours, late))).0 in
            let ends : s.ends_at ≤ zone.day_end =
              subst (λ (z : TimeSlot). z.ends_at ≤ zone.day_end) (sym f.same)
                (day (cursor + w.slot_minutes) (omega (arith, f.in_hours, late))).1 in
            free_slot (free_lem user_id resource_id s c.bookings opens ends f.untaken)
      ]
    where
      nothing :
          Member s [] → assert_no_conflict db user_id resource_id s.starts_at s.ends_at c ≡ ok tt
      nothing n = elim n [ ]

      free_slot :
          All (λ b. conflicts user_id resource_id s.starts_at s.ends_at b ≡ false) c.bookings
          → assert_no_conflict db user_id resource_id s.starts_at s.ends_at c ≡ ok tt
      free_slot a =
          elim (Option-cases
            (db.find_first (conflicts user_id resource_id s.starts_at s.ends_at) c.bookings)) [
              | inl n ↦ rw (n, assert_no_conflict) refl
              | inr (b, e) ↦
                  let (p, listed) = db.find_first-some _ c.bookings b e in
                  absurd (cc (All-Member _ c.bookings a listed))
            ]
