-- ===== src/Availability/Slots.antt =====
-- modules/availability/slot-engine.ts, and `slotsForResource` of availability.service.ts. Local times
-- are minutes of the day; what the time zone makes of them is the interface Zone.
pub mod Grid
pub mod Offers
pub mod Tests
use micro_saas_api.Base.{
  ℕ, zero, suc, ◌+◌, Bool, ◌&&◌, ◌||◌, List, [], ◌∷◌, Option, none, some, if◌then◌else◌, filter,
  find, any, ltb, leb, ◌==◌,
}
use micro_saas_api.Availability.Bookings.{Booking, Calendar, is_active, bookings_overlap}

-- TimeSlot
pub record TimeSlot : Type 0 where
  pub starts_at : ℕ
  pub ends_at : ℕ

-- ScheduleWindow
pub record ScheduleWindow : Type 0 where
  pub day_of_week : ℕ
  pub start_min : ℕ
  pub end_min : ℕ
  pub slot_minutes : ℕ
  pub is_active : Bool

-- A date in a time zone, which the platform's calendar decides: the instants of its local times, of
-- its first minute and of the next date's, its day of the week, and whether it is the date of `now`.
pub record Zone : Type 0 where
  pub utc : ℕ → ℕ
  pub day_start : ℕ
  pub day_end : ℕ
  pub day_of_week : ℕ
  pub is_today : Bool
  pub now : ℕ

module _ (zone : Zone) where
  abbrev pub slot_at : ℕ → ℕ → TimeSlot
  slot_at slot_minutes cursor = record {
    starts_at = zone.utc cursor;
    ends_at = zone.utc (cursor + slot_minutes);
  }

  abbrev pub taken : List Booking → TimeSlot → Bool
  taken bookings slot =
      any (λ b. bookings_overlap slot.starts_at slot.ends_at b.starts_at b.ends_at) bookings

  -- The loop, on fuel: every round moves the cursor by a minute or more.
  unfoldable pub slots_from : ℕ → ℕ → ℕ → ℕ → List Booking → List TimeSlot
  slots_from zero cursor end_min slot_minutes bookings = []
  slots_from (suc fuel) cursor end_min slot_minutes bookings =
      let slot = slot_at slot_minutes cursor in
      let rest = slots_from fuel (cursor + slot_minutes) end_min slot_minutes bookings in
      if leb (cursor + slot_minutes) end_min
      then if taken bookings slot then rest else slot ∷ rest
      else []

  unfoldable pub generate_available_slots : ScheduleWindow → List Booking → List TimeSlot
  generate_available_slots s bookings =
      if ltb s.slot_minutes 1 || leb s.end_min s.start_min
      then []
      else slots_from s.end_min s.start_min s.end_min s.slot_minutes
          (filter (λ b. is_active b.status) bookings)

  unfoldable pub filter_future_slots : List TimeSlot → List TimeSlot
  filter_future_slots slots =
      if zone.is_today then filter (λ slot. ltb zone.now slot.starts_at) slots else slots

  abbrev pub pick_schedule : List ScheduleWindow → Option ScheduleWindow
  pick_schedule schedules = find (λ s. s.is_active && s.day_of_week == zone.day_of_week) schedules

  -- `where` of the bookings that `slotsForResource` loads.
  abbrev pub on_day : ℕ → ℕ → Booking → Bool
  on_day user_id resource_id b =
      b.user_id == user_id
      && b.resource_id == resource_id
      && ltb b.starts_at zone.day_end
      && ltb zone.day_start b.ends_at
      && is_active b.status

  unfoldable pub slots_for_resource : ℕ → ℕ → List ScheduleWindow → Calendar → List TimeSlot
  slots_for_resource user_id resource_id schedules c = elim (pick_schedule schedules) [
    | none ↦ []
    | some s ↦
        filter_future_slots
          (generate_available_slots s (filter (on_day user_id resource_id) c.bookings))
  ]
