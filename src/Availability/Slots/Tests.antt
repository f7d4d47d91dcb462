-- ===== src/Availability/Slots/Tests.antt =====
-- A morning of half hours with one of them booked.
use micro_saas_api.Base.{
  ℕ, ◌≡◌, ◌≤◌, ◌↔◌, refl, true, false, [], ◌∷◌, none, filter, Member, here, there, arith, ok,
}
use micro_saas_api.Database.{list_client}
use micro_saas_api.Availability.Bookings.{
  Booking, Calendar, confirmed, is_active, assert_no_conflict,
}
use micro_saas_api.Availability.Slots.{
  TimeSlot, ScheduleWindow, Zone, generate_available_slots, slots_for_resource, slots_from,
  filter_future_slots,
}
use micro_saas_api.Availability.Slots.Grid.{IsFree, generate_available_slots-IsFree}
use micro_saas_api.Availability.Slots.Offers.{offered-no_conflict}

-- The first day of 1970 in the zone of Greenwich, in minutes.
abbrev epoch : Zone
epoch = record {
  utc = λ m. m;
  day_start = 0;
  day_end = 1440;
  day_of_week = 4;
  is_today = false;
  now = 0;
}

abbrev morning : ScheduleWindow
morning = record {
  day_of_week = 4;
  start_min = 540;
  end_min = 640;
  slot_minutes = 30;
  is_active = true;
}

abbrev haircut : Booking
haircut = record {
  id = 1;
  user_id = 5;
  resource_id = 1;
  contact_id = none;
  conversation_id = none;
  starts_at = 580;
  ends_at = 590;
  status = confirmed;
}

abbrev salon : Calendar
salon = record { resources = []; contacts = []; conversations = []; bookings = haircut ∷ [] }

abbrev nine : TimeSlot
nine = record { starts_at = 540; ends_at = 570 }

abbrev ten : TimeSlot
ten = record { starts_at = 600; ends_at = 630 }

morning_slots : slots_for_resource epoch 5 1 (morning ∷ []) salon ≡ nine ∷ ten ∷ []
unfolding slots_for_resource generate_available_slots slots_from filter_future_slots
morning_slots = refl

generate_example :
    Member ten (generate_available_slots epoch morning (haircut ∷ []))
    ↔ (c : ℕ) × IsFree epoch 30 540 640 (filter (λ b. is_active b.status) (haircut ∷ [])) ten c
generate_example = generate_available_slots-IsFree epoch morning (haircut ∷ []) ten (omega arith)

in_day :
    (minute : ℕ)
    → minute ≤ 1440
    → (epoch.day_start ≤ epoch.utc minute) × (epoch.utc minute ≤ epoch.day_end)
in_day minute le = (omega arith, le)

ten_listed : Member ten (slots_for_resource epoch 5 1 (morning ∷ []) salon)
ten_listed = rw morning_slots (there (here refl))

offered_example : assert_no_conflict list_client 5 1 600 630 salon ≡ ok tt
offered_example =
    offered-no_conflict epoch list_client 5 1 (morning ∷ []) salon ten in_day (omega arith, tt)
      ten_listed
