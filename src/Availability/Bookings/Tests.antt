-- ===== src/Availability/Bookings/Tests.antt =====
-- A barber's chair: a booking that is cancelled, and a second one for its time.
use micro_saas_api.Base.{ℕ, ◌≡◌, refl, true, [], ◌∷◌, none, some, Result, ok, err, ◌>>=◌}
use micro_saas_api.Database.{list_client}
use micro_saas_api.Availability.Bookings.{
  BookingStatus, confirmed, cancelled, Booking, Calendar, CreateBooking, Booked, BookingError,
  already_booked, create_booking, update_booking_status, cancel_booking,
}
use micro_saas_api.Availability.Bookings.Disjoint.{
  clash, Disjoint, Reach, start, next, created, changed, Reach-Disjoint,
}

abbrev shop : Calendar
shop = record {
  resources = record { id = 1; user_id = 5; active = true } ∷ [];
  contacts = [];
  conversations = [];
  bookings = [];
}

abbrev ten_to_eleven : CreateBooking
ten_to_eleven = record {
  resource_id = 1;
  starts_at = some 1000;
  ends_at = some 1100;
  contact_id = none;
  conversation_id = none;
  status = none;
}

abbrev calendar_after : Calendar → Result BookingError Booked → Calendar
calendar_after c (ok r) = r.calendar
calendar_after c (err e) = c

abbrev chair_booking : ℕ → BookingStatus → Booking
chair_booking id status = record {
  id = id;
  user_id = 5;
  resource_id = 1;
  contact_id = none;
  conversation_id = none;
  starts_at = 1000;
  ends_at = 1100;
  status = status;
}

abbrev one_booked : Calendar
one_booked = record shop { bookings = chair_booking 1 confirmed ∷ [] }

abbrev one_cancelled : Calendar
one_cancelled = record shop { bookings = chair_booking 1 cancelled ∷ [] }

abbrev rebooked : Calendar
rebooked = record shop { bookings = chair_booking 1 cancelled ∷ chair_booking 2 confirmed ∷ [] }

books_once : calendar_after shop (create_booking list_client 5 ten_to_eleven 1 shop) ≡ one_booked
unfolding create_booking ◌>>=◌
books_once = refl

refuses_twice : create_booking list_client 5 ten_to_eleven 2 one_booked ≡ err already_booked
unfolding create_booking ◌>>=◌
refuses_twice = refl

cancels : calendar_after one_booked (cancel_booking list_client 5 1 one_booked) ≡ one_cancelled
unfolding cancel_booking update_booking_status ◌>>=◌
cancels = refl

books_again :
    calendar_after one_cancelled (create_booking list_client 5 ten_to_eleven 2 one_cancelled)
    ≡ rebooked
unfolding create_booking ◌>>=◌
books_again = refl

-- Confirming the cancelled booking again does not look at the other one.
revives :
    calendar_after rebooked (update_booking_status list_client 5 1 confirmed rebooked)
    ≡ record shop { bookings = chair_booking 1 confirmed ∷ chair_booking 2 confirmed ∷ [] }
unfolding update_booking_status ◌>>=◌
revives = refl

revived_clash : clash (chair_booking 1 confirmed) (chair_booking 2 confirmed) ≡ true
revived_clash = refl

first_step : Reach list_client shop one_booked
unfolding create_booking ◌>>=◌
first_step = next start (created 5 1 ten_to_eleven _ refl)

second_step : Reach list_client shop one_cancelled
unfolding update_booking_status ◌>>=◌
second_step = next first_step (changed 5 1 cancelled _ refl (λ h. cc))

Reach-Disjoint_example : Disjoint one_cancelled.bookings
Reach-Disjoint_example = Reach-Disjoint list_client shop one_cancelled tt second_step
