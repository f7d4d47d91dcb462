-- ===== src/Availability/Bookings.antt =====
-- modules/availability/availability.service.ts: creating a booking and changing its status. Instants
-- are milliseconds; the text of an instant that does not parse is `none`.
pub mod Disjoint
pub mod Tests
use micro_saas_api.Base.{
  ◌>>◌, ◌>>=◌, ℕ, ◌+◌, Bool, true, false, ◌&&◌, List, [], ◌∷◌, ◌++◌, Option, none, some,
  if◌then◌else◌, ltb, leb, ◌==◌, Result, ok, err, require, or_throw,
}
use micro_saas_api.Database.{Client}
use micro_saas_api.Database.Rows.{update_rows}

-- BOOKING_STATUSES
pub data BookingStatus : Type 0 where
  pending confirmed cancelled completed : BookingStatus

-- ACTIVE_BOOKING_STATUSES
abbrev pub is_active : BookingStatus → Bool
is_active pending = true
is_active confirmed = true
is_active _ = false

abbrev pub is_pending : BookingStatus → Bool
is_pending pending = true
is_pending _ = false

pub record Booking : Type 0 where
  pub id : ℕ
  pub user_id : ℕ
  pub resource_id : ℕ
  pub contact_id : Option ℕ
  pub conversation_id : Option ℕ
  pub starts_at : ℕ
  pub ends_at : ℕ
  pub status : BookingStatus

pub record Resource : Type 0 where
  pub id : ℕ
  pub user_id : ℕ
  pub active : Bool

-- A contact or a conversation, as far as the calls read it.
pub record Owned : Type 0 where
  pub id : ℕ
  pub user_id : ℕ

pub record Calendar : Type 0 where
  pub resources : List Resource
  pub contacts : List Owned
  pub conversations : List Owned
  pub bookings : List Booking

-- CreateBookingDto
pub record CreateBooking : Type 0 where
  pub resource_id : ℕ
  pub starts_at : Option ℕ
  pub ends_at : Option ℕ
  pub contact_id : Option ℕ
  pub conversation_id : Option ℕ
  pub status : Option BookingStatus

pub data BookingError : Type 0 where
  resource_not_found resource_inactive invalid_range already_booked : BookingError
  contact_not_found conversation_not_found booking_not_found : BookingError

-- The notifications that a call sets off.
pub data Notice : Type 0 where
  owner_booked : Bool → Notice
  customer_confirmed owner_confirmed : Notice
  customer_cancelled : Bool → Notice
  owner_cancelled : Notice

pub record Booked : Type 0 where
  pub booking : Booking
  pub notices : List Notice
  pub calendar : Calendar

-- bookingsOverlap
abbrev pub bookings_overlap : ℕ → ℕ → ℕ → ℕ → Bool
bookings_overlap a_start a_end b_start b_end = ltb a_start b_end && ltb b_start a_end

-- `where` of assertNoConflict
abbrev pub conflicts : ℕ → ℕ → ℕ → ℕ → Booking → Bool
conflicts user_id resource_id starts_at ends_at b =
    b.user_id == user_id
    && b.resource_id == resource_id
    && is_active b.status
    && bookings_overlap b.starts_at b.ends_at starts_at ends_at

-- The checks of the range: both dates parse and the end is after the start.
abbrev pub valid_range : Option ℕ → Option ℕ → Option (ℕ × ℕ)
valid_range (some s) (some e) = if leb e s then none else some (s, e)
valid_range _ _ = none

-- `dto.status ?? 'confirmed'`
abbrev pub status_of : CreateBooking → BookingStatus
status_of dto = elim dto.status [ some s ↦ s | none ↦ confirmed ]

abbrev pub new_booking : ℕ → ℕ → Resource → CreateBooking → ℕ → ℕ → Booking
new_booking fresh_id user_id resource dto s e = record {
  id = fresh_id;
  user_id = user_id;
  resource_id = resource.id;
  contact_id = dto.contact_id;
  conversation_id = dto.conversation_id;
  starts_at = s;
  ends_at = e;
  status = status_of dto;
}

-- The notifications of `updateBookingStatus`, by the old and the new status.
abbrev pub status_notices : BookingStatus → BookingStatus → List Notice
status_notices pending confirmed = customer_confirmed ∷ owner_confirmed ∷ []
status_notices pending cancelled = customer_cancelled true ∷ owner_cancelled ∷ []
status_notices confirmed cancelled = customer_cancelled false ∷ owner_cancelled ∷ []
status_notices _ _ = []

module _ (db : Client) where
  -- requireContact, requireConversation; nothing is asked of an absent id.
  abbrev pub require_owned :
      ℕ → Option ℕ → List Owned → BookingError → Result BookingError (Unit {0})
  require_owned user_id none rows e = ok tt
  require_owned user_id (some id) rows e = do
    found ← or_throw (db.find_first (λ (c : Owned). c.id == id && c.user_id == user_id) rows) e
    ok tt

  -- requireResource
  abbrev pub require_resource : ℕ → ℕ → Calendar → Result BookingError Resource
  require_resource user_id resource_id c =
      or_throw
        (db.find_first (λ (r : Resource). r.id == resource_id && r.user_id == user_id) c.resources)
        resource_not_found

  -- requireBooking
  abbrev pub require_booking : ℕ → ℕ → Calendar → Result BookingError Booking
  require_booking user_id booking_id c =
      or_throw
        (db.find_first (λ (b : Booking). b.id == booking_id && b.user_id == user_id) c.bookings)
        booking_not_found

  -- assertNoConflict
  abbrev pub assert_no_conflict : ℕ → ℕ → ℕ → ℕ → Calendar → Result BookingError (Unit {0})
  assert_no_conflict user_id resource_id s e c =
      elim (db.find_first (conflicts user_id resource_id s e) c.bookings) [
        | none ↦ ok tt
        | some b ↦ err already_booked
      ]

  unfoldable pub create_booking : ℕ → CreateBooking → ℕ → Calendar → Result BookingError Booked
  create_booking user_id dto fresh_id c = do
    resource ← require_resource user_id dto.resource_id c
    require resource.active resource_inactive
    (s, e) ← or_throw (valid_range dto.starts_at dto.ends_at) invalid_range
    assert_no_conflict user_id resource.id s e c
    require_owned user_id dto.contact_id c.contacts contact_not_found
    require_owned user_id dto.conversation_id c.conversations conversation_not_found
    let booking = new_booking fresh_id user_id resource dto s e
    ok (record {
      booking = booking;
      notices = owner_booked (is_pending (status_of dto)) ∷ [];
      calendar = record c { bookings = c.bookings ++ booking ∷ [] };
    })

  unfoldable pub update_booking_status :
      ℕ → ℕ → BookingStatus → Calendar → Result BookingError Booked
  update_booking_status user_id booking_id status c = do
    booking ← require_booking user_id booking_id c
    ok (record {
      booking = record booking { status = status };
      notices = status_notices booking.status status;
      calendar = record c {
        bookings =
            (db.update_many (λ (b : Booking). b.id == booking.id)
              (λ (b : Booking). record b { status = status }) c.bookings).0;
      };
    })

  unfoldable pub cancel_booking : ℕ → ℕ → Calendar → Result BookingError Booked
  cancel_booking user_id booking_id c = update_booking_status user_id booking_id cancelled c
