-- ===== src/Availability/Bookings/Disjoint.antt =====
-- availability.service.ts: bookings that clash, and sequences of calls.
use micro_saas_api.Base.{
  or_throw-ok, Ends-ok, Ends-bind, answers, Ends, All-append, ℕ, ◌≡◌, inl, inr, Bool, true, false,
  ◌&&◌, List, [], ◌∷◌, ◌++◌, if◌then◌else◌, Bool-cases, Option-cases, arith, All, ◌==◌, ok,
}
use micro_saas_api.Database.{Client}
use micro_saas_api.Database.Rows.{update_rows}
use micro_saas_api.Availability.Bookings.{
  Resource, BookingStatus, is_active, Booking, Calendar, CreateBooking, Booked, conflicts,
  new_booking, assert_no_conflict, require_booking, create_booking, update_booking_status,
}

-- Two active bookings of one resource of one tenant whose times overlap.
abbrev pub clash : Booking → Booking → Bool
clash a b = is_active b.status && conflicts b.user_id b.resource_id b.starts_at b.ends_at a

abbrev pub Disjoint : List Booking → Type 0
Disjoint [] = Unit
Disjoint (b ∷ bs) = All (λ c. clash b c ≡ false) bs × Disjoint bs

Disjoint-append :
    (xs : List Booking) (b : Booking)
    → Disjoint xs
    → All (λ x. clash x b ≡ false) xs
    → Disjoint (xs ++ b ∷ [])
Disjoint-append [] b d h = (tt, tt)
Disjoint-append (x ∷ xs) b (a, d) (h, hs) =
    (All-append (λ c. clash x c ≡ false) xs (b ∷ []) a (h, tt), Disjoint-append xs b d hs)

new_booking-clash :
    (fresh user_id s e : ℕ) (r : Resource) (dto : CreateBooking) (xs : List Booking)
    → All (λ x. conflicts user_id r.id s e x ≡ false) xs
    → All (λ x. clash x (new_booking fresh user_id r dto s e) ≡ false) xs
new_booking-clash fresh user_id s e r dto [] h = tt
new_booking-clash fresh user_id s e r dto (x ∷ xs) (h, hs) =
    (ground (arith, h), new_booking-clash fresh user_id s e r dto xs hs)

-- A booking with another status.
abbrev moved : BookingStatus → Booking → Booking
moved status b = record b { status = status }

-- A new status that makes a booking active only if it was does not make it clash.
module _ (p : Booking → Bool) (status : BookingStatus) where
  Keeps : Booking → Type 0
  Keeps b = is_active status ≡ true → p b ≡ true → is_active b.status ≡ true

  moved-clash :
      (a b : Booking)
      → Keeps a
      → Keeps b
      → clash a b ≡ false
      → clash (if p a then moved status a else a) (if p b then moved status b else b) ≡ false
  unfolding Keeps
  moved-clash a b ka kb h = elim (Bool-cases (p a)) [
    | inl x ↦ elim (Bool-cases (p b)) [
      | inl y ↦ rw (x, y) (ground (arith, h, ka, kb, x, y))
      | inr y ↦ rw (x, y) (ground (arith, h, ka, kb, x, y))
    ]
    | inr x ↦ elim (Bool-cases (p b)) [
      | inl y ↦ rw (x, y) (ground (arith, h, ka, kb, x, y))
      | inr y ↦ rw (x, y) h
    ]
  ]

  moved-All :
      (a : Booking) (xs : List Booking)
      → Keeps a
      → All Keeps xs
      → All (λ c. clash a c ≡ false) xs
      → All
          (λ c. clash (if p a then moved status a else a) c ≡ false)
          (update_rows p (moved status) xs)
  moved-All a [] ka ks h = tt
  moved-All a (x ∷ xs) ka (k, ks) (h, hs) = (moved-clash a x ka k h, moved-All a xs ka ks hs)

  moved-Disjoint :
      (xs : List Booking) → All Keeps xs → Disjoint xs → Disjoint (update_rows p (moved status) xs)
  moved-Disjoint [] ks d = tt
  moved-Disjoint (x ∷ xs) (k, ks) (h, d) = (moved-All x xs k ks h, moved-Disjoint xs ks d)

  Keeps-All :
      (xs : List Booking)
      → (is_active status ≡ true → All (λ b. p b ≡ true → is_active b.status ≡ true) xs)
      → All Keeps xs
  unfolding Keeps
  Keeps-All [] k = tt
  Keeps-All (x ∷ xs) k = ((λ s y. (k s).0 y), Keeps-All xs (λ s. (k s).1))

no_conflict_lem :
    (db : Client) (user_id resource_id s e : ℕ) (c : Calendar) {u : Unit {0}}
    → assert_no_conflict db user_id resource_id s e c ≡ ok u
    → All (λ b. conflicts user_id resource_id s e b ≡ false) c.bookings
no_conflict_lem db user_id resource_id s e c h =
    elim (Option-cases (db.find_first (conflicts user_id resource_id s e) c.bookings)) [
      | inl n ↦ db.find_first-none _ c.bookings n
      | inr (b, m) ↦ absurd (ground (arith, m, h))
    ]

require_booking_lem :
    (db : Client) (user_id booking_id : ℕ) (c : Calendar) (b : Booking)
    → require_booking db user_id booking_id c ≡ ok b
    → b.id ≡ booking_id
require_booking_lem db user_id booking_id c b h =
    ground (arith, db.find_first-some _ c.bookings b (or_throw-ok _ _ h))

module _ (db : Client) where
  -- A call that succeeds. No status change makes a booking active that is not: it would take its
  -- time without a look at the other bookings.
  pub data Step (c : Calendar) : Calendar → Type 0 where
    created :
        (user_id fresh_id : ℕ) (dto : CreateBooking) (r : Booked)
        → create_booking db user_id dto fresh_id c ≡ ok r
        → Step c r.calendar
    changed :
        (user_id booking_id : ℕ) (status : BookingStatus) (r : Booked)
        → update_booking_status db user_id booking_id status c ≡ ok r
        → (is_active status ≡ true
            → All (λ b. (b.id == booking_id) ≡ true → is_active b.status ≡ true) c.bookings)
        → Step c r.calendar

  -- Any sequence of such calls.
  pub data Reach (c : Calendar) : Calendar → Type 0 where
    start : Reach c c
    next : {d e : Calendar} → Reach c d → Step d e → Reach c e

  create_booking-Disjoint :
      (user_id fresh_id : ℕ) (dto : CreateBooking) (c : Calendar)
      → Disjoint c.bookings
      → Ends
          (λ (r : Booked). Disjoint r.calendar.bookings)
          (create_booking db user_id dto fresh_id c)
  unfolding create_booking
  create_booking-Disjoint user_id fresh_id dto c d = Ends-bind λ resource _. Ends-bind λ _ _.
      Ends-bind λ range _. Ends-bind λ _ free. Ends-bind λ _ _. Ends-bind λ _ _. answers (
        Disjoint-append c.bookings _ d (
          new_booking-clash fresh_id user_id range.0 range.1 resource dto c.bookings
            (no_conflict_lem db user_id resource.id range.0 range.1 c free)))

  update_booking_status-Disjoint :
      (user_id booking_id : ℕ) (status : BookingStatus) (c : Calendar)
      → Disjoint c.bookings
      → (is_active status ≡ true
          → All (λ b. (b.id == booking_id) ≡ true → is_active b.status ≡ true) c.bookings)
      → Ends
          (λ (r : Booked). Disjoint r.calendar.bookings)
          (update_booking_status db user_id booking_id status c)
  unfolding update_booking_status
  update_booking_status-Disjoint user_id booking_id status c d k = Ends-bind λ b found. answers (
      rw
        (
          db.update_many_rows (λ x. x.id == b.id) (moved status) c.bookings,
          require_booking_lem db user_id booking_id c b found,
        )
        (moved-Disjoint _ status c.bookings (Keeps-All _ status c.bookings k) d))

  -- A calendar without double bookings has none after any sequence of bookings and changes of status
  -- that make no booking active that is not.
  pub Reach-Disjoint : (c d : Calendar) → Disjoint c.bookings → Reach c d → Disjoint d.bookings
  Reach-Disjoint c d h start = h
  Reach-Disjoint c d h (next r (created user_id fresh_id dto b e)) =
      Ends-ok (create_booking-Disjoint user_id fresh_id dto _ (Reach-Disjoint c _ h r)) e
  Reach-Disjoint c d h (next r (changed user_id booking_id status b e k)) =
      Ends-ok
        (update_booking_status-Disjoint user_id booking_id status _ (Reach-Disjoint c _ h r) k) e
