-- ===== src/Availability.antt =====
-- modules/availability: the bookable resources of a tenant, their slots and bookings.
pub mod Bookings
pub mod Slots
