-- ===== src/Bookings.antt =====
-- apps/api/src/bookings/bookings.service.ts: `BookingsService`.
pub mod Overlap
pub mod Exclusive
pub mod Busy
pub mod InviteCode
pub mod Create
pub mod Lifecycle
