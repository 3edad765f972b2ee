-- ===== src/Postpone.antt =====
-- `PostponeService` (apps/api/src/bookings/postpone.service.ts): the negotiation to move a paid class.
-- The calls of the chat, the timeout queue and the calendar are recorded as effects.
pub mod Requests
pub mod Confirm
pub mod Resolve
pub mod Committed
pub mod Slots
pub mod Moved
pub mod Stranded
pub mod Once
pub mod Settlement
mod Tests
