-- ===== src/Groups/Flow.antt =====
-- The states of a group: `forming`, then `tutor_review`, then `confirmed` or `failed`
-- (apps/api/src/bookings/group-session.service.ts, the comment above the class).
mod Steps
mod Failing
mod Members
mod Reviewing
mod Stranded
mod Calls
mod Tests
pub use Steps.{Flow, Follows}
pub use Calls.{GroupCall, after, run_calls}
