-- ===== src/Groups.antt =====
-- `GroupSessionService` (apps/api/src/bookings/group-session.service.ts): the life of a group class,
-- from the invitations over the tutor's review to its confirmation or failure. A call reads the clock
-- once; `aborted` says that the database aborted the call's serialisable transaction.
pub mod Emails
pub mod Invite
pub mod Failure
pub mod Review
pub mod Flow
