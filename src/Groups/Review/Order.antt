-- ===== src/Groups/Review/Order.antt =====
-- The host's payment of a group that its tutor has approved: `onParticipantPaid` of
-- apps/api/src/bookings/group-session.service.ts.
