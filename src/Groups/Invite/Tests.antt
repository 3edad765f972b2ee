-- ===== src/Groups/Invite/Tests.antt =====
-- Runs of the extension of an invitation.
