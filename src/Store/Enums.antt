-- ===== src/Store/Enums.antt =====
-- The enumerations of apps/api/prisma/schema.prisma that the modelled services use.
use mathlib.Core.Bool.{Bool, true, false}

pub data BookingStatus : Type 0 where
  requested accepted rejected expired paid completed reported refunded cancelled : BookingStatus
  postpone_pending postponed cancelled_no_agreement cancelled_tutor_unresponsive : BookingStatus
  cancelled_tutor_initiated cancelled_by_student : BookingStatus

pub data SessionType : Type 0 where
  one_on_one group : SessionType

pub data GroupStatus : Type 0 where
  forming tutor_review confirmed failed : GroupStatus

pub data ParticipantRole : Type 0 where
  host invited : ParticipantRole

pub data ParticipantStatus : Type 0 where
  invited accepted declined paid expired : ParticipantStatus

pub data PaymentItemType : Type 0 where
  booking sheet : PaymentItemType

pub data PaymentStatus : Type 0 where
  pending_transfer slip_uploaded verifying verified held_in_escrow : PaymentStatus
  released_for_payout paid_out refunded failed disputed partially_refunded : PaymentStatus

pub data PayoutStatus : Type 0 where
  pending in_progress completed failed : PayoutStatus

pub data PostponeStatus : Type 0 where
  negotiating agreed expired : PostponeStatus

pub data RefundReason : Type 0 where
  postpone_short_notice_no_agreement postpone_unresponsive : RefundReason
  postpone_tutor_initiated_no_agreement admin_manual : RefundReason
  group_invite_expired group_payment_incomplete group_rejected_by_tutor : RefundReason

pub data ReportTarget : Type 0 where
  booking chat_message sheet review community_post : ReportTarget

pub data ReportCategory : Type 0 where
  no_show fraud abuse harassment scam off_platform_solicitation fake_credentials : ReportCategory
  impersonation inappropriate_content pirated_content quality_issue payment_issue : ReportCategory
  spam misinformation other : ReportCategory

pub data ReportStatus : Type 0 where
  pending under_review escalated resolved rejected duplicate : ReportStatus

pub data ReportPriority : Type 0 where
  low normal high urgent : ReportPriority

pub data ReportResolution : Type 0 where
  no_action warning_issued suspension_temp suspension_perm refund_partial : ReportResolution
  refund_full content_removed account_banned reporter_warned : ReportResolution

pub data ReportEventKind : Type 0 where
  reporter_comment admin_note status_change assignment resolution : ReportEventKind

-- The names of the actions on reports in the audit log.
pub data AdminAction : Type 0 where
  assign_report update_report_status resolve_report add_report_note : AdminAction
  mark_report_duplicate : AdminAction

pub data NotificationType : Type 0 where
  report_sla_overdue report_filed report_under_review report_resolved : NotificationType
  report_reporter_warned report_warning report_suspension report_content_removed : NotificationType
  booking_requested booking_rejected booking_accepted booking_meeting_ready : NotificationType
  payment_verified booking_paid : NotificationType
  group_invite_responded group_ready_for_review group_decision group_status_changed :
      NotificationType

abbrev pub is_group : SessionType → Bool
is_group group = true
is_group one_on_one = false
