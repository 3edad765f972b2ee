-- ===== src/Store/Rows.antt =====
-- The rows of the database, and the database. Ids, texts and file keys are numbers that are only
-- compared; an instant is its milliseconds since 1970. Columns that no modelled service reads or
-- writes are left out.
use pee_rahat.Prelude.{ℕ, Bool, Option, List, Table, ℤ}
use pee_rahat.Money.RefundPolicy.{PostponeInitiator, PostponeOutcome}
use pee_rahat.Store.Enums.{
  BookingStatus, SessionType, GroupStatus, ParticipantRole, ParticipantStatus, PaymentItemType,
  PaymentStatus, PayoutStatus, PostponeStatus, RefundReason, ReportTarget, ReportCategory,
  ReportStatus, ReportPriority, ReportResolution, ReportEventKind, NotificationType, AdminAction,
}

pub record User : Type 0 where
  pub supabase_id : ℕ
  pub suspended_until : Option ℕ
  pub email : List ℕ  -- its characters
  pub is_admin : Bool
  pub warning_count : ℕ
  pub false_report_count : ℕ

pub record TutorProfile : Type 0 where
  pub user_id : ℕ
  pub hourly_rate : ℕ
  pub defect_count : ℕ

pub record TutorUnavailability : Type 0 where
  pub tutor_id : ℕ
  pub weekday : ℕ
  pub start_minute : ℕ
  pub end_minute : ℕ

pub record Booking : Type 0 where
  pub student_id : ℕ
  pub tutor_id : ℕ
  pub subject : ℕ
  pub status : BookingStatus
  pub scheduled_at : ℕ
  pub duration_minutes : ℕ
  pub amount_thb : ℕ
  pub accept_deadline_at : ℕ
  pub report_window_ends_at : Option ℕ
  pub session_ended_at : Option ℕ
  pub postpone_request_id : Option ℕ
  pub meeting_url : Option ℕ
  pub google_calendar_event_id : Option ℕ
  pub session_type : SessionType
  pub capacity : ℕ
  pub group_status : Option GroupStatus
  pub invite_code : Option (List ℕ)
  pub invite_expires_at : Option ℕ
  pub tutor_approved_at : Option ℕ

pub record BookingParticipant : Type 0 where
  pub booking_id : ℕ
  pub student_id : ℕ
  pub role : ParticipantRole
  pub status : ParticipantStatus
  pub payment_intent_id : Option ℕ
  pub accepted_at : Option ℕ
  pub paid_at : Option ℕ

pub record PaymentIntent : Type 0 where
  pub payer_id : ℕ
  pub item_type : PaymentItemType
  pub booking_id : Option ℕ
  pub sheet_id : Option ℕ
  pub amount_thb : ℕ
  pub prompt_pay_qr_payload : List ℕ
  pub original_amount_thb : Option ℕ
  pub status : PaymentStatus
  pub slip_object_key : Option ℕ
  pub slip_uploaded_at : Option ℕ
  pub transaction_id : Option ℕ
  pub verified_amount_thb : Option ℕ
  pub zercle_verified_at : Option ℕ
  pub failure_reason : Option ℕ
  pub expires_at : ℕ
  pub released_at : Option ℕ
  pub payout_id : Option ℕ

pub record Payout : Type 0 where
  pub tutor_id : ℕ
  pub period_start : ℕ
  pub period_end : ℕ
  pub gross_thb : ℕ
  pub commission_thb : ℕ
  pub withholding_tax_thb : ℕ
  pub net_thb : ℕ
  pub scheduled_at : ℕ
  pub status : PayoutStatus
  pub transferred_at : Option ℕ
  pub transferred_by : Option ℕ
  pub transfer_slip_key : Option ℕ
  pub notes : Option ℕ
  pub paid_at : Option ℕ

pub record PostponeRequest : Type 0 where
  pub initiator_id : ℕ
  pub initiator_role : PostponeInitiator
  pub reason : List ℕ
  pub chat_expires_at : ℕ
  pub status : PostponeStatus
  pub proposed_at : Option ℕ
  pub proposed_duration : Option ℕ
  pub resolved_at : Option ℕ
  pub resolved_as : Option PostponeOutcome
  pub was_short_notice : Bool
  pub created_at : ℕ

pub record RefundLedger : Type 0 where
  pub payment_intent_id : ℕ
  pub booking_id : ℕ
  pub original_amount_thb : ℕ
  pub student_refund_thb : ℤ
  pub tutor_thb : ℤ
  pub platform_thb : ℤ
  pub reason_code : RefundReason
  pub report_id : Option ℕ

pub record Report : Type 0 where
  pub reporter_id : ℕ
  pub target_type : ReportTarget
  pub target_id : ℕ
  pub target_user_id : Option ℕ
  pub category : ReportCategory
  pub status : ReportStatus
  pub priority : ReportPriority
  pub sla_deadline : ℕ
  pub assigned_to_id : Option ℕ
  pub resolved_at : Option ℕ
  pub resolution : Option ReportResolution
  pub linked_booking_id : Option ℕ
  pub parent_report_id : Option ℕ
  pub evidence_keys : List (List ℕ)  -- their characters
  pub created_at : ℕ

pub record ReportEvent : Type 0 where
  pub report_id : ℕ
  pub kind : ReportEventKind
  pub author_id : ℕ
  pub evidence_keys : List (List ℕ)

-- `removed`, `removedReason` and `removedAt`: what a moderator has taken down, with the reason.
pub record Removal : Type 0 where
  pub reason : ℕ
  pub at : ℕ

pub record StudySheet : Type 0 where
  pub seller_id : ℕ
  pub price_thb : ℕ
  pub is_suspended : Bool
  pub removal : Option Removal

pub record TutorReview : Type 0 where
  pub student_id : ℕ
  pub booking_id : ℕ
  pub removal : Option Removal

pub record CommunityPost : Type 0 where
  pub author_id : ℕ
  pub removal : Option Removal

pub record ChatThread : Type 0 where
  pub student_id : Option ℕ
  pub tutor_id : ℕ
  pub booking_id : Option ℕ
  pub session_type : SessionType
  pub student_last_read_at : Option ℕ
  pub tutor_last_read_at : Option ℕ
  pub closed_at : Option ℕ

pub record ChatThreadParticipant : Type 0 where
  pub thread_id : ℕ
  pub user_id : ℕ
  pub last_read_at : Option ℕ

pub record ChatMessage : Type 0 where
  pub thread_id : ℕ
  pub author_id : ℕ
  pub is_user_kind : Bool
  pub created_at : ℕ
  pub redacted : Bool

-- A call of another service or of an outside system, as it is made.
pub data Effect : Type 0 where
  -- `NotificationService.notify`: the user and the type
  notify : ℕ → NotificationType → Effect
  -- `SseGateway.publishInvalidate`: the audience
  invalidate : List ℕ → Effect
  -- `ChatService.ensureThreadForBooking` and `postSystemMessage`, then `closeThread`
  system_message : ℕ → ℕ → Effect
  close_thread : ℕ → Effect
  create_group_thread : ℕ → Effect
  -- `PostponeQueue`
  enqueue_timeout : ℕ → ℕ → Effect
  cancel_timeout : ℕ → Effect
  -- `GoogleCalendarService`
  attach_to_booking : ℕ → Effect
  delete_event : ℕ → ℕ → Effect
  -- `AuditService.recordAdminAction`: the administrator, the action and its target
  admin_action : ℕ → AdminAction → ℕ → Effect
  -- `StorageService.deleteObject`
  delete_object : List ℕ → Effect

pub record Db : Type 0 where
  pub users : Table User
  pub tutors : Table TutorProfile
  pub unavailability : Table TutorUnavailability
  pub bookings : Table Booking
  pub participants : Table BookingParticipant
  pub intents : Table PaymentIntent
  pub payouts : Table Payout
  pub requests : Table PostponeRequest
  pub ledgers : Table RefundLedger
  pub reports : Table Report
  pub report_events : Table ReportEvent
  pub sheets : Table StudySheet
  pub reviews : Table TutorReview
  pub posts : Table CommunityPost
  pub threads : Table ChatThread
  pub thread_participants : Table ChatThreadParticipant
  pub messages : Table ChatMessage
  pub effects : List Effect
