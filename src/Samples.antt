-- ===== src/Samples.antt =====
-- A small database for the examples: a student, a tutor, and classes that each example adds.
use pee_rahat.Prelude.{ℕ, false, Option, none, some, [], ◌∷◌}
use pee_rahat.Money.RefundPolicy.{student, RefundPolicy}
use pee_rahat.Store.{
  BookingStatus, SessionType, PaymentItemType, PaymentStatus, PayoutStatus, PostponeStatus, Booking,
  GroupStatus, ParticipantRole, ParticipantStatus, BookingParticipant, PaymentIntent, Payout,
  PostponeRequest, ChatThread, User, Report, ReportTarget, ReportCategory, ReportStatus,
  ReportPriority, Db,
}
use pee_rahat.Bookings.Exclusive.{NoDoubleBooking}

-- 2026-05-25T03:00Z, a Monday
abbrev pub monday : ℕ
monday = 1779678000000

abbrev pub student_row : User
student_row = record {
  supabase_id = 101;
  suspended_until = none;
  email = b'a' ∷ [];
  is_admin = false;
  warning_count = 0;
  false_report_count = 0;
}

-- The student is user 1, the tutor is user 2 with profile 5.
abbrev pub base_db : Db
base_db = record {
  users =
      (1, student_row)
      ∷ (
        2,
        record {
          supabase_id = 102;
          suspended_until = none;
          email = b'b' ∷ [];
          is_admin = false;
          warning_count = 0;
          false_report_count = 0;
        },
      )
      ∷ [];
  tutors = (5, record { user_id = 2; hourly_rate = 300; defect_count = 0 }) ∷ [];
  unavailability = [];
  bookings = [];
  participants = [];
  intents = [];
  payouts = [];
  requests = [];
  ledgers = [];
  reports = [];
  report_events = [];
  sheets = [];
  reviews = [];
  posts = [];
  threads = [];
  thread_participants = [];
  messages = [];
  effects = [];
}

pub base_db-NoDoubleBooking : NoDoubleBooking base_db
base_db-NoDoubleBooking = record { apart = λ u i j b c ne fb fc lb lc ib ic. absurd (cc) }

abbrev pub class_with : BookingStatus → Option ℕ → Booking
class_with status request = record {
  student_id = 1;
  tutor_id = 5;
  subject = 7;
  status = status;
  scheduled_at = 1779764400000;
  duration_minutes = 60;
  amount_thb = 300;
  accept_deadline_at = 1779764400000;
  report_window_ends_at = none;
  session_ended_at = none;
  postpone_request_id = request;
  meeting_url = none;
  google_calendar_event_id = none;
  session_type = SessionType.one_on_one;
  capacity = 1;
  group_status = none;
  invite_code = none;
  invite_expires_at = none;
  tutor_approved_at = none;
}

abbrev pub intent_with : PaymentStatus → Option ℕ → Option ℕ → PaymentIntent
intent_with status released payout = record {
  payer_id = 1;
  item_type = PaymentItemType.booking;
  booking_id = some 10;
  sheet_id = none;
  amount_thb = 300;
  prompt_pay_qr_payload = [];
  original_amount_thb = none;
  status = status;
  slip_object_key = none;
  slip_uploaded_at = none;
  transaction_id = none;
  verified_amount_thb = none;
  zercle_verified_at = none;
  failure_reason = none;
  expires_at = 0;
  released_at = released;
  payout_id = payout;
}

-- The student has proposed to move class 10 by a day.
abbrev pub open_request : PostponeRequest
open_request = record {
  initiator_id = 1;
  initiator_role = student;
  reason = [];
  chat_expires_at = 1779685200000;
  status = PostponeStatus.negotiating;
  proposed_at = some 1779850800000;
  proposed_duration = some 60;
  resolved_at = none;
  resolved_as = none;
  was_short_notice = false;
  created_at = 1779678000000;
}

abbrev pub moving_class : Booking
moving_class = class_with BookingStatus.postpone_pending (some 20)

abbrev pub moving_db : Db
moving_db = record base_db {
  bookings = (10, moving_class) ∷ [];
  intents = (40, intent_with PaymentStatus.held_in_escrow none none) ∷ [];
  requests = (20, open_request) ∷ [];
}

-- The escrow of class 10 was released at the instant 50.
abbrev pub payable_db : Db
payable_db = record base_db {
  bookings = (10, class_with BookingStatus.completed none) ∷ [];
  intents = (40, intent_with PaymentStatus.released_for_payout (some 50) none) ∷ [];
}

-- The student has reported class 10, whose escrow of 300 baht is released.
abbrev pub complaint : Report
complaint = record {
  reporter_id = 1;
  target_type = ReportTarget.booking;
  target_id = 10;
  target_user_id = some 2;
  category = ReportCategory.no_show;
  status = ReportStatus.pending;
  priority = ReportPriority.high;
  sla_deadline = monday;
  assigned_to_id = none;
  resolved_at = none;
  resolution = none;
  linked_booking_id = some 10;
  parent_report_id = none;
  evidence_keys = [];
  created_at = monday;
}

abbrev pub reported_db : Db
reported_db = record payable_db { reports = (70, complaint) ∷ [] }

-- The thread of the student and the tutor.
abbrev pub pair_thread : Option ℕ → ChatThread
pair_thread booking_id = record {
  student_id = some 1;
  tutor_id = 5;
  booking_id = booking_id;
  session_type = SessionType.one_on_one;
  student_last_read_at = none;
  tutor_last_read_at = none;
  closed_at = none;
}

abbrev pub batch : Payout
batch = record {
  tutor_id = 5;
  period_start = 0;
  period_end = 100;
  gross_thb = 300;
  commission_thb = 30;
  withholding_tax_thb = 8;
  net_thb = 262;
  scheduled_at = 100;
  status = PayoutStatus.pending;
  transferred_at = none;
  transferred_by = none;
  transfer_slip_key = none;
  notes = none;
  paid_at = none;
}

abbrev pub batched_db : Db
batched_db = record base_db {
  intents = (40, intent_with PaymentStatus.released_for_payout (some 50) (some 30)) ∷ [];
  payouts = (30, batch) ∷ [];
}

abbrev pub default_policy : RefundPolicy
default_policy = record { tutor_cut_short_notice = 5000; platform_fee_short_notice = 1000 }

-- Class 10 as a group of two.
abbrev pub group_class : GroupStatus → Booking
group_class g = record (class_with BookingStatus.requested none) {
  session_type = SessionType.group;
  capacity = 2;
  group_status = some g;
  invite_code = some (b'G' ∷ b'1' ∷ []);
  invite_expires_at = some 1779700000000;
}

abbrev pub seat : ℕ → ParticipantRole → ParticipantStatus → BookingParticipant
seat user role status = record {
  booking_id = 10;
  student_id = user;
  role = role;
  status = status;
  payment_intent_id = none;
  accepted_at = none;
  paid_at = none;
}

-- The student hosts the group and has invited user 3, whose seat has the given status.
abbrev pub group_db : GroupStatus → ParticipantStatus → Db
group_db g s = record base_db {
  users =
      (
        3,
        record {
          supabase_id = 103;
          suspended_until = none;
          email = b'c' ∷ [];
          is_admin = false;
          warning_count = 0;
          false_report_count = 0;
        },
      )
      ∷ base_db.users;
  bookings = (10, group_class g) ∷ [];
  participants =
      (61, seat 3 ParticipantRole.invited s)
      ∷ (60, seat 1 ParticipantRole.host ParticipantStatus.accepted)
      ∷ [];
  intents = (40, intent_with PaymentStatus.held_in_escrow none none) ∷ [];
}
