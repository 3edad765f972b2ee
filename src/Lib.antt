-- ===== src/Lib.antt =====
-- The booking and escrow core of PEE-RAHAT, a marketplace for tutoring: apps/api (NestJS and Prisma)
-- with the shared functions of packages/types.
--
-- A student asks for a class (`BookingsService.create`), the tutor accepts it, the student pays into
-- an escrow, and after the class and its report window the escrow is released and gathered into a
-- payout of the tutor. Either side of a paid class may ask to move it (`PostponeService`): the
-- negotiation ends with a new booking that takes over the escrow, or with a split of the escrow
-- between the student, the tutor and the platform (`RefundPolicyService`). A group class is formed by
-- invitations, reviewed by its tutor, paid by its host and then confirmed, or fails with a refund
-- (`GroupSessionService`). A user files a report within limits (`ReportsService`), and an administrator
-- reviews it and closes it with a decision that may refund, suspend or take content down
-- (`AdminReportsService`, `ReportResolutionService`). The admission score of a student
-- (`calculateScore`) is a pure function beside these.
--
-- Files and the code that they are about (under apps/api/src where no other root is named):
--   Prelude                 tests, options, integers, errors as values, tables
--   Store                   prisma/schema.prisma of apps/api, common/user-lookup.ts, the fan-out of
--                           bookings/bookings.service.ts, the monad of the services
--   Calendar                packages/types/src/time.ts, common/availability-window.ts,
--                           `intervalsOverlap` and `expandWeeklyRules` of bookings/bookings.service.ts
--   Money/Pricing           payments/pricing.ts
--   Money/RefundPolicy      payments/refund-policy.service.ts
--   Bookings/Overlap        `assertNoOverlap` of bookings/bookings.service.ts
--   Bookings/Exclusive      the invariant that the overlap checks serve
--   Bookings/Busy           `collectBusyForUserId` and `listBusyForUser`
--   Bookings/InviteCode     `generateInviteCode` and `clampInviteExpiry`
--   Bookings/Create         `create`
--   Bookings/Lifecycle      `cancelByStudent`, `rejectByTutor`, `accept`, `endSession`, `report`
--   Groups                  bookings/group-session.service.ts: the addresses (Emails), the invitations
--                           (Invite), failures and sweeps (Failure), review and confirmation (Review),
--                           and the states over sequences of their calls (Flow)
--   Payments/PromptPay      payments/promptpay.ts: the encoder, and the parser
--   Payments/Zercle         payments/zercle-slip/zercle-slip.service.ts
--   Payments/Intents        `requestSlipUpload` and `createIntent` of payments/payments.service.ts
--   Payments/Slips          `uploadSlip` of payments/payments.service.ts; `approveSlip`, `rejectSlip`,
--                           `freezeBooking` and `regenerateMeet` of admin/admin.service.ts
--   Payments/Payouts        payments/payouts.service.ts
--   Payments/Release        `releaseForPayout` of payments/payments.service.ts
--   Reports/RateLimit       reports/report-rate-limit.service.ts
--   Reports/Priority        reports/report-priority.service.ts
--   Reports/Targets         reports/target-resolver.service.ts
--   Reports/Filing          `create` and `addComment` of reports/reports.service.ts
--   Reports/Resolution      reports/report-resolution.service.ts
--   Reports/Administration  reports/admin-reports.service.ts
--   Reports/Cron            reports/report-cron.service.ts
--   Postpone                bookings/postpone.service.ts
--   Chat                    chat/chat.service.ts: what changes threads and messages
--   Score                   score-algorithm.ts of packages/types/src: types (Types), what it is to
--                           decide (Checks), its loops (Gathering), its result (Verdict, Missing,
--                           Decided)
--   Samples                 the database of the examples
--
-- The state is one record, `Db`, with a table for each model; a table is a list of rows with their
-- ids. A service call is an action on it that ends with a value or an error, and keeps what was written
-- before an error unless a transaction takes it back. A record in a table has the columns that the
-- modelled services read or write. Names in the development are those of the source in snake case.
--
-- Choices:
--   * Ids, keys of files and most texts are numbers that are only compared. E-mail addresses, invite
--     codes, QR payloads, codes of exams and keys of evidence are lists of character codes, with the
--     case and the spaces of ASCII. A new id is one that the table does not have; the database
--     guarantees as much.
--   * An instant is its milliseconds since 1970, and the process runs in UTC. A call reads the clock
--     once.
--   * The score is over a type of numbers whose operations are a parameter, since the source computes
--     with floats.
--   * Amounts are whole baht. Percentages of the environment are arguments, in hundredths of a
--     percent, and may be unset or unreadable.
--   * Where the source subtracts, the result is an integer, or the subtrahend is at most the minuend.
--     An instant that is compared after a subtraction is later than 1970 by more than what is taken off.
--     The age of a transfer in the future is 0.
--   * The database may abort a serialisable transaction: the argument `aborted` of `create`, of
--     `accept_invite`, and of the calls that may confirm a group.
--   * In the services, calls of the chat, the notifications, the event stream, the queue and Google
--     Calendar are recorded as effects, in the order of the calls; their texts are left out.
--   * `emit_digits` has three units of fuel: at most twelve bits wait, so at most two digits go out.
--     `expand_days` is bounded by the number of days from the first to the last of the window.
--   * The answers of the slip service and the merchant's id are arguments. Amounts of PromptPay
--     payloads are whole baht.
--   * The loops of the parser of payloads run on fuel and are given back as unfinished without it: a
--     round for each field of a payload that the encoder wrote, and one more, are enough. The source
--     has no bound.
--   * `decimal` has one more unit of fuel than its number, which has fewer digits.
--
-- Not modelled: listings and the shape of responses, logging, the schemas of the requests, the rest of
-- the administration, uploads, the filter of the chat, community, TCAS pages, tutors, sheets, users and
-- the web application, which are mostly queries and display.
pub mod Prelude
pub mod Money
pub mod Store
pub mod Calendar
pub mod Bookings
pub mod Payments
pub mod Postpone
pub mod Groups
pub mod Reports
pub mod Chat
pub mod Score
pub mod Samples
