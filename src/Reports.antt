-- ===== src/Reports.antt =====
-- apps/api/src/reports: the limits of filing (`report-rate-limit.service.ts`), the priority
-- (`report-priority.service.ts`), the targets (`target-resolver.service.ts`), the filing
-- (`reports.service.ts`), what the resolution of a report does (`report-resolution.service.ts`), the
-- administration (`admin-reports.service.ts`) and the jobs (`report-cron.service.ts`).
pub mod RateLimit
pub mod Priority
pub mod Targets
pub mod Filing
pub mod Resolution
pub mod Administration
pub mod Cron
