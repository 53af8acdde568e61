-- ===== src/Lib.antt =====
-- The backend of HubAssist (backend/src): bookings of shared workspaces, their prices and refunds,
-- attendance, the accounts' passwords and tokens, what a request passes before it is answered, the
-- messages that are sent until they arrive, and those that people leave; with parts of its web client
-- (frontend/src).
--
-- The parts and their files:
--
-- Pricing (backend/src/pricing). Rules holds the table of price rules and its operations (createRule,
-- updateRule, deleteRule, assertNoOverlap); Engine the calculation of a price (calculatePrice,
-- buildSegments, findMatchingRule). RuleLaws, RuleSave, RuleOps and RuleRun are about the rules that
-- a table may hold, Slices and Snapshot about the walk over the clock hours.
--
-- Booking (backend/src/bookings). Model has the rows of the tables. Conflict is
-- conflict-detection.service.ts: hasConflict sorts the starts and ends of the bookings that meet a
-- range and counts them. Capacity is capacity-check.service.ts, Refund
-- cancellation-policy.service.ts, Recurrence recurrence.service.ts. Service is create of
-- bookings.service.ts and Lifecycle its other calls (confirm, cancel, cancelSeries, update); these
-- call Conflict, Recurrence, Refund and Pricing.Engine as the services do. Sorting, Sweep,
-- ConflictLaws and Room relate the count to the seats held at each moment; Keys, Overbooking, Safety,
-- SafeCalls, SafeUpdate, SeriesCancel and Reachable are about the calls and what a sequence of them
-- reaches, Overbooked about two calls that go wrong. Policies has the admin calls of
-- cancellation-policy.service.ts, Series is booking-series.service.ts with
-- booking-pricing.service.ts, and SoftDelete is softDelete of
-- backend/src/workspaces/workspaces.service.ts, which cancels bookings.
--
-- Attendance (backend/src/attendance). Clock has clockIn and clockOut of attendance.service.ts and
-- the run of attendance-auto-complete.service.ts; Sessions, SessionCalls and Abandoned are about
-- them, ClockRun about any sequence of them. Pages is getMyAttendance with a client that follows its
-- cursors, Summary is getAttendanceSummary; PageLaws and SummaryLaws are about them.
--
-- Pagination (backend/src/common/pagination). Cursor is cursor.util.ts, which Attendance.Pages uses;
-- CursorLaws is about it, and Sample is one codec that keeps the laws assumed of JSON and base64.
--
-- Requests (backend/src/common). Idempotency is middlewares/idempotency.middleware.ts,
-- with the look-up of a key and its mark as two steps, IdempotencyLaws about what becomes of a key that
-- comes again; Sanitize is
-- pipes/sanitization.pipe.ts with transformers/sanitize-string.transformer.ts, SanitizeLaws about the
-- tags that are left.
--
-- Contact (backend/src/contact). Spam is spam-detection.service.ts, Service is contact.service.ts,
-- which calls it; SpamLaws, KeywordLaws and ServiceLaws are about the score, the table of keywords,
-- and what becomes of the submissions. Newsletter (backend/src/newsletter) has newsletter.service.ts
-- in Service; RollLaws and ListLaws are about its subscribers and their pages.
--
-- Dashboard (backend/src/dashboard). Activity is getActivity of dashboard.service.ts, ActivityLaws is
-- about whose entries it shows and what becomes of its cursors.
--
-- Mail (backend/src/email). Smtp is sendTemplate of email.service.ts with smtp-retry.decorator.ts and
-- smtp-circuit-breaker.ts; SmtpLaws is about what they make of a server that fails.
--
-- Frontend (frontend/src). Csv and Report are utils/exportToCSV.ts with the durations and anomalies
-- of utils/dateUtils.ts, Texts their texts; Csv also has a reader of RFC 4180 as the format's
-- description. CsvLaws and ReportLaws are about the two together. Routes is middleware.ts with
-- lib/auth/decodeToken.ts, and a browser that follows its redirects; RouteRoles and RoutesLaws are
-- about whom it lets pass, RouteLoops about its redirects. Filters is lib/filters/codecs.ts with
-- hooks/useFiltersWithUrl.ts, FiltersLaws about what is read back. Wizard is
-- lib/store/bookingWizardStore.ts, WizardPages the pages of app/dashboard/bookings/new with
-- components/bookings/wizard, and WizardLaws about what they ask of the server.
--
-- Auth (backend/src/auth). RateLimit is otp-rate-limit.service.ts; Otp has verifyOtp, resendOtp,
-- forgotPassword and resetPassword of auth.service.ts, Tokens its login, refresh and logout with
-- refresh-token.repository.ts and token-blacklist.service.ts. RateLaws, OtpLaws and TokenLaws are
-- about them. Register is register with users/providers/create-user.provider.ts of backend/src, and
-- RegisterLaws goes from it to the first log-in. Guards has the global guards of app.module.ts in
-- their order: jwt-auth.guard.ts with jwt.strategy.ts, csrf.guard.ts with csrf.service.ts, and roles,
-- scope and throttler of backend/src/common/guards; GuardRoles, GuardParts and GuardLaws are about
-- them. Base32 and Totp are totp.service.ts, Base32Laws is about the former.
--
-- Delivery. Backoff is backend/src/utils/retry-backoff.ts; Outbox is backend/src/outbox, Webhooks
-- backend/src/webhooks/webhook.service.ts. PublishAll, OutboxLaws, OutboxTaken, OutboxSettles and
-- WebhookLaws are about runs of them.
--
-- Common passes on the library's names and has what all parts share: the tests of JavaScript's operators,
-- lists as tables, calls that return or throw, texts and integers.
--
-- How the code is read: keys and other texts that are only compared are natural numbers; a moment is
-- its milliseconds since 1970, an amount of money its cents. A table is the list of its rows in the
-- order in which the database returns them; rows that are softly deleted are not in it. A call takes
-- the tables and returns them anew, or an error; a call that throws leaves the tables alone, as its
-- transaction does. Calls of one service follow one another: in the booking service the row locks that
-- the code takes make that so; elsewhere it is a restriction of the model, which the theorems on
-- one-time passwords and their resends name. The calls of the cache that mark a key as in flight are
-- steps of their own, between which those of another request may come. What a call sends
-- (notifications, webhooks, the cache) is a list of effects.
-- The arithmetic of JavaScript numbers is the record Numbers, of which a theorem assumes monotone
-- rounding only where it needs it; the rrule package, bcrypt, the Stellar network, the HTTP client,
-- the cipher and what TypeORM stores for an undefined property are parameters.
--
-- Fuel: the walk over a range gets as many steps as clock hours that the range enters, which is what
-- it takes, since each step but the last ends on the hour. The client that reads pages gets one page
-- more than it has rows, and each page but the last has a row.
--
-- Not modelled: the queries that only list rows, the password policy, the administration of users,
-- hubs and workspaces, the statistics, and the parts that render, route or log; of the web client all
-- but the parts above; the contracts, which are another language's.
pub mod Common
pub mod Numbers
pub mod Pricing
pub mod Booking
pub mod Contact
pub mod Newsletter
pub mod Attendance
pub mod Auth
pub mod Dashboard
pub mod Delivery
pub mod Mail
pub mod Pagination
pub mod Requests
pub mod Frontend
