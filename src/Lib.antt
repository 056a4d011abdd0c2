-- ===== src/Lib.antt =====
-- RoleBrief: the core of the backend, which tracks a candidate's applications, processes uploaded
-- resumes, judges eligibility for jobs, compares and ranks them, scores profiles, watches new jobs
-- for alerts, keeps saved jobs and notifications, and guards all of it by accounts and sessions.
--
-- Tracker models backend/src/modules/tracker. Tracker.Types has the rows
-- (backend/prisma/schema.prisma) and the request bodies (dto/tracker.dto.ts) with a Store of the
-- tables; Tracker.Transitions is ALLOWED_STAGE_TRANSITIONS and validateTransition;
-- Tracker.Queries, Tracker.Create and Tracker.Update are the operations of TrackerService.
-- `update` and `delete` read a row and write it later by a conditional query: each half is a
-- function of its own (update_read and update_commit, delete_read and delete_commit), so that the
-- theorems of Tracker.Locking speak of requests that interleave. A transaction is one step.
-- Tracker.Requests runs the requests of the controller one after the other. Tracker.Cursor is
-- tracker-cursor.util.ts, Tracker.Listing is `list`, and Tracker.Walk follows its cursors as a
-- client does.
--
-- Cursors has what the signed cursors of the modules share: a token of a body, a dot and the
-- signature of the body. Notifications models backend/src/modules/notifications with its own
-- cursor; Notifications.Walk follows it. A client asks for pages on fuel: one request more than
-- there are rows is enough, since every page but the last shows a row.
--
-- Saved models the saving of jobs in backend/src/modules/saved/saved.service.ts.
--
-- RateLimit models backend/src/common/rate-limit/rate-limit.service.ts,
-- backend/src/modules/resumes/resume-rate-limit.service.ts and
-- backend/src/auth/rate-limit.service.ts over the commands of Redis.
--
-- Resume models backend/src/modules/resumes/processing: Resume.Verification is
-- ResumeProcessingService, Resume.Extraction is ResumeExtractionService, each with the lease that
-- acquireLease takes and the conditional updates, and a whole run, which nothing interrupts, in its
-- child Run. acquireLease reads the document and writes it later, outside a transaction: read_lease
-- and write_lease are its halves. Resume.Steps lets the writes of any number of workers and the
-- halves of acquireLease come in any order, with the queue of extractions between the two services;
-- its bound on the calls of acquireLease that are under way at once is a parameter. One document is followed: every write of the services names its row
-- or tests each row by itself; a job whose row is missing changes nothing and is left out.
-- Resume.Review is the policy and the summary of the review of a draft, and Resume.Drafts is
-- updateDraft, which stores it (backend/src/modules/resumes/review); its two halves are
-- update_read and update_commit.
--
-- Alerts models backend/src/modules/alerts. Alerts.Outbox is job-outbox-dispatcher.service.ts, with
-- the event that the persistence of a job creates and the note that the worker leaves;
-- Alerts.Outbox.Rounds lets the dispatcher, the reaper, the workers and the ingestion come in any
-- order, and a predicate of the rows tells what other transactions hold locked. Alerts.Criteria and
-- Alerts.Evaluation are alert-evaluation.processor.ts, on the evaluators of Matching and Eligibility,
-- with a fault for each alert that tells which of its calls fails. Alerts.Service is
-- alerts.service.ts; an update reads a row and writes it by its revision (read_alert, commit_alert).
--
-- Auth models backend/src/auth. Auth.Sessions has createSession, refresh, logout and the guard of
-- auth.guard.ts, Auth.Sessions.Revocation the other operations that end sessions, Auth.Login signing
-- in and recordFailedLogin, Auth.Recovery the accounts and tokens of mails, and Auth.Admins
-- ensureCanRemoveFinalAdmin with the two updates of backend/src/admin/admin.controller.ts that call
-- it. `refresh` reads a session and rotates it in a transaction later, which runs at READ COMMITTED
-- and reads the session again before it writes: begin_refresh, check_refresh and rotate_session are
-- its parts (finish_refresh the last two of them without anything in between), and Auth.Requests is
-- the relation of the steps, in which others come between them. A step that checks a session asks
-- that no other transaction of its family is between its read and its writes, which the source
-- does not enforce. `login` takes the family of the new session as an argument, and
-- Auth.Requests asks that it is new, as randomUUID gives it.
--
-- Eligibility models backend/src/modules/eligibility: the time zone resolver and the three
-- dimensions that the evaluator puts together.
--
-- Matching models backend/src/modules/matching: Matching.Facts has the facts and the texts that
-- are compared, Matching.Evaluator and Matching.Compensation the five dimensions, Matching.Brief
-- the brief that `evaluate` makes of them.
--
-- Radar models the ranking of backend/src/modules/radar; it takes the summary of Eligibility and
-- the brief of Matching as they are. Radar.Before tells which of two jobs goes first without the
-- numbers of the ranking. Profile models backend/src/modules/profile/profile-completeness.util.ts.
--
-- Common has Boolean tests, lists, texts, integers, the stable sort of the platform, and pages by
-- a keyset.
--
-- Numbers are natural numbers without a bound: they count rows, attempts and milliseconds far
-- below the range where JavaScript loses precision. Instants are milliseconds, also where the
-- source prints them. Identifiers are numbers, those of the tracker handed out in order. The
-- other fuel is that of printing a number in Eligibility.Timezone: a number has no more digits
-- than its value and one.
--
-- Parameters stand for what the platform and other services do: the parsing and printing of
-- dates, the offsets of time zones (Intl.DateTimeFormat, which getOffsetMinutes asks), the
-- collation of localeCompare, upper and lower case, regular expressions on texts, JSON with
-- base64url and the HMAC (Codec), SHA-256, Argon2, random tokens, the queues of BullMQ, the
-- commands of Redis, the schemas of edited values,
-- the normalisation of texts, the hash of a request, and the answers of the storage, the scanner
-- and the parser. The file validator and the mapper, which are still to be modelled, are answers
-- as well. Where a theorem needs a parameter to behave, it says so: the comparison of names is
-- consistent, a payload and a date are read back as printed (IsCodec), Redis counts (IsRedis).
-- The samples in Cursors.Samples and in the tests show that these can hold.
--
-- Not modelled: the loading and caching of facts, the list of saved jobs, feeds, the digests of
-- alerts, search, the delivery of mails, the list of sessions, ingestion, the reports of
-- administrators, and the frontend, which are queries, network calls, pages, or work that is
-- still to be done.
mod Common
pub mod Cursors
pub mod RateLimit
pub mod Tracker
pub mod Notifications
pub mod Saved
pub mod Resume
pub mod Alerts
pub mod Auth
pub mod Eligibility
pub mod Matching
pub mod Radar
pub mod Profile
