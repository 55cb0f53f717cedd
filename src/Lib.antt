-- ===== src/Lib.antt =====
-- ADMS is a server for attendance devices that speak the ZKTeco push protocol. Devices post their
-- punches to it and poll it for commands; it keeps them in PostgreSQL through Prisma, a worker
-- forwards each punch to the webhook of its device, and an admin panel shows and retries them.
-- This library models the server's core and proves what makes it correct. Paths are those of the
-- repository.
--
-- Prelude: tests, lists, texts (lists of code points), integers, decimal numerals, sorting by a
-- key and members of lists. Json and Http: JSON values, and what the handlers read of an Express
-- request and send; Json.Print is JSON.stringify.
--
-- Store: prisma/schema.prisma, a record to a model and a list to a table. Store.Exec:
-- asynchronous functions as state passing over a world of database, clock, and a schedule of
-- which statements fail and how; every theorem holds for every schedule unless it says otherwise.
-- A failed statement and a failed transaction change nothing. Store.Cascade is what is deleted
-- with a device. Store.Maintains, Store.Preserves and Store.Total are the rules for what programs
-- keep, of the database alone or with the ids they are given, and for programs that do not
-- reject.
--
-- DbErrors: src/adms/dbErrors.ts. DeviceLookup: src/adms/deviceLookup.ts, with Pending on the
-- record of unknown serial numbers and Resolution on resolveDevice. Attlog:
-- src/adms/parsers/attlog.ts. Calendar and Timezone: Date.UTC, its inverse in Calendar.Civil, and
-- src/adms/timezone.ts. Punches: the unique key and the inserts of the punch table. Cdata:
-- src/adms/cdata.ts and src/adms/rawLog.ts, with Ack and Batch on the storing of a batch and Push
-- on the whole handler. Commands: src/adms/getrequest.ts and src/adms/devicecmd.ts, with Queue on
-- what a poll hands out, Acks on the id in a body, and Sender, Marks and Handler on what an
-- acknowledgement does. Router: src/adms/router.ts and src/adms/test.ts.
--
-- Retention: src/utils/retention.ts and src/retentionSweep.ts, with Sweep on what a sweep leaves
-- alone and what it removes. Worker: src/worker.ts, the claim and the outcome of an attempt;
-- Worker.Loop the batch and the tick; Claims and Due are on what a claim takes and how long it
-- keeps it, Attempts and Delivery on the log of attempts, Outcome on when a punch is tried again.
--
-- Access: src/middleware/requireAdminAuth.ts. RateLimit: src/middleware/rateLimit.ts.
-- PunchRecords: src/admin/punchRecords.ts, its statuses, filter, retries and deletions; Listing
-- its lists and Deliveries its delivery log. PunchRecords.Pages is on what a page of a list
-- holds. Settings: src/admin/settings.ts. Slug: src/utils/slug.ts. Template:
-- src/webhooks/template.ts. Tests runs all of it on small inputs.
--
-- Accounts: src/admin/auth.ts, adminUsers.ts and companies.ts. Login threads its two limiters as
-- state next to the world; Signup is the signup and the own account; Users, UserEdit and UserList
-- the accounts; Companies the companies. Attempts and Lockout prove what the limiter of logins
-- holds back, Founding and SignupOutcome what a signup leaves, Roles, RolesKept and History what
-- every sequence of requests keeps.
--
-- Devices: src/admin/devices.ts and src/utils/deviceStatus.ts. Claim, ClaimSteps and ClaimRows
-- are on the claim of a pending device; Edit and Patch creation, edits and deletion, Listing the
-- lists, Pending the devices nobody claimed, Commands the queue, Logs the raw logs, WebhookTest
-- the test of a webhook; Foreign, Scope, Tenancy and Requests prove that companies are kept
-- apart. SsrfGuard: src/utils/ssrfGuard.ts, with Blocks on the blocks of addresses as ranges of
-- 32-bit numbers. DataTables: src/utils/datatable.ts and pagination.ts. RawRequests:
-- src/admin/rawRequests.ts.
--
-- WebhookVars and Dispatcher: src/webhooks/dispatcher.ts, the variables of a punch and the call.
-- The worker takes a dispatcher as a parameter; that of Dispatcher has its type.
--
-- Lifecycle: the requests of devices, the ticks of the worker, and the retries and deletions of
-- the panel as steps of one history. Keys and Sound are the invariant and the worker, Push and
-- Requests the requests of devices, Panel the retries, deletions and the sweep, History all of
-- them.
--
-- How they interact: Router calls the handlers of Cdata and Commands, which call DeviceLookup
-- first; Cdata stores what Attlog parsed through Punches; Worker claims those rows, and
-- PunchRecords puts them back in its queue; all of them keep the invariant of Worker.Attempts.
-- The routes of the panel take the identity that Access admits; those that write a webhook's URL,
-- or test one, ask SsrfGuard first, the worker's dispatcher does not; signup and the test of a
-- webhook read the settings of Retention.
--
-- Loops are structural recursion: over the lines of a body, the rows of a batch, the ids of a
-- claim. The only fuel is that of decimal numerals, where the number itself is enough, since each
-- round drops a digit. Numbers are unbounded: no computation of the source comes near the limits
-- of a JavaScript number or of a column, except what a device sends, and that is refused by the
-- database, which the schedule of failures covers.
--
-- Parameters: Intl of the time zones, jsonwebtoken, bcryptjs, the schema of an email address
-- (zod), the URL parser, net.isIP and the name lookup of the guard, fetch and the HMAC of
-- node:crypto, random secrets, the order that the database gives to rows, and the generator of
-- ids. A transaction runs alone; the rows that another worker holds locked are an argument of the
-- claim.
--
-- Not modelled: logging, the start and stop of processes, cookies, static files and the mounts of
-- routers, the seed of the first admin (src/admin/seed.ts), the examples of templates
-- (src/admin/webhookTemplates.ts), and the React panel (admin-ui). Logins run one after another:
-- the limiters are checked before the password is compared and hit after, and what logins do that
-- run at once is not modelled. An account's and a company's createdAt, which only lists show, is
-- left out. Letters change case in ASCII only, where JavaScript does so for all of Unicode: this
-- concerns the name of a table that a device sends, and slugs, which are ASCII.
pub mod WebhookVars
pub mod Prelude
pub mod Json
pub mod Http
pub mod Store
pub mod DbErrors
pub mod DeviceLookup
pub mod Calendar
pub mod Attlog
pub mod Timezone
pub mod Punches
pub mod Cdata
pub mod Commands
pub mod Retention
pub mod Lifecycle
pub mod Worker
pub mod PunchRecords
pub mod Access
pub mod Accounts
pub mod SsrfGuard
pub mod DataTables
pub mod RawRequests
pub mod Dispatcher
pub mod RateLimit
pub mod Router
pub mod Devices
pub mod Settings
pub mod Slug
pub mod Template
pub mod Tests
