-- ===== src/Lib.antt =====
-- A model of hrus, a multi-tenant HR service (backend/app), with the theorems about it.
--
-- The program. A FastAPI backend keeps its data in PostgreSQL. Its services are functions of a
-- database session and of the claims of the caller; each request is one transaction. Hard rules are
-- pure functions (backend/app/rules). Leave requests move days between "pending", "used" and
-- "available" of a balance per employee, leave type and year. An employee's position is a history of
-- dated rows. Long work runs as jobs: a run is planned into chunks, and workers execute the chunks,
-- each in a transaction of its own, with redelivery and retries.
--
-- Which file models what.
--   Calendar        dates with the arithmetic of Python's `date`
--   Errors, Tx      backend/app/core/errors.py; a service call as a transaction: it returns a value
--                   and the next state, or an error and no state (`transaction_session` rolls back);
--                   Errors/Chain: steps that may fail and keep no state
--   Models          backend/app/models: the tables' rows as records, enums as data types
--   Db              the tables of one database as lists, the clock, ids, the audit log
--   Rules           backend/app/rules/leave.py (Rules/Leave) and rules/core_hr.py (Rules/CoreHr)
--   CoreHr          backend/app/services/employees.py: `job_as_of` and `employees_as_of_query`
--                   (JobHistory), `add_job` (AddJob), with proofs in Newest, InEffect and
--                   Candidates; `create_employee`, `update_employee` and `get_employee`
--                   (Employees), with proofs in Unique; services/org_units.py (OrgUnits, with its Services), and that
--                   units form a forest (Forest, Reparent, Kept)
--   Leave           backend/app/services/leave_balances.py (Balances), leave_config.py (Config, its
--                   operations in Config/Types, Config/Policies and Config/Holidays, with
--                   proofs in Config/Keyed) and
--                   leave_requests.py (Requests: Lookup, Evaluate, Submit, Decide)
--   Leave/Ledger    the balances against the requests: the invariant and its proofs
--   Leave/Authority who may decide and cancel a request
--   Leave/Accrual   backend/app/services/leave_accrual.py, `accrue`, with proofs in Settled, Loops,
--                   Again and Ledger; `expire_carry_over` is in Leave/Expiry, and the plan of the
--                   jobs that call the two (backend/app/jobs/leave.py) in Leave/JobPlan
--   Jobs            backend/app/services/jobs.py (Service) and backend/app/jobs/runner.py (Plan:
--                   `start_run`, Execute: `run_chunk` with its transactions, and `finalize`), with
--                   proofs in Active, Single, Reach, Once, DryRun, Totals and Retry
--   Jobs/Scheduler  backend/app/jobs/scheduler.py: the tick, with proofs in Ticks and Fires; the
--                   default schedules of services/jobs.py are in Jobs/Schedules
--   Auth            backend/app/services/auth.py (Sessions: `login`, `refresh`, `logout`) and the
--                   tokens of backend/app/core/security.py, with proofs in Rotation, Logout and
--                   Throttle
--   Pagination      backend/app/core/pagination.py: cursors and keyset pages, with proofs in
--                   Roundtrip, Order, Pages and Bounds
--   AiUsage         backend/app/services/ai_usage.py: the log of model calls and its counters
--   AiSettings      backend/app/models/ai.py, core/secrets.py and services/ai_settings.py (Changes and
--                   Update: `update_ai_settings`, Connection: `test_connection`), and
--                   backend/app/entitlement (Entitlement), with proofs in Guarded, Reach, Granted
--                   and Stale
--   Reports         backend/app/reports/catalog.py (Catalog), schemas/reports.py (Query) and
--                   reports/query.py (Conditions, Compile, Like), with proofs in Fits, Filters,
--                   Selection, Dims, Applied, Safe and Like; reports/export.py (Export), with proofs in
--                   Inert; services/reports.py (Service, Templates), with proofs in Whole and
--                   Retry
--   Tests           the theorems at concrete inputs
--
-- Correspondence. Functions keep the names of the source, less a leading underscore; a helper named
-- for a branch holds the rest of the function from there on. A table is a list of rows in the order
-- of insertion, a query by key is `find`, and an update of the row found is `update_first`. Every
-- function takes the tenant id that the source passes. Ids (UUIDs) are numbers, fresh ones from a
-- counter; times are numbers. Days of a balance are integers (Base/Int). The model runs transactions
-- one after another, as the row locks of the source make them for most operations; a sequence of
-- transactions is a relation (Jobs/Reach, AiSettings/Reach). `update_org_unit` reads its unit
-- without a lock, and two transactions of it at the same time are not modelled. `test_connection`
-- waits for the provider between its two queries of the settings: AiSettings/Stale has what a change
-- in between leads to. JSON values (the audit log's, the parameters of a job) are opaque texts or
-- left out, and messages of errors are left out except for the values that they show.
--
-- Parameters. The string methods `upper` and `strip`, the clock and the tenant's date of today
-- (`Env`), a job's definition with the business data that it works on (`W`), and the texts of its
-- exceptions, which are kept whole where the source cuts them. Of Python's library: JSON, base64 and
-- the conversions of a cursor's values (Pagination), hashing, UUIDs and splitting of texts (Auth);
-- of the database: the order of texts and of a report's rows, the comparison of sort columns, and
-- the list of work of a tick; the arithmetic of cron; a tenant's time zone. pydantic's conversions
-- of a filter's value, the rows of a statement and which run out of time, the JSON of a stored
-- report, csv and openpyxl, the labels and the lines of a definition, and `ILIKE` with its laws
-- (Reports); the server's AI settings and its encryption (AiSettings, `Server`).
--
-- Several states. A login writes to Redis, and the reuse of a refresh token is recorded by a
-- transaction of its own; both stay although the call raises, so these calls give the state together
-- with an error. A tick's work on a schedule is a savepoint: a business error undoes it alone.
--
-- Fuel. The loop of `working_days` runs on fuel, one more than the days from start to end; the
-- theorem about it says that this is enough, and what happens at the last day that a date can be.
-- The walk over the ancestors of a unit leaves out each unit that it has visited, and has one step
-- more than there are units. A plan of a leave job has as many groups at most as there are
-- employees.
--
-- Not modelled. The queries of the paginated lists, changes of schedules, the encoding of access
-- tokens, the labels and the texts of a report's definition, the HTTP clients of the gateways, the
-- HTTP layer, the command line, and everything outside backend/app. The unique indexes are not
-- tables' checks here: what they state of active runs, of employees, of leave types, policies and
-- holidays is proved of the services; a violation that only a concurrent transaction can cause (the
-- handlers of IntegrityError) does not occur in the model.
pub mod Base
pub mod Calendar
pub mod Pagination
pub mod Errors
pub mod Tx
pub mod Models
pub mod Rules
pub mod Db
pub mod CoreHr
pub mod Leave
pub mod Auth
pub mod Jobs
pub mod AiUsage
pub mod AiSettings
pub mod Reports
pub mod Tests
