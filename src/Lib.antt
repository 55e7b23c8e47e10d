-- ===== src/Lib.antt =====
-- chess-crawl keeps an archive of chess games in PostgreSQL and fills it with durable jobs. This
-- library models the part of it that decides what work is done, once and within its limits: the job
-- queue, its workers, the work budgets and the database sessions; what carries that work in and out,
-- the requests of users, the dispatch of hints, the requests to providers and the publication of
-- events; and, of the normalization, the code maps and the evidence of a game's notation.
--
-- Prelude: Boolean tests, lists, sorting, results that carry an error, and texts (a list of code
--   points; case mapping is that of ASCII) that the parts share.
-- Queue: src/chess_crawl/jobs/state.py, jobs/models.py, jobs/discovery.py and storage/job_admission.py over the tables
--   of storage/schema.sql and its migrations.
--   Model is the data: a row of discovery_jobs is a Job, of crawl_runs a Run, and Archive holds the
--   tables. Write is an UPDATE or INSERT together with the row triggers set_job_revision,
--   record_dispatch_event and own_job and the constraints. Admission is job_admission.py. Enqueue is
--   enqueue_job, Claim is claim_next_job, Runs and Depth are the crawl runs and the depth of a
--   crawl, Attempts is finish_attempt, mark_job, unblock_jobs, checkpoint_job and the resumption of
--   orphaned jobs, Discovery is
--   enqueue_opponent_children of jobs/discovery.py, Roots a run with its first job and the queries of one run. Each of them has the
--   name of the function it models.
--   Hints, Rows, Dedup, Idempotence, Idempotence/Users, Claim/Soundness, Claim/Ownership,
--   Claim/Progress, Claim/Cap, Runs/Status, Attempts/Retry, Admission/Reasons, Discovery/Limits,
--   Roots/Creation, Soundness and Reach are about those definitions; Reach has the
--   operations as steps.
-- Budget: jobs/budget.py and storage/work_budgets.py. Policy is BudgetPolicy, Calendar the months,
--   Ledger the tables with _period, _workspace_policy and _locked_budget, Reserve the reservations.
--   Administer is the admission of a run, the backlog check and the change of a workspace's policy,
--   Jobs the budget of a single job and the resumption of a run.
--   Accounting, Bounds, Settle, Refund, Revisions, Admitted and Resume are about them.
-- Workers: the heartbeats of jobs/state.py, with the report in Workers/Report; Workers/Liveness is
--   about them.
-- Sessions: storage/session_admission.py; Sessions/Balance and Sessions/Reach are about it.
-- Dispatch: the outbox operations of storage/execution.py, on the archive of Queue/Model, and
--   jobs/dispatch.py in Dispatch/Publisher: publish_one, run_due, run_once. Rows is about the join of
--   hints and jobs; Sent and Kept are about what is sent and what maintenance keeps.
-- Validation: application/validation.py with the requests of application/models.py; Requests has
--   validate_import, validate_crawl and validate_page. Bounds and Canonical are about them.
-- Evidence: normalize/game_evidence.py. Reading and Parser are the loop of parse_game_evidence over
--   the matches of pgn_read's import_format; the validator of moves, the digest and the pattern of
--   annotations are the parameter Reader. Blanks and Lossless are about the tokens, Growth and Tree
--   about the nodes.
-- Events: storage/events.py and events/publisher.py, with the delay of events/mercure.py; the answers
--   of the hub are the turns of publish_pending. Order is about it.
-- Http: HttpClient.request of providers/http.py with FetchPolicy of providers/base.py. What an attempt
--   meets is the parameter Round; the hook before a request, with its waits, is a part of it, and
--   before_provider_request is the hook of jobs/runner.py. Settled, Bounded and Unreachable are about it.
-- Settings: the validity of jobs/settings.py and application/export_limits.py.
-- Codes: normalize/codes.py; Codes/Outcomes is about it.
--
-- Conventions. Times are whole seconds, natural numbers from 1970 on. An operation takes the archive
-- and returns the next one; an operation that raises returns an error and no archive, since its
-- transaction rolls back. The rows of a table stand in the order of their ids. A job's JSON
-- parameters are an association list of scalars. The SHA-256 digest of a deduplication payload is the
-- parameter `digest`, and the backlog check of the budgets the parameter `room` of enqueue_job. What
-- other sessions lock during a claim or a resumption is the Environment, which does not change while
-- the call runs. Archive.clock is the server's clock_timestamp().
--
-- Bounds and fuel. claim_next_job repeats its query as long as a round excludes a provider; its fuel
-- is the number of jobs plus one, and every round excludes a provider of a job that the rounds before
-- did not. The loop of HttpClient.request counts down its attempts, the policy's retries and one.
-- No other definition has fuel. Integers are not bounded: the columns are BIGINT, and the
-- budget policies check their fields against it.
--
-- Not modelled. The trigger that fills the event outbox; the figures of a budget's snapshot; the
-- scheduling of collection and the runner's handlers; of the evidence, the headers, the choice of the
-- text, the clocks and the provider's observations; of a request to a provider, its headers, its body
-- beyond the sizes that are read, and the pacing before an attempt; the parsers of provider JSON; the
-- archive's game tables and blobs; exports and the web interface.
pub mod Prelude
pub mod Queue
pub mod Dispatch
pub mod Evidence
pub mod Events
pub mod Http
pub mod Validation
pub mod Budget
pub mod Workers
pub mod Codes
pub mod Sessions
pub mod Settings
