-- ===== src/Lib.antt =====
-- VelaFlow is a self-hosted, multi-tenant task planner: it pulls tasks, events and mails through a
-- bronze, silver and gold pipeline, scores and plans them, and delivers digests; around that core
-- stand an API, a queue with workers, and the security components that guard them. This library
-- models the decision logic of the Python package src/brain/ as functions and proves what makes it
-- correct. A path in the first lines of another file is below src/brain/.
--
-- The parts, and the files that model them:
--   * Prelude: names of the libraries that every file uses, Python's list operations over the
--     native numbers, signed integers, sorting, texts as code points, distinct keys. Dict: a
--     Python dict with text keys, in insertion order.
--   * Breaker: src/brain/security/circuit_breaker.py. Breaker is `CircuitBreaker` with its methods
--     as functions on its state; Registry is the named breakers and the health registry; Retry is
--     `retry_with_backoff` with its loop over attempts. The recursion of the loop counts the
--     rounds of `range(max_retries + 1)` that are left, so it always ends.
--   * Resilience: src/brain/security/resilience.py. The plain `CircuitBreaker`, whose locked
--     blocks are single steps so that overlapping calls are sequences of them; Retry and Degrader
--     are `retry_with_backoff` and `GracefulDegrader`. RateLimiter is the sliding window limiter.
--   * Ban: src/brain/security/ban.py, `BanManager` with its escalation rules and its saved bans.
--   * Planner: src/brain/models.py and src/brain/planner.py. Planner is `score_task`, Rank
--     `rank_tasks`, Digest the selection of `build_daily_digest` and `build_overdue_alert`,
--     Weekend the allocation of `build_weekend_digest`, Review the figures of
--     `build_weekly_review`. The text of a digest is not modelled, and a reason is a constructor
--     with its numbers instead of a sentence.
--   * Rbac: src/brain/security/rbac.py, the tables of permissions and `RBACPolicy`.
--   * Queue: src/brain/queue/tasks.py is Queue, the loop of src/brain/queue/worker.py is
--     Queue.Worker, its daily quotas are Queue.Quota, and src/brain/queue/scheduler.py is
--     Queue.Scheduler, whose checks enqueue into the same `TaskQueue`. The worker's loop runs for
--     a number of rounds; Queue.Drain says how many are enough.
--   * Ledger: src/brain/security/action_ledger.py, the chained log with its daily files,
--     `verify_chain` and `export`. The HMAC of an entry is a parameter; what is used of it is a
--     hypothesis of the theorem.
--   * ZeroTrust: src/brain/security/zero_trust.py, `RequestSigner` with the cache of nonces, and
--     `InputSanitizer` in ZeroTrust.Sanitizer.
--   * Tenant: src/brain/tenant/models.py is Tenant, src/brain/tenant/manager.py is Tenant.Manager,
--     over a store of tenants and of the keys of their data.
--   * Pipeline: src/brain/pipeline/silver.py, the validation, deduplication and cleaning of raw
--     tasks.
--   * Pipeline.Bronze and Pipeline.Run: src/brain/pipeline/bronze.py and
--     src/brain/pipeline/scheduler.py, the landed batches and `execute` with its stages; what the
--     silver and gold layers compute is a parameter of a run.
--   * Queue.Handlers: the handlers of src/brain/queue/worker.py, over the tenants, the usage, the
--     stored results and the table of chunks, with the pipeline and the language models as
--     parameters. Queue.Handlers.Listing is `list_tenants` over the files that the handlers store.
--   * Rag: src/brain/rag.py, the splitting of a document into sentences and chunks; Rag.Store is
--     the table of chunks that all tenants share, with `ingest` and `query`.
--   * Tenant.Users: src/brain/tenant/user_manager.py, the users, the index of their subjects and
--     the invitations. Tenant.Demo: src/brain/tenant/demo_manager.py, the demo accounts over the
--     store of Tenant.Manager and the lines of their logs; Tenant.Demo.Analytics counts the events
--     of a log.
--   * Paths: src/brain/security/safe_path.py, the normal form of a POSIX path and `safe_resolve`,
--     and the resolution of a key in src/brain/storage/local.py.
--   * Organizer: src/brain/organizer.py, where a task belongs on the board, and `reorganize_board`
--     with the writes that it sends to the client; Organizer.Labels has the table of keywords.
--
-- Python's `str.lower`, with its table of Unicode, is a parameter where it is applied to texts that
-- users write: contents in Planner.Rank and Organizer.Labels, emails in Tenant.Users. Prelude.Text
-- has a `lower` that is exact where, as for the name of a section or of a day, the result is compared
-- with fixed ASCII words. A deactivation deletes the keys that the storage lists: as in the local
-- storage, those that end in .json.
--
-- Time is a number of ticks of the clock that the code reads, and each operation takes the reading
-- that it makes. A random token, the outcome of a call to a service or of a write, and the
-- authenticated encryption are arguments. Errors that the code raises are values.
--
-- Not modelled: the API routes and their middleware, the command line, the user interface and the
-- installers, which only call these parts; the clients of Todoist, Notion, Gmail, Google Calendar,
-- WhatsApp, mail and the language models, which are input and output; the encryption, whose work
-- is done by a library; the patterns of PII, moderation and redaction, which are regular
-- expressions; the gold layer, the reading and writing of files by the storage backends, the
-- catalog, and the analytical engine.
pub mod Prelude
pub mod Dict
pub mod Breaker
pub mod Ban
pub mod Planner
pub mod RateLimiter
pub mod Resilience
pub mod Rbac
pub mod Queue
pub mod Ledger
pub mod ZeroTrust
pub mod Tenant
pub mod Organizer
pub mod Paths
pub mod Pipeline
pub mod Rag
