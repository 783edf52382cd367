-- ===== src/Lib.antt =====
-- dockbrr watches the containers of Docker Compose projects, detects newer images, and applies or
-- rolls back updates. This library models the parts that decide: what is recorded, what is claimed,
-- and what is done to a running stack, in which order.
--
-- Parts, and where they stand:
-- * internal/store/updates.go (the table of detected updates): Store/Updates. A table is a list of
--   rows, newest first, with the next id and the clock; each method is a function of the same name,
--   its SQL written out over the rows. Store/Updates/Trace runs sequences of calls. `RecordDrift` works on
--   the copy of a transaction (Store/Transaction, for database/sql) and gives it up in its deferred function.
-- * internal/store/jobs.go (the queue of jobs and their logs): Store/Jobs, in the same way.
-- * internal/detect (semver.go, tagclass.go, detect.go): Detect. Texts are lists of code points and
--   the regular expressions are matchers. Detect/Detector is a detection cycle, Detect/Reverse the
--   naming of an image by its digest, over the cache of internal/store/tag_digests.go
--   (Store/TagDigests).
-- * internal/compose (runner.go, rewrite.go, dependents.go): Compose. YAML documents are trees of
--   nodes; the parser and the file system are arguments.
-- * internal/job/worker.go (the apply and the rollback of a compose service): Job. A handler is a
--   function from a `World`, the answers of everything outside, to the list of its effects in order;
--   Job/Effects/Protocol is the automaton of the orders that are allowed. The stages of `runApply`
--   are the functions of Job/Apply and Job/Settle, each ending in the stages behind it.
--   Job/Dispatch is internal/job/dispatch.go: the route of a job, and the guard of the own container.
--   Job/Engine is internal/job/queue.go and lock.go: the workers take steps in any order.
--   Job/Standalone is internal/job/standalone.go, Job/Lifecycle is lifecycle.go, and Job/SelfUpdater is
--   selfupdate.go, each with a world and effects of its own; Common/Automaton is what their protocols
--   share. Job/Standalone/Swap/Tracked follows one container through the Docker calls.
-- * internal/discovery (`Group` and the passes of `Reconcile` of discovery.go, locator.go): Discovery. The
--   maps of the source are lists of their values. Discovery/Reconcile marks and prunes services,
--   and Discovery/Reconcile/Refresh writes the discovered ones, over the tables of Store/Services and
--   Store/Projects (services.go and projects.go of internal/store), with the cutoff as an argument.
--   Discovery/DockerName is dockername/dockername.go, with tests for its word lists.
-- * internal/httpapi/ratelimit.go (the lockout of failed logins): Http/RateLimit. `history` runs sequences of calls.
-- * internal/scan/scan.go (`ensureCurrentChangelog`): Scan/Baseline, over the table of Store/Updates.
--
-- How they interact: a scan detects a newer tag (Detect) and records it (`record_drift`); a job is
-- queued and claimed (Store/Jobs); `route` gives it to a handler (Job/Dispatch), and of the compose handlers
-- `handle` runs the one of its type (Job/Rollback, Job/Apply), which reads the
-- open update, calls compose with the invocations of Compose/Runner, and marks the update. A standalone
-- service is recreated by Job/Standalone, behind the same health gate; the re-discovery of container ids
-- is `locate_service` (Discovery/Locator).
--
-- Bounds: the components of a version are at most 2^63 - 1, as strconv.Atoi has it. Ids and times are
-- natural numbers without a bound. The health gate runs for `polls` rounds, the polls that fit in its
-- timeout, and always ends; every other loop runs over a list.
--
-- Not modelled: SQLite, Docker, the registry, the file system and the compose program, whose answers and
-- failures are arguments; a question to the world that a handler repeats is answered by purpose. Log lines
-- of the logger have no effect here. The rest of the scanner and of the HTTP interface, the signature by
-- which the reconciler reports a change, the settings that give its cutoff, and the web interface are left
-- out so far.
pub mod Common
pub mod Detect
pub mod Store
pub mod Compose
pub mod Job
pub mod Scan
pub mod Http
pub mod Discovery
pub mod Examples
