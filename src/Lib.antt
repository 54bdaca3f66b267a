-- ===== src/Lib.antt =====
-- The review-job service of src/pe_review_agent: Gerrit events become durable jobs, workers claim
-- them under leases, review the Patch Set, and post comments and a vote.
--
-- The parts and the files that model them:
--   * src/pe_review_agent/domain.py is Domain: the states, stages and the event.
--   * jobs/state_machine.py is Jobs/StateMachine, with the graph of its transitions in
--     Jobs/StateMachine/Graph.
--   * jobs/models.py is Jobs/Rows: one record per table, and the database as a record of tables.
--   * jobs/store.py is Jobs/Store. Its helpers stand in Jobs/Store itself; `claim_next`,
--     `heartbeat` and `refresh_publish_guard` in Leases; the transitions, the retry and the
--     operator's requeue in Lifecycle; `enqueue` and `_apply_patchset_ordering` in Enqueue; the
--     attempts and the retry counts in Attempts; the publications in Publications; the watermarks
--     and the depth of the queue in Watermarks.
--   * jobs/votes.py is Jobs/Votes, jobs/project_policy.py is Jobs/Policy,
--     review/project_policy.py is Review/Decision and review/lineage.py is Review/Lineage.
--   * jobs/progress.py is Jobs/Progress: the saved progress of a review and the audit of its
--     invocations, and from jobs/store.py the pruning of old progress; Sequence takes any number of
--     these transactions together.
--   * review/chunking.py is Review/Chunking, and review/validator.py is Review/Validation.
--   * review/scheduling.py is Review/Scheduling: the budget and the opening of sessions in the module
--     itself, a model request in Request, a turn in Turn, the loop in Run. Budget, Settled and Funded
--     follow the invariant of the budget, Falls, Shrinks and Ends the measure that ends the loop.
--   * review/native.py: its batches of findings are Review/Batches, and their splitting as the
--     scheduler's split is Review/Verification.
--   * retry.py is Service/Backoff; the retries of service.py are Service/Retry; voting.py is
--     Service/Voting, with the count of its requests followed in Spent, Counted, Sent and Bounded.
--   * gerrit/votes.py is Gerrit/Observation.
--   * Jobs/History takes the transactions together: a `Step` is one of them committing, called the
--     way service.py and voting.py call it, and a `Run` is any number of steps by any workers.
--
-- The parts meet in the database. The event readers call `enqueue`; a worker claims a job, moves it
-- on with `transition`, saves its review, claims it again to publish, writes down the intent before
-- each POST to Gerrit, and closes the publication and the vote afterwards.
--
-- The proofs: Jobs/Store/Soundness says what holds of each row, Order how the rows of one Change
-- stand to each other, Keys that ids and job keys are unique, Validity puts these together, Tame
-- says which changes of a row keep the order, and Arrival, Ordered, Enqueued, Kept, Requeued,
-- Worked and Recorded take the transactions one by one.
--
-- Conventions. A transaction is atomic: a function from the database to the new one and a value, or
-- to the exception that rolls it back, so `with_for_update` and `skip_locked` have no counterpart.
-- Times are numbers of ticks, passed as `now`, which need not agree between transactions. Ids,
-- project names, revisions, worker names and payloads are numbers that are only compared; ids are
-- given out in order. The SHA-256 digest of `publication_fingerprint` is a parameter. The loops
-- over rows are structural recursions. Two loops run on fuel: `_split_text`, with the text's length,
-- which is enough since each part takes a character; and the round robin of the scheduler, for which
-- enough fuel is shown to exist. In Service and in the scheduler a tick is a second, and what the
-- model, the tools and Gerrit answer is an argument of each turn or call. `_schedule_retry` and `VotePublisher.process` read the
-- clock more than once, and each reading is an argument.
--
-- Three calls are narrowed to the way the service makes them, as premises of a step: `transition` is
-- called with FETCHING, REVIEWING, VALIDATING, PUBLISHING or DONE; `schedule_retry` resumes in the
-- state of the job, or in PUBLISHING for one that is READY_TO_PUBLISH; a review is saved for a job
-- that is not PUBLISHING.
--
-- Not modelled: the prompts and the engine around the scheduler, with the keys of tool calls and
-- the expansion of saved checkpoints; the worker loop and its publish flow; the Gerrit and model
-- clients, Git worktrees, the admin console, configuration and metrics; of the store, the chunk
-- checkpoints, tool events and the reads of saved reviews; the totals of the audit; the audit
-- list of a vote; the texts of summaries and votes.
pub mod Prelude
pub mod Domain
pub mod Jobs
pub mod Review
pub mod Gerrit
pub mod Service
pub mod Tests
