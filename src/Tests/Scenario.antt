-- ===== src/Tests/Scenario.antt =====
-- One review job of src/pe_review_agent/jobs, from the event to the vote, state by state.
use pe_review_agent.Domain.{GerritPatchsetEvent, Name, fetching, publishing, reviewing, validating}
use pe_review_agent.Jobs.Rows.{Db, Job, StoreError, empty, message, zero_findings}
use pe_review_agent.Jobs.Store.Enqueue.{enqueue}
use pe_review_agent.Jobs.Store.Leases.{claim_next}
use pe_review_agent.Jobs.Store.Lifecycle.{
  mark_failed_permanent, save_review_result_and_mark_ready, transition,
}
use pe_review_agent.Jobs.Store.Publications.{JobIdentity, begin_publication}
use pe_review_agent.Jobs.Votes.{VoteDecision, ensure}
use pe_review_agent.Prelude.{Option, [], false, none, some, ℕ, ◌+◌}
use pe_review_agent.Prelude.Result.{Result, err, ok}

abbrev pub database {ℓ} : {A : Type ℓ} → Db → Result StoreError (Db × A) → Db
database d (ok (db, a)) = db
database d (err e) = d

abbrev pub value {ℓ} : {A : Type ℓ} → A → Result StoreError (Db × A) → A
value d (ok (db, a)) = a
value d (err e) = d

abbrev pub present : Job → Option Job → Job
present d none = d
present d (some job) = job

abbrev pub event : ℕ → GerritPatchsetEvent
event n = record {
  project = 1;
  change_number = 7;
  patchset_number = n;
  revision_sha = 100 + n;
  ref = none;
  occurred_at = none;
}

abbrev pub digest : JobIdentity → Name → Name
digest identity payload = identity.revision_sha + payload

abbrev pub initial : Db
initial = record empty { projects = [] }

-- Patch Set 1 arrives, and worker 9 claims it.
abbrev pub arrived : Db
arrived = (enqueue 10 (event 1) 5 initial).0

abbrev pub taken : Db
taken = (claim_next 20 9 100 arrived).0

abbrev pub fetched : Db
fetched = database initial (transition 21 0 fetching 9 false taken)

abbrev pub reviewed : Db
reviewed = database initial (transition 22 0 reviewing 9 false fetched)

abbrev pub validated : Db
validated = database initial (transition 23 0 validating 9 false reviewed)

abbrev pub ready : Db
ready = database initial (save_review_result_and_mark_ready 24 0 9 validated)

abbrev pub retaken : Db
retaken = (claim_next 30 9 100 ready).0

abbrev pub publishing_now : Db
publishing_now = database initial (transition 31 0 publishing 9 false retaken)

-- The intent to publish, and to vote.
abbrev pub intended : Db
intended = database initial (begin_publication digest 32 0 9 40 publishing_now)

abbrev pub plus_one : VoteDecision
plus_one = record { value = some 1; reason = zero_findings; finding_count = some 0 }

abbrev pub vote_intended : Db
vote_intended = database initial (ensure 33 0 9 plus_one 41 intended)

-- The job that fails at once instead.
abbrev pub failed_job : Db
failed_job = database initial (mark_failed_permanent 25 0 (message "no such ref") 9 taken)
