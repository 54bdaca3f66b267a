-- ===== src/Tests/Progress.antt =====
-- The theorems on the saved progress and its audit, on concrete values.
use pe_review_agent.Domain.{done}
use pe_review_agent.Jobs.Progress.{
  Backend, InvocationRow, Ledger, ProgressRow, ReviewProgress, complete, completed, delete_where,
  exploring, find_invocation, find_progress, prune_progress, verifying,
}
use pe_review_agent.Jobs.Progress.Audit.{Audits}
use pe_review_agent.Jobs.Progress.Kept.{Continues}
use pe_review_agent.Jobs.Progress.Sequence.{
  LedgerEvent, PrunedIn, happen_all, happen_all-Audits, happen_all-Continues, prunes, records,
  saves, store_changes,
}
use pe_review_agent.Jobs.Rows.{Db, Job}
use pe_review_agent.Jobs.Store.Enqueue.{enqueue}
use pe_review_agent.Jobs.Store.Leases.{claim_next}
use pe_review_agent.Prelude.{
  List, [], any, find?, map, none, refl, replace_first, some, update_where, ◌∷◌, ◌≡◌, ◌⊎◌,
}
use pe_review_agent.Tests.Scenario.{taken}

abbrev frozen_progress : ReviewProgress
frozen_progress = record {
  input_key = 3;
  phase = verifying;
  frozen_candidates = 11;
  coverage = 12;
  candidate_usage = 13;
  candidate_limitations = 14;
  result = none;
  remaining_fields = 15;
}

abbrev finished_row : InvocationRow
finished_row = record {
  job_id = 0;
  attempt_id = 2;
  invocation = record {
    id = 8;
    identity = record { input_key = 3; phase = 1; work_key = 5; kind = 0 };
    outcome = record {
      status = completed;
      input_tokens = some 100;
      output_tokens = some 20;
      error = none;
    };
  };
}

abbrev saved_row : ProgressRow
saved_row = record { job_id = 0; input_key = 3; payload = frozen_progress; updated_at = 24 }

abbrev ledger : Ledger
ledger = record { db = taken; progress = saved_row ∷ []; invocations = finished_row ∷ [] }

abbrev backend : Backend
backend = record { job_id = 0; worker_id = 9; attempt_id = some 2 }

-- One save that goes back, one that completes, and an invocation that is written again; pruning
-- leaves the progress of a job that is at work.
abbrev events : List LedgerEvent
events =
    saves 25 backend (record frozen_progress { phase = exploring })
    ∷ saves 26 backend (record frozen_progress { phase = complete; result = some 1 })
    ∷ records 27 backend (record (finished_row.invocation) { id = 8 })
    ∷ store_changes (λ (d : Db). d)
    ∷ prunes 200000 1
    ∷ []

happen_all-Continues_example :
    Continues 0 3 frozen_progress (happen_all events ledger) ⊎ PrunedIn 0 3 events ledger
unfolding find_progress find?
happen_all-Continues_example = happen_all-Continues events ledger 0 3 saved_row refl

-- The job is done: its progress goes when it is a day old, and not before.
abbrev finished_ledger : Ledger
finished_ledger = record ledger {
  db = record taken { jobs = map (λ (j : Job). record j { state = done }) taken.jobs };
}

prunes_finished : (prune_progress 86424 1 finished_ledger).progress ≡ []
unfolding prune_progress delete_where any enqueue claim_next find? update_where replace_first
prunes_finished = refl

keeps_finished : (prune_progress 86423 1 finished_ledger).progress ≡ saved_row ∷ []
unfolding prune_progress delete_where any enqueue claim_next find? update_where replace_first
keeps_finished = refl

happen_all-Audits_example : Audits 8 finished_row (happen_all events ledger)
unfolding find_invocation find?
happen_all-Audits_example = happen_all-Audits events ledger 8 finished_row refl
