-- ===== src/Tests/Review.antt =====
-- The theorems on the state machine, the review policy and the lineage, on concrete values.
use pe_review_agent.Domain.{
  FindingLineage, done, failed_permanent, publishing, ready_to_publish, received, retry_wait,
  reviewing, skipped_scope, superseded, validating,
}
use pe_review_agent.Jobs.Policy.{bind_project_review_policy}
use pe_review_agent.Jobs.Policy.Once.{bind_project_review_policy_once}
use pe_review_agent.Jobs.Rows.{
  Db, Job, ManagedProject, ProjectReviewPolicy, en_us, include_open, ko_kr, project_source,
}
use pe_review_agent.Jobs.StateMachine.{
  can_transition, is_terminal, no_entry, require_transition, valid_retry_target,
}
use pe_review_agent.Jobs.StateMachine.Graph.{
  History, History-Passes-publishing, History_terminal, Moves, Passes, can_transition_key_error,
  live_exits, move, retry_targets, step,
}
use pe_review_agent.Jobs.Store.{find_job}
use pe_review_agent.Jobs.Store.Enqueue.{enqueue, new_job}
use pe_review_agent.Jobs.Store.Leases.{claim_next}
use pe_review_agent.Prelude.{
  All, List, [], any, count_where, false, find?, length, none, refl, replace_first, some, true,
  update_where, ℕ, ◌+◌, ◌↔◌, ◌∷◌, ◌≡◌, ◌≢◌,
}
use pe_review_agent.Prelude.Result.{err, ok}
use pe_review_agent.Review.Decision.{
  ReviewOutcome, counted, decide_code_review_vote, decide_code_review_vote_one,
}
use pe_review_agent.Review.Lineage.{
  Finding, FindingHistory, findings_for_inline_publication, has_id, reconcile_finding_lineage,
}
use pe_review_agent.Review.Lineage.Fresh.{reconcile_finding_lineage_fresh}
use pe_review_agent.Review.Lineage.Partition.{counted_findings, reconcile_finding_lineage_counts}
use pe_review_agent.Tests.Scenario.{database, event, initial, present, taken}

abbrev some_job : Job
some_job = new_job 0 0 (event 1) 5 false

abbrev seoul : ManagedProject
seoul = record {
  project = 1;
  enabled = true;
  review_language = ko_kr;
  auto_code_review = true;
  policy_generation = 3;
  review_start_mode = include_open;
  review_start_at = none;
}

abbrev settings : Db
settings = record taken { projects = seoul ∷ [] }

abbrev first_binding : Db
first_binding = database initial (bind_project_review_policy 21 0 9 en_us settings)

abbrev later_binding : Db
later_binding = database initial (
    bind_project_review_policy 50 0 9 ko_kr (record first_binding { projects = []; attempts = [] }))

abbrev job_at : Db → Job
job_at db = present some_job (find_job 0 db)

bind_project_review_policy_once_example :
    (job_at later_binding).project_review_policy ≡ (job_at first_binding).project_review_policy
unfolding enqueue claim_next bind_project_review_policy find_job find? update_where any
    replace_first count_where
bind_project_review_policy_once_example =
    bind_project_review_policy_once 21 50 0 9 9 en_us ko_kr [] [] settings first_binding
      later_binding (job_at first_binding) (job_at later_binding) refl refl

abbrev policy : ProjectReviewPolicy
policy = record {
  review_language = ko_kr;
  output_language = ko_kr;
  auto_code_review = true;
  generation = 3;
  bound_at = 21;
  source = project_source;
}

abbrev clean : ReviewOutcome
clean = record {
  skipped_reason = false;
  skipped_no_reviewable_text = false;
  validated_finding_count = counted 0;
  findings = 0;
}

decide_code_review_vote_one_example :
    ((decide_code_review_vote (some policy) clean).value ≡ some 1) ↔ (
      (p : ProjectReviewPolicy) × (some policy ≡ some p)
      × (p.auto_code_review ≡ true)
      × (clean.skipped_reason ≡ false)
      × (clean.skipped_no_reviewable_text ≡ false)
      × (clean.findings ≡ 0)
      × ((n : ℕ) → clean.validated_finding_count ≡ counted n → n ≡ 0))
decide_code_review_vote_one_example = decide_code_review_vote_one (some policy) clean

abbrev found_again : List Finding
found_again =
    record { semantic_id = 3; lineage = FindingLineage.new }
    ∷ record { semantic_id = 4; lineage = FindingLineage.new }
    ∷ []

abbrev past : FindingHistory
past = record {
  baseline_patchset = some 1;
  previous_findings =
      record { semantic_id = 3; lineage = FindingLineage.new }
      ∷ record { semantic_id = 5; lineage = FindingLineage.new }
      ∷ [];
  seen_semantic_ids = 3 ∷ 4 ∷ 5 ∷ [];
}

reconcile_finding_lineage_counts_example :
    (counted_findings (reconcile_finding_lineage found_again past true) ≡ length found_again)
    × (length (
          findings_for_inline_publication
            (reconcile_finding_lineage found_again past true).findings)
        ≡ (reconcile_finding_lineage found_again past true).new_count
          + (reconcile_finding_lineage found_again past true).reopened_count)
reconcile_finding_lineage_counts_example = reconcile_finding_lineage_counts found_again past true

reconcile_finding_lineage_fresh_example :
    All
      (λ f. any (has_id f.semantic_id) past.previous_findings ≡ false)
      (findings_for_inline_publication (reconcile_finding_lineage found_again past true).findings)
    × All
        (λ p. any (has_id p.semantic_id) found_again ≡ false)
        (reconcile_finding_lineage found_again past true).resolved_findings
reconcile_finding_lineage_fresh_example = reconcile_finding_lineage_fresh found_again past true

History_terminal_example : superseded ≡ superseded
unfolding is_terminal
History_terminal_example = History_terminal {a = superseded} {b = superseded} refl History.start

ready_move : Moves ready_to_publish publishing
unfolding can_transition
ready_move = move refl

abbrev to_done : History ready_to_publish done
unfolding can_transition
to_done = step (step History.start (ready_move)) (move refl)

ready_apart : ready_to_publish ≢ done
ready_apart h = cc

History-Passes-publishing_example : Passes publishing to_done
unfolding can_transition
History-Passes-publishing_example = History-Passes-publishing to_done ready_apart refl

live_exits_example :
    (require_transition reviewing failed_permanent ≡ ok tt)
    × (require_transition reviewing superseded ≡ ok tt)
unfolding is_terminal
live_exits_example = live_exits reviewing refl

retry_targets_example : (valid_retry_target validating ≡ true) ↔ (
    (require_transition retry_wait validating ≡ ok tt)
    × (is_terminal validating ≡ false)
    × (validating ≢ retry_wait))
retry_targets_example = retry_targets validating

can_transition_key_error_example :
    ((skipped_scope ≡ skipped_scope) × (received ≢ skipped_scope))
    ↔ (can_transition skipped_scope received ≡ err (no_entry skipped_scope))
can_transition_key_error_example = can_transition_key_error skipped_scope received
