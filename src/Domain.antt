-- ===== src/Domain.antt =====
-- src/pe_review_agent/domain.py: the states of a job, the stages of an attempt, and the findings
-- of a review. Identifiers that the code only compares are numbers.
use pe_review_agent.Prelude.{Bool, Option, false, true, ℕ, ◌==◌}

-- A UUID, a project name, a revision, a policy version or a worker's name: only compared.
abbrev pub Name : Type 0
Name = ℕ

pub data JobState : Type 0 where
  received fetching reviewing validating ready_to_publish publishing retry_wait failed_transient
        failed_permanent superseded skipped_scope done :
      JobState

pub data AttemptStage : Type 0 where
  fetch review validate publish reconcile : AttemptStage

-- TERMINAL_JOB_STATES
abbrev pub is_terminal_state : JobState → Bool
is_terminal_state failed_permanent = true
is_terminal_state superseded = true
is_terminal_state skipped_scope = true
is_terminal_state done = true
is_terminal_state _ = false

-- A member's place in its enumeration, by which `==` on the enumeration is decided.
abbrev pub state_index : JobState → ℕ
state_index received = 0
state_index fetching = 1
state_index reviewing = 2
state_index validating = 3
state_index ready_to_publish = 4
state_index publishing = 5
state_index retry_wait = 6
state_index failed_transient = 7
state_index failed_permanent = 8
state_index superseded = 9
state_index skipped_scope = 10
state_index done = 11

abbrev pub stage_index : AttemptStage → ℕ
stage_index fetch = 0
stage_index review = 1
stage_index validate = 2
stage_index publish = 3
stage_index reconcile = 4

abbrev pub state_eq : JobState → JobState → Bool
state_eq a b = state_index a == state_index b

abbrev pub stage_eq : AttemptStage → AttemptStage → Bool
stage_eq a b = stage_index a == stage_index b

pub data Severity : Type 0 where
  p0 p1 p2 : Severity

pub data FindingLineage : Type 0 where
  new persisting reopened : FindingLineage

pub data DiffSide : Type 0 where
  revision parent : DiffSide

-- GerritPatchsetEvent: what the job store and the worker read of it.
pub record GerritPatchsetEvent : Type 0 where
  pub project : Name
  pub change_number : ℕ
  pub patchset_number : ℕ
  pub revision_sha : Name
  pub ref : Option Name
  pub occurred_at : Option ℕ
