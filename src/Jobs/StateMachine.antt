-- ===== src/Jobs/StateMachine.antt =====
-- src/pe_review_agent/jobs/state_machine.py: the transitions that a job may make.
pub mod Graph
use pe_review_agent.Domain.{
  JobState, done, failed_permanent, failed_transient, fetching, is_terminal_state, publishing,
  ready_to_publish, received, retry_wait, reviewing, skipped_scope, state_eq, superseded,
  validating,
}
use pe_review_agent.Prelude.{Bool, Option, false, if◌then◌else◌, none, some, true, ◌||◌}
use pe_review_agent.Prelude.Result.{Result, err, ok}

-- The exceptions of `require_transition`: its own, and the KeyError of a state that
-- `_ALLOWED_TRANSITIONS` has no entry for.
pub data TransitionError : Type 0 where
  invalid_transition : JobState → JobState → TransitionError
  no_entry : JobState → TransitionError

-- What every state before PUBLISHING may fail to.
abbrev fails_to : JobState → Bool
fails_to retry_wait = true
fails_to failed_transient = true
fails_to failed_permanent = true
fails_to superseded = true
fails_to _ = false

-- The states that RETRY_WAIT and FAILED_TRANSIENT resume in.
abbrev pub is_resumable : JobState → Bool
is_resumable fetching = true
is_resumable reviewing = true
is_resumable validating = true
is_resumable ready_to_publish = true
is_resumable publishing = true
is_resumable _ = false

-- `_ALLOWED_TRANSITIONS[current]`, as a membership test; `none` where the dict has no key.
unfoldable pub allowed : JobState → Option (JobState → Bool)
allowed received = some (λ t. state_eq t fetching || fails_to t)
allowed fetching = some (λ t. state_eq t reviewing || fails_to t)
allowed reviewing = some (λ t. state_eq t validating || fails_to t)
allowed validating = some (λ t. state_eq t ready_to_publish || fails_to t)
allowed ready_to_publish = some (λ t. state_eq t publishing || fails_to t)
allowed publishing = some (λ t. state_eq t done || (state_eq t ready_to_publish || fails_to t))
allowed retry_wait =
    some (λ t. is_resumable t || (state_eq t failed_permanent || state_eq t superseded))
allowed failed_transient = some (λ t.
    state_eq t retry_wait
    || (is_resumable t || (state_eq t failed_permanent || state_eq t superseded)))
allowed failed_permanent = some (λ t. false)
allowed superseded = some (λ t. false)
allowed done = some (λ t. false)
allowed skipped_scope = none

unfoldable pub can_transition : JobState → JobState → Result TransitionError Bool
unfolding allowed
can_transition current target =
    if state_eq current target then ok true else elim (allowed current) [
      | none ↦ err (no_entry current)
      | some targets ↦ ok (targets target)
    ]

unfoldable pub require_transition : JobState → JobState → Result TransitionError (Unit {0})
unfolding can_transition
require_transition current target = elim (can_transition current target) [
  | err e ↦ err e
  | ok true ↦ ok tt
  | ok false ↦ err (invalid_transition current target)
]

unfoldable pub is_terminal : JobState → Bool
is_terminal state = is_terminal_state state

unfoldable pub valid_retry_target : JobState → Bool
valid_retry_target fetching = true
valid_retry_target reviewing = true
valid_retry_target validating = true
valid_retry_target ready_to_publish = true
valid_retry_target publishing = true
valid_retry_target _ = false
