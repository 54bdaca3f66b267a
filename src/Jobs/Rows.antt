-- ===== src/Jobs/Rows.antt =====
-- The tables of src/pe_review_agent/jobs/models.py, and the database that they make up. A time is
-- a number of ticks; a column that is only written for people (updated_at) is left out.
use pe_review_agent.Domain.{AttemptStage, GerritPatchsetEvent, JobState, Name}
use pe_review_agent.Jobs.StateMachine.{TransitionError}
use pe_review_agent.Prelude.{Bool, List, Option, String, [], none, some, ℕ}
use pe_review_agent.Prelude.Result.{Result}

-- The exception classes that the store records.
pub data ErrorClass : Type 0 where
  transient_error provider_unavailable_error permanent_error superseded_revision_error
        change_not_open_error review_scope_changed invalid_persisted_state other_error :
      ErrorClass

-- An error as the store is given it: a BaseException, or a text.
pub data ErrorValue : Type 0 where
  exception : ErrorClass → String → ErrorValue
  message : String → ErrorValue

-- `error.__class__.__name__ if isinstance(error, BaseException) else None`
abbrev pub error_class_of : ErrorValue → Option ErrorClass
error_class_of (exception c s) = some c
error_class_of (message s) = none

-- `str(error)`
abbrev pub error_text : ErrorValue → String
error_text (exception c s) = s
error_text (message s) = s

pub data PublicationStatus : Type 0 where
  pending posted ambiguous failed : PublicationStatus

pub data ProjectReviewStartMode : Type 0 where
  from_now include_open : ProjectReviewStartMode

pub data ReviewLanguage : Type 0 where
  inherit ko_kr en_us : ReviewLanguage

pub data PolicySource : Type 0 where
  project_source default_source legacy_source : PolicySource

-- ProjectReviewPolicy of src/pe_review_agent/review/project_policy.py.
pub record ProjectReviewPolicy : Type 0 where
  pub review_language : ReviewLanguage
  pub output_language : ReviewLanguage
  pub auto_code_review : Bool
  pub generation : ℕ
  pub bound_at : ℕ
  pub source : PolicySource

-- The JSON column `project_review_policy`: NULL, the marker of a job from before the feature, or
-- a policy.
pub data PolicyColumn : Type 0 where
  unbound legacy_pre_feature : PolicyColumn
  bound : ProjectReviewPolicy → PolicyColumn

pub record Job : Type 0 where
  pub id : ℕ
  pub project : Name
  pub change_number : ℕ
  pub patchset_number : ℕ
  pub revision_sha : Name
  pub review_policy_version : Name
  pub project_review_policy : PolicyColumn
  pub state : JobState
  pub retry_state : Option JobState
  pub attempt_count : ℕ
  pub retry_epoch_start_attempt : ℕ
  pub next_attempt_at : ℕ
  pub lease_owner : Option Name
  pub lease_expires_at : Option ℕ
  pub claimed_at : Option ℕ
  pub last_error_class : Option ErrorClass
  pub last_error : Option String
  pub superseded_by_job_id : Option ℕ
  pub created_at : ℕ
  pub event_payload : GerritPatchsetEvent

pub record Attempt : Type 0 where
  pub id : ℕ
  pub job_id : ℕ
  pub attempt_number : ℕ
  pub stage : AttemptStage
  pub worker_id : Name
  pub finished_at : Option ℕ
  pub success : Option Bool
  pub retryable : Option Bool
  pub error_class : Option ErrorClass
  pub error_message : Option String

pub record Publication : Type 0 where
  pub id : ℕ
  pub job_id : ℕ
  pub publication_fingerprint : Name
  pub status : PublicationStatus
  pub request_payload : Name
  pub gerrit_response : Option Name
  pub last_error : Option String
  pub posted_at : Option ℕ

pub record ManagedProject : Type 0 where
  pub project : Name
  pub enabled : Bool
  pub review_language : ReviewLanguage
  pub auto_code_review : Bool
  pub policy_generation : ℕ
  pub review_start_mode : ProjectReviewStartMode
  pub review_start_at : Option ℕ

pub data VoteStatus : Type 0 where
  pending ambiguous applied failed skipped : VoteStatus

-- The reasons of `decide_code_review_vote`.
pub data VoteReason : Type 0 where
  legacy_job_without_project_policy project_voting_disabled review_skipped : VoteReason
  zero_findings findings_present : VoteReason

-- ReviewVote; `value` is 1 for +1 and 0 for a neutral vote.
pub record ReviewVote : Type 0 where
  pub job_id : ℕ
  pub value : Option ℕ
  pub reason : VoteReason
  pub finding_count : Option ℕ
  pub status : VoteStatus
  pub account_id : Option ℕ
  pub attempts : ℕ
  pub retry_count : ℕ
  pub request_payload : Name
  pub response : Option Name
  pub last_error : Option String

-- A row of service_state.
pub record Watermark : Type 0 where
  pub key : Name
  pub timestamp_value : Option ℕ

pub record Db : Type 0 where
  pub jobs : List Job
  pub attempts : List Attempt
  pub publications : List Publication
  pub results : List ℕ
  pub votes : List ReviewVote
  pub projects : List ManagedProject
  pub watermarks : List Watermark
  pub next_id : ℕ

abbrev pub empty : Db
empty = record {
  jobs = [];
  attempts = [];
  publications = [];
  results = [];
  votes = [];
  projects = [];
  watermarks = [];
  next_id = 0;
}

-- The exceptions that the store's transactions raise; each rolls its transaction back.
pub data StoreError : Type 0 where
  key_error no_such_project missing_result naive_timestamp : StoreError
  not_leased lease_has_expired : StoreError
  bad_transition : TransitionError → StoreError
  invalid_retry_target : JobState → StoreError
  only_failed_permanent : JobState → StoreError
  older_patchset not_publishing payload_changed belongs_to_other_job : StoreError
  cannot_finalize : JobState → StoreError
  lease_owned_elsewhere attempt_missing_or_finished : StoreError
  vote_missing_or_terminal account_changed comments_not_durable not_a_terminal_status : StoreError
  overflow_error : StoreError

-- A transaction: the new database and the value returned, or the exception.
abbrev pub Tx : Type 0 → Type 0
Tx A = Db → Result StoreError (Db × A)
