-- ===== src/Review/Scheduling.antt =====
-- src/pe_review_agent/review/scheduling.py: the round robin over review sessions, within a budget of
-- model calls and repository reads. What the model and the tools answer are arguments of a turn, and
-- so is `split`. Transcripts, traces and the audit of invocations are left out.
pub mod Request
pub mod Turn
pub mod Run
pub mod Budget
pub mod Settled
pub mod Funded
pub mod Falls
pub mod Shrinks
pub mod Ends
use pe_review_agent.Domain.{Name}
use pe_review_agent.Prelude.{
  Bool, List, Option, [], false, if◌then◌else◌, length, ltb, min, none, not, true, ℕ, ◌&&◌, ◌*◌,
  ◌++◌, ◌+◌, ◌-◌, ◌/◌, ◌==◌, ◌||◌, ◌∷◌,
}

pub data Phase : Type 0 where
  candidate verification : Phase

-- Usage of src/pe_review_agent/review/progress.py.
pub record Usage : Type 0 where
  pub llm_calls : ℕ
  pub tool_calls : ℕ
  pub input_tokens : ℕ
  pub output_tokens : ℕ

abbrev pub no_usage : Usage
no_usage = record { llm_calls = 0; tool_calls = 0; input_tokens = 0; output_tokens = 0 }

-- The settings that the scheduler reads; `verifier_budget_fraction` as a numerator over a
-- denominator.
pub record Limits : Type 0 where
  pub max_llm_calls_per_job : ℕ
  pub max_tool_calls_per_job : ℕ
  pub verifier_numerator : ℕ
  pub verifier_denominator : ℕ
  pub max_tool_rounds : ℕ

-- `math.ceil(total * self.settings.verifier_budget_fraction)` in the candidate phase.
unfoldable pub reserve : Limits → Phase → ℕ → ℕ
reserve l candidate total =
    (total * l.verifier_numerator + (l.verifier_denominator - 1)) / l.verifier_denominator
reserve l verification total = 0

-- The calls and the reads that a phase may come to.
unfoldable pub call_limit : Limits → Phase → ℕ
unfolding reserve
call_limit l phase = l.max_llm_calls_per_job - reserve l phase l.max_llm_calls_per_job

unfoldable pub tool_limit : Limits → Phase → ℕ
unfolding reserve
tool_limit l phase = l.max_tool_calls_per_job - reserve l phase l.max_tool_calls_per_job

-- `ReviewBudget.remaining_calls`
unfoldable pub remaining_calls : Limits → Phase → Usage → ℕ
unfolding call_limit
remaining_calls l phase u = call_limit l phase - u.llm_calls

-- `ReviewBudget.remaining_tools`
unfoldable pub remaining_tools : Limits → Phase → Usage → ℕ
unfolding tool_limit
remaining_tools l phase u = tool_limit l phase - u.tool_calls

pub record WorkItem : Type 0 where
  pub key : Name
  pub parent_key : Option Name

pub data Limitation : Type 0 where
  max_tool_rounds_reached final_slot tool_budget call_budget duplicate_tool_loop : Limitation
  max_candidate_chunks : Limitation

-- `_Session`; a pending tool call is kept as its `_tool_call_key`.
pub record Session : Type 0 where
  pub work : WorkItem
  pub initial_slots : ℕ
  pub usage : Usage
  pub limitations : List Limitation
  pub seen : List Name
  pub pending_tools : List Name
  pub rounds : ℕ
  pub calls : ℕ
  pub duplicate_only : Bool
  pub final_reason : Option Limitation

pub data CheckpointStatus : Type 0 where
  checkpoint_done checkpoint_split checkpoint_stopped : CheckpointStatus

-- WorkCheckpoint of src/pe_review_agent/review/progress.py; its phase is the run's, and its paths and
-- result are left out.
pub record WorkCheckpoint : Type 0 where
  pub key : Name
  pub parent_key : Option Name
  pub status : CheckpointStatus
  pub usage : Usage
  pub limitations : List Limitation

-- The variables of `run`, with those of its budget and its progress.
pub record Schedule : Type 0 where
  pub usage : Usage
  pub waiting : List WorkItem
  pub active : List Session
  pub completed : List WorkItem
  pub pending : List WorkItem
  pub limitations : List Limitation
  pub saved : ℕ
  pub checkpoints : List WorkCheckpoint

-- The requests that a live session may still need.
abbrev pub slots : Session → ℕ
slots s = if s.calls == 0 then s.initial_slots else 1

-- `sum(… for session in active)`
unfoldable pub protected : List Session → ℕ
protected [] = 0
protected (s ∷ ss) = slots s + protected ss

-- The slots that a new session needs.
unfoldable pub minimum_slots : Limits → Phase → Usage → ℕ
unfolding remaining_tools
minimum_slots l phase u =
    if not (l.max_tool_rounds == 0) && not (remaining_tools l phase u == 0) then 2 else 1

abbrev pub new_session : WorkItem → ℕ → Session
new_session item n = record {
  work = item;
  initial_slots = n;
  usage = no_usage;
  limitations = [];
  seen = [];
  pending_tools = [];
  rounds = 0;
  calls = 0;
  duplicate_only = true;
  final_reason = none;
}

abbrev pub is_idle : List Session → Bool
is_idle [] = true
is_idle (s ∷ ss) = false

-- The inner loop: sessions are opened while the budget has room for them.
unfoldable pub admit_from :
    Limits → Phase → ℕ → Usage → ℕ → List Session → List WorkItem → List Session × List WorkItem
unfolding minimum_slots remaining_calls protected
admit_from l phase max_units u finished active [] = (active, [])
admit_from l phase max_units u finished active (item ∷ waiting) =
    let spare = remaining_calls l phase u - protected active in
    let minimum = minimum_slots l phase u in
    let opened = active ++ new_session item (min minimum spare) ∷ [] in
    let more = admit_from l phase max_units u finished opened waiting in
    if ltb (finished + length active) max_units
    then (if ltb spare minimum
        then (if not (is_idle active) || ltb spare 1
            then (active, item ∷ waiting)
            else (opened, waiting))
        else more)
    else (active, item ∷ waiting)

unfoldable pub admit_sessions : Limits → Phase → ℕ → Schedule → Schedule
unfolding admit_from
admit_sessions l phase max_units st =
    let (active, waiting) =
      admit_from l phase max_units st.usage (length st.completed) st.active st.waiting in
    record st { active = active; waiting = waiting }
