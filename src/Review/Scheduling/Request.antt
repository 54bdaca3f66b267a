-- ===== src/Review/Scheduling/Request.antt =====
-- The requests of `RoundRobinReview` in src/pe_review_agent/review/scheduling.py: what one charges, its
-- recovery from a truncated answer, and where it leaves its session.
use pe_review_agent.Domain.{Name}
use pe_review_agent.Prelude.{
  Bool, List, Option, [], any, false, if◌then◌else◌, leb, none, some, true, ℕ, ◌++◌, ◌+◌, ◌-◌, ◌==◌,
  ◌∷◌,
}
use pe_review_agent.Review.Scheduling.{
  Limitation, Limits, Phase, Session, Usage, call_budget, duplicate_tool_loop, final_slot,
  max_candidate_chunks, max_tool_rounds_reached, remaining_tools, tool_budget,
}

pub data Failure : Type 0 where
  llm_error truncated_twice tools_in_final_turn invalid_response cannot_split : Failure

-- What the scheduler reads of a completion: `finish_reason == "length"`, the keys of its tool calls
-- and whether `parse` accepts its content.
pub record Completion : Type 0 where
  pub is_truncated : Bool
  pub tool_calls : List Name
  pub is_parsed : Bool
  pub input_tokens : ℕ
  pub output_tokens : ℕ

-- `self.llm.complete`: ContextLengthError with its tokens, another exception, or a completion.
pub data LlmReply : Type 0 where
  context_length : ℕ → ℕ → LlmReply
  raises : LlmReply
  completes : Completion → LlmReply

-- What the world answers to one turn: the request, its recovery, and whether a read gives an error.
pub record Replies : Type 0 where
  pub request : LlmReply
  pub recovery : LlmReply
  pub is_tool_error : Bool

abbrev pub rank : Limitation → ℕ
rank max_tool_rounds_reached = 0
rank final_slot = 1
rank tool_budget = 2
rank call_budget = 3
rank duplicate_tool_loop = 4
rank max_candidate_chunks = 5

-- `dict.fromkeys`: the first occurrence of each.
unfoldable pub distinct : List ℕ → List Limitation → List Limitation
unfolding any
distinct known [] = []
distinct known (x ∷ xs) =
    let seen = any (λ y. y == rank x) known in
    let rest = distinct (if seen then known else rank x ∷ known) xs in
    if seen then rest else x ∷ rest

-- `usage.llm_calls += 1`, and `_tokens`.
abbrev pub charge_call : Usage → Usage
charge_call u = record u { llm_calls = u.llm_calls + 1 }

abbrev pub charge_tokens : ℕ → ℕ → Usage → Usage
charge_tokens i o u = record u {
  input_tokens = u.input_tokens + i;
  output_tokens = u.output_tokens + o;
}

-- `_refund_incomplete_llm_usage`, for one usage.
abbrev pub refund : Completion → Usage → Usage
refund c u = record u {
  llm_calls = u.llm_calls - 1;
  input_tokens = u.input_tokens - c.input_tokens;
  output_tokens = u.output_tokens - c.output_tokens;
}

abbrev pub charge_tool : Usage → Usage
charge_tool u = record u { tool_calls = u.tool_calls + 1 }

-- The budget and the session, which are charged together.
pub record Charged : Type 0 where
  pub usage : Usage
  pub session : Session

abbrev pub both : (Usage → Usage) → Charged → Charged
both f c = record {
  usage = f c.usage;
  session = record (c.session) { usage = f (c.session.usage) };
}

-- The outcome of `_llm_step`.
pub data Dispatch : Type 0 where
  rejected : Charged → Dispatch
  failed : Dispatch
  answered : Charged → Completion → Dispatch

-- A request is charged when it is sent.
unfoldable pub dispatched : Charged → Charged
dispatched c =
    let d = both charge_call c in
    record d { session = record (d.session) { calls = d.session.calls + 1 } }

unfoldable pub llm_step : Charged → LlmReply → Dispatch
unfolding dispatched
llm_step c (context_length i o) = rejected (both (charge_tokens i o) (dispatched c))
llm_step c raises = failed
llm_step c (completes r) =
    answered (both (charge_tokens r.input_tokens r.output_tokens) (dispatched c)) r

-- Where a request leaves its session.
pub data Outcome : Type 0 where
  goes_on : Charged → Outcome
  finishes : Charged → Outcome
  splits_rejected : Charged → Outcome
  splits_truncated : Charged → Outcome
  fails : Failure → Outcome

-- `if completion.tool_calls: …`, and parsing.
unfoldable pub finish_with : Charged → Bool → List Name → Bool → Outcome
finish_with c final [] true = finishes c
finish_with c final [] false = fails invalid_response
finish_with c true (key ∷ keys) parsed = fails tools_in_final_turn
finish_with c false (key ∷ keys) parsed =
    let s = c.session in
    goes_on (record c {
      session = record s {
        pending_tools = s.pending_tools ++ key ∷ keys;
        rounds = s.rounds + 1;
        duplicate_only = true;
      };
    })

-- The compact recovery request.
unfoldable pub recover : Dispatch → Outcome
unfolding finish_with
recover (rejected c) = splits_rejected c
recover failed = fails llm_error
recover (answered c r) =
    if r.is_truncated
    then splits_truncated (both (refund r) c)
    else finish_with c true r.tool_calls r.is_parsed

unfoldable pub conclude : Bool → LlmReply → Dispatch → Outcome
unfolding finish_with recover llm_step
conclude final recovery (rejected c) = splits_rejected c
conclude final recovery failed = fails llm_error
conclude final recovery (answered c r) =
    if r.is_truncated
    then recover (llm_step (both (refund r) c) recovery)
    else finish_with c final r.tool_calls r.is_parsed

-- `final_reason`, from the session's own to the budgets'.
unfoldable pub final_reason_of : Limits → Phase → Usage → ℕ → Session → Option Limitation
unfolding remaining_tools
final_reason_of l phase u available s = elim s.final_reason [
  | some reason ↦ some reason
  | none ↦
      if leb l.max_tool_rounds s.rounds
      then some max_tool_rounds_reached
      else (if available == 1
          then some final_slot
          else (if remaining_tools l phase u == 0 then some tool_budget else none))
]

-- `if final: session.limitations.append(final_reason)`, and the request.
unfoldable pub request_with : Usage → Session → Replies → Option Limitation → Outcome
unfolding conclude llm_step
request_with u s r none =
    conclude false r.recovery (llm_step (record { usage = u; session = s }) r.request)
request_with u s r (some reason) =
    let noted = record s { limitations = s.limitations ++ reason ∷ [] } in
    conclude true r.recovery (llm_step (record { usage = u; session = noted }) r.request)
