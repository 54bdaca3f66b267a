-- ===== src/Tests/Scheduling.antt =====
-- The theorems on the scheduler and on the chunks of a diff, on concrete values.
use pe_review_agent.Prelude.{
  List, Option, Text, [], any, arith, codes, false, if◌then◌else◌, ltb, none, refl, some, true, ℕ,
  ◌-◌, ◌==◌, ◌∷◌, ◌≡◌,
}
use pe_review_agent.Prelude.Result.{Result, ok}
use pe_review_agent.Review.Chunking.{chunk_diff, split_text}
use pe_review_agent.Review.Chunking.Parts.{IsSplit, split_text-IsSplit}
use pe_review_agent.Review.Chunking.Whole.{IsChunked, chunk_diff-IsChunked}
use pe_review_agent.Review.Scheduling.{
  Limits, Schedule, WorkItem, admit_from, admit_sessions, call_limit, candidate, minimum_slots,
  no_usage, protected, remaining_calls, remaining_tools, reserve, tool_limit,
}
use pe_review_agent.Review.Scheduling.Budget.{IsFunded}
use pe_review_agent.Review.Scheduling.Ends.{run_ends}
use pe_review_agent.Review.Scheduling.Funded.{run-IsFunded, turn-IsFunded}
use pe_review_agent.Review.Scheduling.Request.{
  Failure, Replies, completes, conclude, dispatched, distinct, final_reason_of, finish_with,
  llm_step, raises, recover, request_with,
}
use pe_review_agent.Review.Scheduling.Run.{close_run, run}
use pe_review_agent.Review.Scheduling.Settled.{LeavesIfAny}
use pe_review_agent.Review.Scheduling.Shrinks.{Shrinks}
use pe_review_agent.Review.Scheduling.Turn.{
  checkpoint_of, conclude_turn, done_session, request_turn, requeue, save, session_turn, take_turn,
  tool_row, tool_step, turn,
}

abbrev diff : Text
diff = codes "diff --git a/x b/x\n+++ b/x\n+a\ndiff --git a/y b/y\n+++ b/y\n+b\n"

split_text-IsSplit_example : IsSplit 20 diff (split_text diff 20)
split_text-IsSplit_example = split_text-IsSplit diff 20 (omega arith)

chunk_diff-IsChunked_example : IsChunked 40 diff (chunk_diff 40 diff)
chunk_diff-IsChunked_example = chunk_diff-IsChunked 40 diff (omega arith)

abbrev pub limits : Limits
limits = record {
  max_llm_calls_per_job = 9;
  max_tool_calls_per_job = 6;
  verifier_numerator = 1;
  verifier_denominator = 3;
  max_tool_rounds = 3;
}

abbrev pub item : ℕ → WorkItem
item n = record { key = n; parent_key = none }

abbrev pub opening : Schedule
opening = record {
  usage = no_usage;
  waiting = item 4 ∷ item 5 ∷ [];
  active = [];
  completed = [];
  pending = [];
  limitations = [];
  saved = 0;
  checkpoints = [];
}

-- A split that makes a smaller item of one.
abbrev shorter : WorkItem → Option (List WorkItem)
shorter w = if w.key == 0 then none else some (record w { key = w.key - 1 } ∷ [])

abbrev key_of : WorkItem → ℕ
key_of w = w.key

shorter-Shrinks : Shrinks shorter key_of
shorter-Shrinks w children h = ground arith

-- The model asks for two reads, then is cut off and answers its recovery.
abbrev pub asks : Replies
asks = record {
  request = completes (record {
    is_truncated = false;
    tool_calls = 1 ∷ 2 ∷ [];
    is_parsed = false;
    input_tokens = 10;
    output_tokens = 5;
  });
  recovery = raises;
  is_tool_error = false;
}

abbrev pub recovers : Replies
recovers = record {
  request = completes (record {
    is_truncated = true;
    tool_calls = [];
    is_parsed = false;
    input_tokens = 10;
    output_tokens = 5;
  });
  recovery = completes (record {
    is_truncated = false;
    tool_calls = [];
    is_parsed = true;
    input_tokens = 10;
    output_tokens = 5;
  });
  is_tool_error = false;
}

abbrev pub answers : ℕ → Replies
answers n = if ltb n 2 then asks else recovers

opening-IsFunded : IsFunded limits candidate no_usage opening
unfolding protected
opening-IsFunded = record {
  reserved = omega arith;
  slotted = tt;
  calls = omega arith;
  reads = omega arith;
  unstopped = tt;
}

turn-IsFunded_example :
    LeavesIfAny (IsFunded limits candidate no_usage) (turn shorter limits candidate 5 asks opening)
turn-IsFunded_example =
    turn-IsFunded shorter limits candidate no_usage 5 asks opening opening-IsFunded

run-IsFunded_example :
    LeavesIfAny
      (IsFunded limits candidate no_usage)
      (run shorter limits candidate 5 20 answers opening)
run-IsFunded_example =
    run-IsFunded shorter limits candidate no_usage 5 20 answers opening opening-IsFunded

run_ends_example :
    (fuel : ℕ) × (result : Result Failure Schedule) × (run shorter limits candidate 5 fuel answers
        opening
      ≡ some result)
run_ends_example = run_ends shorter key_of limits candidate shorter-Shrinks 5 opening answers

abbrev charged_calls : Option (Result Failure Schedule) → Option ℕ
charged_calls (some (ok st)) = some (st.usage.llm_calls)
charged_calls _ = none

-- Two sessions ask once each and are recovered once each: four calls are charged.
run_charges : charged_calls (run shorter limits candidate 5 20 answers opening) ≡ some 4
unfolding run turn admit_sessions admit_from minimum_slots remaining_calls remaining_tools
    call_limit tool_limit reserve protected take_turn session_turn request_turn conclude_turn
    request_with conclude recover llm_step dispatched finish_with final_reason_of tool_step tool_row
    requeue done_session save checkpoint_of distinct any close_run
run_charges = refl
