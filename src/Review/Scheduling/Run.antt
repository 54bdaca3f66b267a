-- ===== src/Review/Scheduling/Run.antt =====
-- The loop of `RoundRobinReview.run` in src/pe_review_agent/review/scheduling.py, on fuel, and what it makes
-- of the work that is left. The n-th answer of the world is that to the n-th turn.
use pe_review_agent.Prelude.{
  List, Option, [], if◌then◌else◌, leb, length, none, some, suc, zero, ℕ, ◌++◌, ◌∷◌,
}
use pe_review_agent.Prelude.Result.{Result, err, ok}
use pe_review_agent.Review.Scheduling.{
  Limitation, Limits, Phase, Schedule, WorkItem, admit_sessions, call_budget, candidate,
  max_candidate_chunks, verification,
}
use pe_review_agent.Review.Scheduling.Request.{Failure, Replies, distinct}
use pe_review_agent.Review.Scheduling.Turn.{turn}

-- The reason for the work that is left.
abbrev pub left_reason : Phase → ℕ → ℕ → Limitation
left_reason candidate max_units finished =
    if leb max_units finished then max_candidate_chunks else call_budget
left_reason verification max_units finished = call_budget

abbrev pub noted_left : Phase → ℕ → Schedule → List WorkItem → List Limitation
noted_left phase max_units st [] = []
noted_left phase max_units st (item ∷ items) =
    left_reason phase max_units (length st.completed) ∷ []

unfoldable pub close_run : Phase → ℕ → Schedule → Schedule
unfolding distinct
close_run phase max_units st = record st {
  waiting = [];
  pending = st.pending ++ st.waiting;
  limitations = distinct [] (st.limitations ++ noted_left phase max_units st st.waiting);
}

-- What follows a turn: the end of the run, a raised error, or the next turn.
abbrev pub after_turn :
    Option (Result Failure Schedule)
    → Schedule
    → (Schedule → Option (Result Failure Schedule))
    → Option (Result Failure Schedule)
after_turn none closed rest = some (ok closed)
after_turn (some (err e)) closed rest = some (err e)
after_turn (some (ok st)) closed rest = rest st

module _ (split : WorkItem → Option (List WorkItem)) (l : Limits) (phase : Phase)
    (max_units : ℕ) where
  -- none: the fuel is used up.
  unfoldable pub run : ℕ → (ℕ → Replies) → Schedule → Option (Result Failure Schedule)
  unfolding turn close_run
  run zero replies st = none
  run (suc fuel) replies st =
      after_turn (turn split l phase max_units (replies 0) st)
        (close_run phase max_units (admit_sessions l phase max_units st))
        (λ next. run fuel (λ n. replies (suc n)) next)
