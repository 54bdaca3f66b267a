-- ===== src/Review/Scheduling/Turn.antt =====
-- One turn of `RoundRobinReview.run` in src/pe_review_agent/review/scheduling.py: a repository read, or a
-- model request, for the session at the head of the queue, and the checkpoint that it comes to. A raised
-- error ends the run, as a value.
use pe_review_agent.Domain.{Name}
use pe_review_agent.Prelude.{
  Bool, List, Option, [], any, false, if◌then◌else◌, ltb, none, some, ℕ, ◌++◌, ◌+◌, ◌-◌, ◌==◌, ◌∷◌,
}
use pe_review_agent.Prelude.Result.{Result, err, ok}
use pe_review_agent.Review.Scheduling.{
  CheckpointStatus, Limitation, Limits, Phase, Schedule, Session, Usage, WorkCheckpoint, WorkItem,
  admit_sessions, call_budget, checkpoint_done, checkpoint_split, checkpoint_stopped,
  duplicate_tool_loop, no_usage, protected, remaining_calls, remaining_tools, tool_budget,
}
use pe_review_agent.Review.Scheduling.Request.{
  Charged, Failure, Outcome, Replies, both, cannot_split, charge_tool, distinct, fails,
  final_reason_of, finishes, goes_on, request_with, splits_rejected, splits_truncated,
  truncated_twice,
}

-- `_tool_step`, on the key of the call that was popped.
abbrev pub popped : Session → List Name → Session
popped s keys = record s { pending_tools = keys }

unfoldable pub tool_row : Limits → Phase → Bool → Charged → Name → Charged
unfolding remaining_tools any
tool_row l phase is_error c key =
    let s = c.session in
    if any (λ k. k == key) s.seen
    then c
    else (if remaining_tools l phase c.usage == 0
        then record c {
          session = record s {
            limitations = s.limitations ++ tool_budget ∷ [];
            final_reason = some tool_budget;
            duplicate_only = false;
          };
        }
        else (let d = both charge_tool c in
            let t = d.session in
            record d {
              session = record t {
                duplicate_only = false;
                seen = if is_error then t.seen else key ∷ t.seen;
              };
            }))

-- `if not session.pending_tools and session.duplicate_only`
abbrev pub mark_loop : List Name → Session → Session
mark_loop [] s =
    if s.duplicate_only then record s { final_reason = some duplicate_tool_loop } else s
mark_loop (key ∷ keys) s = s

unfoldable pub tool_step : Limits → Phase → Bool → Usage → Session → Name → List Name → Charged
unfolding tool_row
tool_step l phase is_error u s key keys =
    let c = tool_row l phase is_error (record { usage = u; session = popped s keys }) key in
    record c { session = mark_loop keys c.session }

-- `_checkpoint`
unfoldable pub checkpoint_of : Session → CheckpointStatus → List Limitation → WorkCheckpoint
unfolding distinct
checkpoint_of s status limitations = record {
  key = s.work.key;
  parent_key = s.work.parent_key;
  status = status;
  usage = elim status [
    | checkpoint_split ↦ no_usage
    | checkpoint_done ↦ s.usage
    | checkpoint_stopped ↦ s.usage
  ];
  limitations = distinct [] (s.limitations ++ limitations);
}

-- `outcome.saved += 1` beside each checkpoint.
unfoldable pub save : Session → CheckpointStatus → List Limitation → Schedule → Schedule
unfolding checkpoint_of
save s status limitations st = record st {
  checkpoints = checkpoint_of s status limitations ∷ st.checkpoints;
  saved = st.saved + 1;
}

unfoldable pub stop_session : Session → Schedule → Schedule
unfolding save
stop_session s st =
    let saved = save s checkpoint_stopped (call_budget ∷ []) st in
    record saved {
      pending = saved.pending ++ s.work ∷ [];
      limitations = saved.limitations ++ call_budget ∷ [];
    }

unfoldable pub split_session : Session → List WorkItem → Schedule → Schedule
unfolding save
split_session s children st =
    let saved = save s checkpoint_split [] st in
    record saved { waiting = saved.waiting ++ children }

unfoldable pub done_session : Session → Schedule → Schedule
unfolding save
done_session s st =
    let saved = save s checkpoint_done [] st in
    record saved {
      completed = saved.completed ++ s.work ∷ [];
      limitations = saved.limitations ++ s.limitations;
    }

abbrev pub with_usage : Usage → Schedule → Schedule
with_usage u st = record st { usage = u }

-- `active.append(session)`
unfoldable pub requeue : Charged → Schedule → Schedule
requeue c st = record st { usage = c.usage; active = st.active ++ c.session ∷ [] }

-- A context rejection takes any children that `split` gives; a doubly truncated response needs some.
unfoldable pub split_rejected :
    Charged → Option (List WorkItem) → Schedule → Result Failure Schedule
unfolding split_session
split_rejected c none st = err cannot_split
split_rejected c (some children) st = ok (split_session c.session children (with_usage c.usage st))

unfoldable pub split_truncated :
    Charged → Option (List WorkItem) → Schedule → Result Failure Schedule
unfolding split_session
split_truncated c none st = err truncated_twice
split_truncated c (some []) st = err truncated_twice
split_truncated c (some (child ∷ children)) st =
    ok (split_session c.session (child ∷ children) (with_usage c.usage st))

module _ (split : WorkItem → Option (List WorkItem)) where
  -- What becomes of the session after its request; it has left the queue.
  unfoldable pub conclude_turn : Outcome → Schedule → Result Failure Schedule
  unfolding requeue done_session split_rejected split_truncated
  conclude_turn (goes_on c) st = ok (requeue c st)
  conclude_turn (finishes c) st = ok (done_session c.session (with_usage c.usage st))
  conclude_turn (splits_rejected c) st = split_rejected c (split c.session.work) st
  conclude_turn (splits_truncated c) st = split_truncated c (split c.session.work) st
  conclude_turn (fails e) st = err e

  module _ (l : Limits) (phase : Phase) where
    -- The turn of a session with no pending read.
    unfoldable pub request_turn : Replies → Session → Schedule → Result Failure Schedule
    unfolding remaining_calls protected stop_session conclude_turn request_with final_reason_of
    request_turn r s st =
        let available = remaining_calls l phase st.usage - protected st.active in
        if ltb available 1
        then ok (stop_session s st)
        else conclude_turn
            (request_with st.usage s r (final_reason_of l phase st.usage available s)) st

    unfoldable pub session_turn : Replies → Session → List Name → Schedule → Result Failure Schedule
    unfolding request_turn tool_step requeue
    session_turn r s [] st = request_turn r s st
    session_turn r s (key ∷ keys) st =
        ok (requeue (tool_step l phase r.is_tool_error st.usage s key keys) st)

    -- `if not active: break`: no turn is left.
    unfoldable pub take_turn : Replies → List Session → Schedule → Option (Result Failure Schedule)
    unfolding session_turn
    take_turn r [] st = none
    take_turn r (s ∷ rest) st =
        some (session_turn r s s.pending_tools (record st { active = rest }))

    -- One round of `while waiting or active`.
    unfoldable pub turn : ℕ → Replies → Schedule → Option (Result Failure Schedule)
    unfolding admit_sessions take_turn
    turn max_units r st =
        let admitted = admit_sessions l phase max_units st in take_turn r admitted.active admitted
