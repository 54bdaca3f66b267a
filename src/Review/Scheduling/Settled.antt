-- ===== src/Review/Scheduling/Settled.antt =====
-- A request of src/pe_review_agent/review/scheduling.py keeps the budget's invariant: its session goes on
-- with a slot, or gives its slots back.
use pe_review_agent.Prelude.{
  All, All-append, Bool, List, Option, [], arith, false, if_intro, ltb, max, none, refl, some,
  subst, sym, ℕ, ◌-◌, ◌∷◌, ◌≡◌, ◌≢◌, ◌≤◌,
}
use pe_review_agent.Prelude.Result.{Result, err, ok}
use pe_review_agent.Review.Scheduling.{
  Limits, Phase, Schedule, Session, Usage, WorkCheckpoint, WorkItem, call_limit, protected,
  remaining_calls, slots, tool_limit,
}
use pe_review_agent.Review.Scheduling.Budget.{
  Costs, IsFunded, Paid, final_reason_of-last, is_final, is_stopped, protected-append,
  request_with-Paid,
}
use pe_review_agent.Review.Scheduling.Request.{
  Charged, Failure, Outcome, Replies, fails, final_reason_of, finishes, goes_on, request_with,
  splits_rejected, splits_truncated,
}
use pe_review_agent.Review.Scheduling.Turn.{
  checkpoint_of, conclude_turn, done_session, request_turn, requeue, save, split_rejected,
  split_session, split_truncated, with_usage,
}

-- What a turn that raises nothing leaves.
abbrev pub Leaves : (Schedule → Type 0) → Result Failure Schedule → Type 0
Leaves P (err e) = Unit
Leaves P (ok st) = P st

abbrev pub LeavesIfAny : (Schedule → Type 0) → Option (Result Failure Schedule) → Type 0
LeavesIfAny P none = Unit
LeavesIfAny P (some r) = Leaves P r

module _ (l : Limits) (phase : Phase) (begun : Usage) where
  -- The session at the head has left the queue, with room for one more call.
  pub record HasRoom (st : Schedule) : Type 0 where
    pub room : 1 ≤ remaining_calls l phase st.usage - protected st.active
    pub slotted : All (λ (s : Session). 1 ≤ s.initial_slots) st.active
    pub calls : st.usage.llm_calls ≤ max begun.llm_calls (call_limit l phase)
    pub reads : st.usage.tool_calls ≤ max begun.tool_calls (tool_limit l phase)
    pub unstopped : All (λ (c : WorkCheckpoint). is_stopped c ≡ false) st.checkpoints

  -- A session that is done or split gives its slots back.
  leaves-IsFunded :
      (s : Session) (c : Charged) (st st' : Schedule)
      → HasRoom st
      → Costs st.usage s c
      → st'.active ≡ st.active
      → st'.usage ≡ c.usage
      → All (λ (k : WorkCheckpoint). is_stopped k ≡ false) st'.checkpoints
      → IsFunded l phase begun st'
  unfolding remaining_calls
  leaves-IsFunded s c st st' h k ea eu cs =
      let room = h.room in
      let more = k.calls in
      let calls : c.usage.llm_calls ≤ max begun.llm_calls (call_limit l phase) = omega arith in
      let reads : c.usage.tool_calls ≤ max begun.tool_calls (tool_limit l phase) =
        rw (k.reads) (h.reads) in
      record {
        reserved = rw (ea, eu) (omega arith);
        slotted = rw ea (h.slotted);
        calls = rw eu calls;
        reads = rw eu reads;
        unstopped = cs;
      }

  goes_on-IsFunded :
      (final : Bool) (s : Session) (c : Charged) (st : Schedule)
      → HasRoom st
      → 1 ≤ s.initial_slots
      → (final ≡ false → remaining_calls l phase st.usage - protected st.active ≢ 1)
      → Costs st.usage s c
      → final ≡ false
      → IsFunded l phase begun (requeue c st)
  unfolding remaining_calls requeue
  goes_on-IsFunded final s c st h ps last k e =
      let room = h.room in
      let more = k.calls in
      let called = k.called in
      let two = last e in
      let one : slots (c.session) ≡ 1 = ground arith in
      record {
        reserved = rw (protected-append st.active (c.session), one) (omega arith);
        slotted =
            All-append (λ (t : Session). 1 ≤ t.initial_slots) st.active (c.session ∷ []) h.slotted
              (subst (λ (n : ℕ). 1 ≤ n) (sym k.slotted) ps, tt);
        calls = omega arith;
        reads = rw (k.reads) (h.reads);
        unstopped = h.unstopped;
      }

  saved-unstopped :
      (s : Session) (children : List WorkItem) (c : Charged) (st : Schedule)
      → HasRoom st
      → Costs st.usage s c
      → IsFunded l phase begun (split_session (c.session) children (with_usage c.usage st))
  unfolding split_session save checkpoint_of
  saved-unstopped s children c st h k =
      leaves-IsFunded s c st (split_session (c.session) children (with_usage c.usage st)) h k refl
        refl (refl, h.unstopped)

  module _ (split : WorkItem → Option (List WorkItem)) where
    split_rejected-IsFunded :
        (s : Session) (c : Charged) (st : Schedule) (o : Option (List WorkItem))
        → HasRoom st
        → Costs st.usage s c
        → Leaves (IsFunded l phase begun) (split_rejected c o st)
    unfolding split_rejected
    split_rejected-IsFunded s c st none h k = tt
    split_rejected-IsFunded s c st (some children) h k = saved-unstopped s children c st h k

    split_truncated-IsFunded :
        (s : Session) (c : Charged) (st : Schedule) (o : Option (List WorkItem))
        → HasRoom st
        → Costs st.usage s c
        → Leaves (IsFunded l phase begun) (split_truncated c o st)
    unfolding split_truncated
    split_truncated-IsFunded s c st none h k = tt
    split_truncated-IsFunded s c st (some []) h k = tt
    split_truncated-IsFunded s c st (some (x ∷ xs)) h k = saved-unstopped s (x ∷ xs) c st h k

    conclude_turn-IsFunded :
        (final : Bool) (s : Session) (o : Outcome) (st : Schedule)
        → HasRoom st
        → 1 ≤ s.initial_slots
        → (final ≡ false → remaining_calls l phase st.usage - protected st.active ≢ 1)
        → Paid final st.usage s o
        → Leaves (IsFunded l phase begun) (conclude_turn split o st)
    unfolding conclude_turn done_session save checkpoint_of
    conclude_turn-IsFunded final s (goes_on c) st h ps last k =
        goes_on-IsFunded final s c st h ps last (k.0) (k.1)
    conclude_turn-IsFunded final s (finishes c) st h ps last k =
        leaves-IsFunded s c st (done_session (c.session) (with_usage c.usage st)) h k refl refl
          (refl, h.unstopped)
    conclude_turn-IsFunded final s (splits_rejected c) st h ps last k =
        split_rejected-IsFunded s c st (split c.session.work) h k
    conclude_turn-IsFunded final s (splits_truncated c) st h ps last k =
        split_truncated-IsFunded s c st (split c.session.work) h k
    conclude_turn-IsFunded final s (fails e) st h ps last k = tt

    -- The branch that stops a session for want of calls is not taken.
    pub request_turn-IsFunded :
        (r : Replies) (s : Session) (st : Schedule)
        → HasRoom st
        → 1 ≤ s.initial_slots
        → Leaves (IsFunded l phase begun) (request_turn split l phase r s st)
    unfolding request_turn
    request_turn-IsFunded r s st h ps =
        let available = remaining_calls l phase st.usage - protected st.active in
        let reason = final_reason_of l phase st.usage available s in
        let room = h.room in
        if_intro (Leaves (IsFunded l phase begun)) (ltb available 1) _ _
          (λ t. absurd (ground arith))
          λ _.
            conclude_turn-IsFunded (is_final reason) s (request_with st.usage s r reason) st h ps
              (final_reason_of-last l phase st.usage available s)
              (request_with-Paid st.usage s r reason)
