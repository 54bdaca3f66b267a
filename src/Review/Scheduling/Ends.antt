-- ===== src/Review/Scheduling/Ends.antt =====
-- The loop of src/pe_review_agent/review/scheduling.py ends, where `split` makes work smaller.
use pe_review_agent.Domain.{Name}
use pe_review_agent.Prelude.{
  Bool, List, Option, [], any, ap, arith, if_intro, inl, inr, length, none, refl, some, suc, zero,
  ℕ, ◌<◌, ◌==◌, ◌∷◌, ◌≡◌,
}
use pe_review_agent.Prelude.Result.{Result, err, ok}
use pe_review_agent.Review.Scheduling.{
  Limits, Phase, Schedule, Session, Usage, WorkItem, admit_sessions, remaining_calls,
  remaining_tools,
}
use pe_review_agent.Review.Scheduling.Falls.{Falls, admit_from-Same, reads_left, work_left}
use pe_review_agent.Review.Scheduling.Request.{Charged, Failure, Replies}
use pe_review_agent.Review.Scheduling.Run.{after_turn, close_run, run}
use pe_review_agent.Review.Scheduling.Settled.{Leaves, LeavesIfAny}
use pe_review_agent.Review.Scheduling.Shrinks.{IsHead, Shrinks, request_turn-Falls, requeue-Falls}
use pe_review_agent.Review.Scheduling.Turn.{
  mark_loop, popped, session_turn, take_turn, tool_row, tool_step, turn,
}

-- What a read leaves of its session.
record IsRead (u : Usage) (s : Session) (keys : List Name) (c : Charged) : Type 0 where
  calls : c.usage.llm_calls ≡ u.llm_calls
  work : c.session.work ≡ s.work
  pending : c.session.pending_tools ≡ keys

tool_row-IsRead :
    (l : Limits) (phase : Phase) (is_error : Bool) (u : Usage) (s : Session) (key : Name)
    (keys : List Name)
    → IsRead u s keys
        (tool_row l phase is_error (record { usage = u; session = popped s keys }) key)
unfolding tool_row
tool_row-IsRead l phase is_error u s key keys =
    if_intro (IsRead u s keys) (any (λ k. k == key) s.seen) _ _
      (λ _. record { calls = refl; work = refl; pending = refl })
      λ _.
        if_intro (IsRead u s keys) (remaining_tools l phase u == 0) _ _
          (λ _. record { calls = refl; work = refl; pending = refl })
          λ _. record { calls = refl; work = refl; pending = refl }

mark_loop-IsRead :
    (u : Usage) (s : Session) (keys : List Name) (c : Charged)
    → IsRead u s keys c
    → IsRead u s keys (record c { session = mark_loop keys (c.session) })
mark_loop-IsRead u s (key ∷ keys) c h = record {
  calls = h.calls;
  work = h.work;
  pending = h.pending;
}
mark_loop-IsRead u s [] c h =
    if_intro (λ (t : Session). IsRead u s [] (record c { session = t })) (c.session.duplicate_only)
      _ _ (λ _. record { calls = h.calls; work = h.work; pending = h.pending })
      λ _. record { calls = h.calls; work = h.work; pending = h.pending }

module _ (split : WorkItem → Option (List WorkItem)) (weight : WorkItem → ℕ) (l : Limits)
    (phase : Phase) (shrinks : Shrinks split weight) where
  session_turn-Falls :
      (r : Replies) (s : Session) (rest : List Session) (keys : List Name) (before st : Schedule)
      → s.pending_tools ≡ keys
      → IsHead split weight l phase s rest before st
      → Leaves (Falls weight l phase before) (session_turn split l phase r s keys st)
  unfolding session_turn tool_step remaining_calls
  session_turn-Falls r s rest [] before st e h =
      request_turn-Falls split weight l phase shrinks r s rest before st h
  session_turn-Falls r s rest (key ∷ keys) before st e h =
      let row =
        tool_row l phase r.is_tool_error (record { usage = st.usage; session = popped s keys })
          key in
      let c : Charged = record row { session = mark_loop keys (row.session) } in
      let k =
        mark_loop-IsRead st.usage s keys row
          (tool_row-IsRead l phase r.is_tool_error st.usage s key keys) in
      let before_reads = ap (λ (x : List Name). length x) e in
      let after_reads = ap (λ (x : List Name). length x) k.pending in
      let same = k.calls in
      requeue-Falls split weight l phase s rest before st c h k.work
        (inr (omega arith, omega arith))

  take_turn-Falls :
      (r : Replies) (active : List Session) (st : Schedule)
      → st.active ≡ active
      → LeavesIfAny (Falls weight l phase st) (take_turn split l phase r active st)
  unfolding take_turn
  take_turn-Falls r [] st e = tt
  take_turn-Falls r (s ∷ rest) st e =
      session_turn-Falls r s rest s.pending_tools st (record st { active = rest }) refl
        (record { active = e; others = refl; waiting = refl; usage = refl })

  Leaves-imp :
      (P Q : Schedule → Type 0) (o : Option (Result Failure Schedule))
      → ((st : Schedule) → P st → Q st)
      → LeavesIfAny P o
      → LeavesIfAny Q o
  Leaves-imp P Q none f h = tt
  Leaves-imp P Q (some (err e)) f h = tt
  Leaves-imp P Q (some (ok st)) f h = f st h

  turn-Falls :
      (max_units : ℕ) (r : Replies) (st : Schedule)
      → LeavesIfAny (Falls weight l phase st) (turn split l phase max_units r st)
  unfolding turn admit_sessions
  turn-Falls max_units r st =
      let admitted = admit_sessions l phase max_units st in
      let same =
        admit_from-Same weight l phase max_units st.usage (length st.completed) st.active
          st.waiting in
      Leaves-imp (Falls weight l phase admitted) (Falls weight l phase st)
        (take_turn split l phase r admitted.active admitted)
        (λ st' falls. elim falls [
          | inl less ↦ inl (omega (arith, same.0))
          | inr (w, inl less) ↦ inr (omega (arith, same.0), inl less)
          | inr (w, inr (c, less)) ↦ inr (omega (arith, same.0), inr (c, omega (arith, same.1)))
        ])
        (take_turn-Falls r admitted.active admitted refl)

  module _ (max_units : ℕ) where
    abbrev Ends : Schedule → Type 0
    Ends st =
        (replies : ℕ → Replies)
        → (fuel : ℕ) × (result : Result Failure Schedule) × (run split l phase max_units fuel
              replies st
            ≡ some result)

    after_turn-Ends :
        (o : Option (Result Failure Schedule)) (closed : Schedule) (replies : ℕ → Replies)
        → LeavesIfAny Ends o
        → (fuel : ℕ) × (result : Result Failure Schedule) × (after_turn o closed
              (λ next. run split l phase max_units fuel replies next)
            ≡ some result)
    after_turn-Ends none closed replies h = (0, ok closed, refl)
    after_turn-Ends (some (err e)) closed replies h = (0, err e, refl)
    after_turn-Ends (some (ok st)) closed replies h = h replies

    Ends-of_Falls :
        (st : Schedule) → ((st' : Schedule) → Falls weight l phase st st' → Ends st') → Ends st
    unfolding run
    Ends-of_Falls st lower replies =
        let (fuel, result, e) =
          after_turn-Ends (turn split l phase max_units (replies 0) st)
            (close_run phase max_units (admit_sessions l phase max_units st)) (λ n. replies (suc n))
            (Leaves-imp (Falls weight l phase st) Ends (turn split l phase max_units (replies 0) st)
              lower (turn-Falls max_units (replies 0) st)) in
        (suc fuel, result, e)

    Ends-of_bounds :
        (w c p : ℕ) (st : Schedule)
        → work_left weight st < w
        → remaining_calls l phase st.usage < c
        → reads_left st.active < p
        → Ends st
    Ends-of_bounds zero c p st hw hc hp = absurd (omega arith)
    Ends-of_bounds (suc w) zero p st hw hc hp = absurd (omega arith)
    Ends-of_bounds (suc w) (suc c) zero st hw hc hp = absurd (omega arith)
    Ends-of_bounds (suc w) (suc c) (suc p) st hw hc hp = Ends-of_Falls st (λ st' falls. elim falls [
      | inl less ↦
          Ends-of_bounds w (suc (remaining_calls l phase st'.usage)) (suc (reads_left st'.active))
            st' (omega arith) (omega arith) (omega arith)
      | inr (same, inl less) ↦
          Ends-of_bounds (suc w) c (suc (reads_left st'.active)) st' (omega arith) (omega arith)
            (omega arith)
      | inr (same, inr (e, less)) ↦
          Ends-of_bounds (suc w) (suc c) p st' (omega arith) (omega arith) (omega arith)
    ])

    -- The loop ends, with a result or with a raised error, from every schedule and whatever the model and
    -- the tools answer, where the children that `split` gives for an item weigh, each one more than its
    -- weight, no more than the item together.
    pub run_ends :
        (st : Schedule) (replies : ℕ → Replies)
        → (fuel : ℕ) × (result : Result Failure Schedule) × (run split l phase max_units fuel
              replies st
            ≡ some result)
    run_ends st replies =
        Ends-of_bounds (suc (work_left weight st)) (suc (remaining_calls l phase st.usage))
          (suc (reads_left st.active)) st (omega arith) (omega arith) (omega arith) replies
