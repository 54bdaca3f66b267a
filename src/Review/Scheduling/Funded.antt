-- ===== src/Review/Scheduling/Funded.antt =====
-- A turn of src/pe_review_agent/review/scheduling.py keeps the budget's invariant, whatever the model and
-- the tools answer.
use pe_review_agent.Domain.{Name}
use pe_review_agent.Prelude.{
  All, All-append, Bool, List, Option, [], any, ap, arith, if_intro, max, none, refl, some, subst,
  suc, sym, zero, ℕ, ◌+◌, ◌==◌, ◌∷◌, ◌≡◌, ◌≤◌,
}
use pe_review_agent.Prelude.Result.{Result, err, ok}
use pe_review_agent.Review.Scheduling.{
  Limits, Phase, Schedule, Session, Usage, WorkItem, admit_sessions, protected, remaining_calls,
  remaining_tools, slots, tool_limit,
}
use pe_review_agent.Review.Scheduling.Budget.{IsFunded, admit_sessions-IsFunded, protected-append}
use pe_review_agent.Review.Scheduling.Request.{Charged, Failure, Replies}
use pe_review_agent.Review.Scheduling.Run.{after_turn, close_run, run}
use pe_review_agent.Review.Scheduling.Settled.{Leaves, LeavesIfAny, request_turn-IsFunded}
use pe_review_agent.Review.Scheduling.Turn.{
  mark_loop, popped, requeue, session_turn, take_turn, tool_row, tool_step, turn,
}

module _ (l : Limits) (phase : Phase) (begun : Usage) where
  -- What a repository read changes.
  record Reads (u : Usage) (s : Session) (c : Charged) : Type 0 where
    calls : c.usage.llm_calls ≡ u.llm_calls
    reads : c.usage.tool_calls ≤ max u.tool_calls (tool_limit l phase)
    slots_kept : slots (c.session) ≡ slots s
    slotted : c.session.initial_slots ≡ s.initial_slots

  tool_row-Reads :
      (is_error : Bool) (u : Usage) (s : Session) (key : Name) (keys : List Name)
      → Reads u s (tool_row l phase is_error (record { usage = u; session = popped s keys }) key)
  unfolding tool_row remaining_tools
  tool_row-Reads is_error u s key keys =
      if_intro (Reads u s) (any (λ k. k == key) s.seen) _ _
        (λ _. record { calls = refl; reads = omega arith; slots_kept = refl; slotted = refl })
        λ _.
          if_intro (Reads u s) (remaining_tools l phase u == 0) _ _
            (λ _. record { calls = refl; reads = omega arith; slots_kept = refl; slotted = refl })
            λ t. record { calls = refl; reads = ground arith; slots_kept = refl; slotted = refl }

  mark_loop-Reads :
      (u : Usage) (s : Session) (keys : List Name) (c : Charged)
      → Reads u s c
      → Reads u s (record c { session = mark_loop keys (c.session) })
  mark_loop-Reads u s (key ∷ keys) c h = record {
    calls = h.calls;
    reads = h.reads;
    slots_kept = h.slots_kept;
    slotted = h.slotted;
  }
  mark_loop-Reads u s [] c h =
      if_intro (λ (t : Session). Reads u s (record c { session = t })) (c.session.duplicate_only) _
        _
        (λ _. record {
          calls = h.calls;
          reads = h.reads;
          slots_kept = h.slots_kept;
          slotted = h.slotted;
        })
        λ _. record {
          calls = h.calls;
          reads = h.reads;
          slots_kept = h.slots_kept;
          slotted = h.slotted;
        }

  tool_step-IsFunded :
      (is_error : Bool) (s : Session) (key : Name) (keys : List Name) (st : Schedule)
      → protected st.active + slots s ≤ remaining_calls l phase st.usage
      → 1 ≤ s.initial_slots
      → IsFunded l phase begun st
      → IsFunded l phase begun (requeue (tool_step l phase is_error st.usage s key keys) st)
  unfolding tool_step requeue remaining_calls
  tool_step-IsFunded is_error s key keys st free ps h =
      let row =
        tool_row l phase is_error (record { usage = st.usage; session = popped s keys }) key in
      let c : Charged = record row { session = mark_loop keys (row.session) } in
      let k = mark_loop-Reads st.usage s keys row (tool_row-Reads is_error st.usage s key keys) in
      let more = k.reads in
      let reads = h.reads in
      record {
        reserved = rw (protected-append st.active (c.session), k.calls, k.slots_kept) free;
        slotted =
            All-append (λ (t : Session). 1 ≤ t.initial_slots) st.active (c.session ∷ []) h.slotted
              (subst (λ (n : ℕ). 1 ≤ n) (sym k.slotted) ps, tt);
        calls = rw (k.calls) (h.calls);
        reads = omega arith;
        unstopped = h.unstopped;
      }

slots-pos : (s : Session) → 1 ≤ s.initial_slots → 1 ≤ slots s
slots-pos s h = ground arith

module _ (split : WorkItem → Option (List WorkItem)) (l : Limits) (phase : Phase) where
  session_turn-IsFunded :
      (begun : Usage) (r : Replies) (s : Session) (keys : List Name) (rest : List Session)
      (st : Schedule)
      → st.active ≡ s ∷ rest
      → IsFunded l phase begun st
      → Leaves
          (IsFunded l phase begun)
          (session_turn split l phase r s keys (record st { active = rest }))
  unfolding session_turn protected
  session_turn-IsFunded begun r s [] rest st e h =
      let all = subst (All (λ (t : Session). 1 ≤ t.initial_slots)) e h.slotted in
      let held = ap protected e in
      let reserved = h.reserved in
      let pos = slots-pos s all.0 in
      request_turn-IsFunded l phase begun split r s (record st { active = rest })
        (record {
          room = omega arith;
          slotted = all.1;
          calls = h.calls;
          reads = h.reads;
          unstopped = h.unstopped;
        })
        all.0
  session_turn-IsFunded begun r s (key ∷ keys) rest st e h =
      let all = subst (All (λ (t : Session). 1 ≤ t.initial_slots)) e h.slotted in
      let held = ap protected e in
      let reserved = h.reserved in
      tool_step-IsFunded l phase begun r.is_tool_error s key keys (record st { active = rest })
        (omega arith) all.0
        (record {
          reserved = omega arith;
          slotted = all.1;
          calls = h.calls;
          reads = h.reads;
          unstopped = h.unstopped;
        })

  take_turn-IsFunded :
      (begun : Usage) (r : Replies) (active : List Session) (st : Schedule)
      → st.active ≡ active
      → IsFunded l phase begun st
      → LeavesIfAny (IsFunded l phase begun) (take_turn split l phase r active st)
  unfolding take_turn
  take_turn-IsFunded begun r [] st e h = tt
  take_turn-IsFunded begun r (s ∷ rest) st e h =
      session_turn-IsFunded begun r s s.pending_tools rest st e h

  -- A turn of the round robin keeps the budget's invariant, whatever the model and the tools answer and
  -- however `split` divides work: the calls kept for the live sessions are left in the phase's share, at
  -- least one for each, the calls and the reads do not come to more than the share or what had been
  -- spent before the run, and no checkpoint is saved as STOPPED.
  pub turn-IsFunded :
      (begun : Usage) (max_units : ℕ) (r : Replies) (st : Schedule)
      → IsFunded l phase begun st
      → LeavesIfAny (IsFunded l phase begun) (turn split l phase max_units r st)
  unfolding turn
  turn-IsFunded begun max_units r st h =
      let admitted = admit_sessions l phase max_units st in
      take_turn-IsFunded begun r admitted.active admitted refl
        (admit_sessions-IsFunded l phase begun max_units st h)

  after_turn-IsFunded :
      (begun : Usage) (o : Option (Result Failure Schedule)) (closed : Schedule)
      (rest : Schedule → Option (Result Failure Schedule))
      → IsFunded l phase begun closed
      → ((st : Schedule)
          → IsFunded l phase begun st
          → LeavesIfAny (IsFunded l phase begun) (rest st))
      → LeavesIfAny (IsFunded l phase begun) o
      → LeavesIfAny (IsFunded l phase begun) (after_turn o closed rest)
  after_turn-IsFunded begun none closed rest c k h = c
  after_turn-IsFunded begun (some (err e)) closed rest c k h = tt
  after_turn-IsFunded begun (some (ok st)) closed rest c k h = k st h

  close_run-IsFunded :
      (begun : Usage) (max_units : ℕ) (st : Schedule)
      → IsFunded l phase begun st
      → IsFunded l phase begun (close_run phase max_units st)
  unfolding close_run
  close_run-IsFunded begun max_units st h = record {
    reserved = h.reserved;
    slotted = h.slotted;
    calls = h.calls;
    reads = h.reads;
    unstopped = h.unstopped;
  }

  -- A run that returns leaves the budget's invariant, however many turns it takes: its calls and its
  -- reads have not come to more than the phase's share or what had been spent before, and it has saved
  -- no checkpoint as STOPPED.
  pub run-IsFunded :
      (begun : Usage) (max_units fuel : ℕ) (replies : ℕ → Replies) (st : Schedule)
      → IsFunded l phase begun st
      → LeavesIfAny (IsFunded l phase begun) (run split l phase max_units fuel replies st)
  unfolding run
  run-IsFunded begun max_units zero replies st h = tt
  run-IsFunded begun max_units (suc fuel) replies st h =
      after_turn-IsFunded begun (turn split l phase max_units (replies 0) st)
        (close_run phase max_units (admit_sessions l phase max_units st))
        (λ (next : Schedule). run split l phase max_units fuel (λ n. replies (suc n)) next)
        (close_run-IsFunded begun max_units (admit_sessions l phase max_units st)
          (admit_sessions-IsFunded l phase begun max_units st h))
        (λ st k. run-IsFunded begun max_units fuel (λ n. replies (suc n)) st k)
        (turn-IsFunded begun max_units (replies 0) st h)
