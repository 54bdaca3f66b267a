-- ===== src/Review/Scheduling/Budget.antt =====
-- The budget of src/pe_review_agent/review/scheduling.py: a live session keeps its slots, and a phase does
-- not come to more calls and reads than its share.
use pe_review_agent.Domain.{Name}
use pe_review_agent.Prelude.{
  All, All-append, Bool, List, Option, [], arith, false, if_intro, length, ltb, max, min, none, not,
  refl, some, true, ℕ, ◌++◌, ◌+◌, ◌-◌, ◌||◌, ◌∷◌, ◌≡◌, ◌≢◌, ◌≤◌,
}
use pe_review_agent.Review.Scheduling.{
  Limitation, Limits, Phase, Schedule, Session, Usage, WorkCheckpoint, WorkItem, admit_from,
  admit_sessions, call_limit, checkpoint_done, checkpoint_split, checkpoint_stopped, is_idle,
  minimum_slots, new_session, protected, remaining_calls, slots, tool_limit,
}
use pe_review_agent.Review.Scheduling.Request.{
  Charged, LlmReply, Outcome, Replies, both, charge_tokens, completes, conclude, context_length,
  dispatched, fails, final_reason_of, finish_with, finishes, goes_on, llm_step, raises, recover,
  refund, request_with, splits_rejected, splits_truncated,
}

abbrev pub is_stopped : WorkCheckpoint → Bool
is_stopped c = elim c.status [
  | checkpoint_stopped ↦ true
  | checkpoint_done ↦ false
  | checkpoint_split ↦ false
]

-- What the budget keeps for the live sessions, over the usage that the run started from.
pub record IsFunded (l : Limits) (phase : Phase) (start : Usage) (st : Schedule) : Type 0 where
  pub reserved : protected st.active ≤ remaining_calls l phase st.usage
  pub slotted : All (λ (s : Session). 1 ≤ s.initial_slots) st.active
  pub calls : st.usage.llm_calls ≤ max start.llm_calls (call_limit l phase)
  pub reads : st.usage.tool_calls ≤ max start.tool_calls (tool_limit l phase)
  pub unstopped : All (λ (c : WorkCheckpoint). is_stopped c ≡ false) st.checkpoints

pub protected-append :
    (xs : List Session) (s : Session) → protected (xs ++ s ∷ []) ≡ protected xs + slots s
unfolding protected
protected-append [] s = omega arith
protected-append (x ∷ xs) s = rw (protected-append xs s) (omega arith)

minimum_slots-pos : (l : Limits) (phase : Phase) (u : Usage) → 1 ≤ minimum_slots l phase u
unfolding minimum_slots
minimum_slots-pos l phase u = ground arith

-- The sessions that the inner loop leaves.
abbrev Funds : Limits → Phase → Usage → List Session × List WorkItem → Type 0
Funds l phase u r =
    (protected (r.0) ≤ remaining_calls l phase u) × All (λ (s : Session). 1 ≤ s.initial_slots) (r.0)

opened-Funds :
    (l : Limits) (phase : Phase) (u : Usage) (active : List Session) (waiting : List WorkItem)
    (item : WorkItem) (n spare : ℕ)
    → Funds l phase u (active, waiting)
    → spare ≡ remaining_calls l phase u - protected active
    → 1 ≤ n
    → 1 ≤ spare
    → Funds l phase u (active ++ new_session item (min n spare) ∷ [], waiting)
opened-Funds l phase u active waiting item n spare h e pn ps =
    let s = new_session item (min n spare) in
    (
      ground (arith, protected-append active s),
      All-append (λ (s : Session). 1 ≤ s.initial_slots) active (s ∷ []) h.1 (omega arith, tt),
    )

-- The inner loop opens a session only where its slots are still free.
admit_from-Funds :
    (l : Limits) (phase : Phase) (m : ℕ) (u : Usage) (n : ℕ) (active : List Session)
    (waiting : List WorkItem)
    → Funds l phase u (active, waiting)
    → Funds l phase u (admit_from l phase m u n active waiting)
unfolding admit_from
admit_from-Funds l phase m u n active [] h = h
admit_from-Funds l phase m u n active (item ∷ waiting) h =
    let spare = remaining_calls l phase u - protected active in
    let minimum = minimum_slots l phase u in
    let s = new_session item (min minimum spare) in
    let opened = λ (p : 1 ≤ spare).
      opened-Funds l phase u active waiting item minimum spare h refl (minimum_slots-pos l phase u)
        p in
    let more =
      λ (p : 1 ≤ spare). admit_from-Funds l phase m u n (active ++ s ∷ []) waiting (opened p) in
    let P = Funds l phase u in
    if_intro P (ltb (n + length active) m) _ _
      (λ _.
        if_intro P (ltb spare minimum) _ _
          (λ _.
            if_intro P (not (is_idle active) || ltb spare 1) _ _ (λ _. h)
              (λ q. opened (ground (arith, minimum_slots-pos l phase u))))
          (λ q. more (ground (arith, minimum_slots-pos l phase u))))
      (λ _. h)

pub admit_sessions-IsFunded :
    (l : Limits) (phase : Phase) (start : Usage) (m : ℕ) (st : Schedule)
    → IsFunded l phase start st
    → IsFunded l phase start (admit_sessions l phase m st)
unfolding admit_sessions
admit_sessions-IsFunded l phase start m st h =
    let f =
      admit_from-Funds l phase m st.usage (length st.completed) st.active st.waiting
        (h.reserved, h.slotted) in
    record {
      reserved = f.0;
      slotted = f.1;
      calls = h.calls;
      reads = h.reads;
      unstopped = h.unstopped;
    }

-- What a request costs the budget, and what it leaves of its session.
pub record Costs (u : Usage) (s : Session) (c : Charged) : Type 0 where
  pub calls : c.usage.llm_calls ≤ u.llm_calls + 1
  pub reads : c.usage.tool_calls ≡ u.tool_calls
  pub called : 1 ≤ c.session.calls
  pub slotted : c.session.initial_slots ≡ s.initial_slots
  pub same_work : c.session.work ≡ s.work

abbrev pub Paid : Bool → Usage → Session → Outcome → Type 0
Paid final u s (goes_on c) = Costs u s c × (final ≡ false) × (c.usage.llm_calls ≡ u.llm_calls + 1)
Paid final u s (finishes c) = Costs u s c
Paid final u s (splits_rejected c) = Costs u s c
Paid final u s (splits_truncated c) = Costs u s c
Paid final u s (fails e) = Unit

finish_with-Paid :
    (u : Usage) (s : Session) (c : Charged) (final : Bool) (keys : List Name) (parsed : Bool)
    → Costs u s c
    → (final ≡ false → c.usage.llm_calls ≡ u.llm_calls + 1)
    → Paid final u s (finish_with c final keys parsed)
unfolding finish_with
finish_with-Paid u s c final [] true h e = h
finish_with-Paid u s c final [] false h e = tt
finish_with-Paid u s c true (key ∷ keys) parsed h e = tt
finish_with-Paid u s c false (key ∷ keys) parsed h e = (
  record {
    calls = h.calls;
    reads = h.reads;
    called = h.called;
    slotted = h.slotted;
    same_work = h.same_work;
  },
  refl,
  e refl,
)

final-Paid :
    (final : Bool) (u : Usage) (s : Session) (o : Outcome) → Paid true u s o → Paid final u s o
final-Paid final u s (goes_on c) h = cc
final-Paid final u s (finishes c) h = h
final-Paid final u s (splits_rejected c) h = h
final-Paid final u s (splits_truncated c) h = h
final-Paid final u s (fails e) h = tt

-- The recovery takes the place of the truncated request, which is refunded.
recover-Paid :
    (final : Bool) (u : Usage) (s : Session) (c : Charged) (reply : LlmReply)
    → c.usage.llm_calls ≤ u.llm_calls
    → c.usage.tool_calls ≡ u.tool_calls
    → c.session.initial_slots ≡ s.initial_slots
    → c.session.work ≡ s.work
    → Paid final u s (recover (llm_step c reply))
unfolding recover llm_step dispatched
recover-Paid final u s c (context_length i o) p q e w = record {
  calls = omega arith;
  reads = q;
  called = omega arith;
  slotted = e;
  same_work = w;
}
recover-Paid final u s c raises p q e w = tt
recover-Paid final u s c (completes r) p q e w =
    let d = both (charge_tokens r.input_tokens r.output_tokens) (dispatched c) in
    if_intro (Paid final u s) r.is_truncated _ _
      (λ _. record {
        calls = omega arith;
        reads = q;
        called = omega arith;
        slotted = e;
        same_work = w;
      })
      λ _. final-Paid final u s (finish_with d true r.tool_calls r.is_parsed) (
        finish_with-Paid u s d true r.tool_calls r.is_parsed
          (record {
            calls = omega arith;
            reads = q;
            called = omega arith;
            slotted = e;
            same_work = w;
          })
          (λ n. cc))

conclude-Paid :
    (final : Bool) (u : Usage) (s t : Session) (request recovery : LlmReply)
    → t.initial_slots ≡ s.initial_slots
    → t.work ≡ s.work
    → Paid final u s
        (conclude final recovery (llm_step (record { usage = u; session = t }) request))
unfolding conclude llm_step dispatched
conclude-Paid final u s t (context_length i o) recovery e w = record {
  calls = omega arith;
  reads = refl;
  called = omega arith;
  slotted = e;
  same_work = w;
}
conclude-Paid final u s t raises recovery e w = tt
conclude-Paid final u s t (completes r) recovery e w =
    let d =
      both (charge_tokens r.input_tokens r.output_tokens)
        (dispatched (record { usage = u; session = t })) in
    if_intro (Paid final u s) r.is_truncated _ _
      (λ _. recover-Paid final u s (both (refund r) d) recovery (omega arith) refl e w)
      λ _.
        finish_with-Paid u s d final r.tool_calls r.is_parsed
          (record {
            calls = omega arith;
            reads = refl;
            called = omega arith;
            slotted = e;
            same_work = w;
          })
          (λ _. refl)

abbrev pub is_final : Option Limitation → Bool
is_final none = false
is_final (some reason) = true

pub request_with-Paid :
    (u : Usage) (s : Session) (r : Replies) (reason : Option Limitation)
    → Paid (is_final reason) u s (request_with u s r reason)
unfolding request_with
request_with-Paid u s r none = conclude-Paid false u s s r.request r.recovery refl refl
request_with-Paid u s r (some reason) =
    conclude-Paid true u s (record s { limitations = s.limitations ++ reason ∷ [] }) r.request
      r.recovery refl refl

-- With one call left the request is a final one.
pub final_reason_of-last :
    (l : Limits) (phase : Phase) (u : Usage) (available : ℕ) (s : Session)
    → is_final (final_reason_of l phase u available s) ≡ false
    → available ≢ 1
unfolding final_reason_of
final_reason_of-last l phase u available s h = ground arith
