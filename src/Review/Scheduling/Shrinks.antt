-- ===== src/Review/Scheduling/Shrinks.antt =====
-- A turn of src/pe_review_agent/review/scheduling.py brings the loop nearer to its end, where `split` makes
-- work smaller: the requests.
use pe_review_agent.Prelude.{
  Bool, List, Option, [], ap, arith, if_intro, inl, inr, length, ltb, none, refl, some, subst, ℕ,
  ◌+◌, ◌-◌, ◌<◌, ◌∙◌, ◌∷◌, ◌≡◌, ◌≤◌, ◌⊎◌,
}
use pe_review_agent.Review.Scheduling.{
  Limits, Phase, Schedule, Session, WorkItem, protected, remaining_calls,
}
use pe_review_agent.Review.Scheduling.Budget.{Paid, is_final, request_with-Paid}
use pe_review_agent.Review.Scheduling.Falls.{
  Falls, live, live-append, reads_left, reads_left-append, weights, weights-append,
}
use pe_review_agent.Review.Scheduling.Request.{
  Charged, Outcome, Replies, fails, final_reason_of, finishes, goes_on, request_with,
  splits_rejected, splits_truncated,
}
use pe_review_agent.Review.Scheduling.Settled.{Leaves}
use pe_review_agent.Review.Scheduling.Turn.{
  conclude_turn, done_session, request_turn, requeue, save, split_rejected, split_session,
  split_truncated, stop_session, with_usage,
}

module _ (split : WorkItem → Option (List WorkItem)) (weight : WorkItem → ℕ) where
  abbrev pub Shrinks : Type 0
  Shrinks =
      (item : WorkItem) (children : List WorkItem)
      → split item ≡ some children
      → weights weight children ≤ weight item

  module _ (l : Limits) (phase : Phase) where
    -- The session at the head, and the rest.
    pub record IsHead (s : Session) (rest : List Session) (before st : Schedule) : Type 0 where
      pub active : before.active ≡ s ∷ rest
      pub others : st.active ≡ rest
      pub waiting : st.waiting ≡ before.waiting
      pub usage : st.usage ≡ before.usage

    gone-Falls :
        (s : Session) (rest : List Session) (before st st' : Schedule)
        → IsHead s rest before st
        → st'.active ≡ st.active
        → weights weight st'.waiting ≤ weights weight st.waiting + weight s.work
        → Falls weight l phase before st'
    gone-Falls s rest before st st' h ea ew =
        let a = ap (live weight) (ea ∙ h.others) in
        let b = ap (live weight) h.active in
        let c = ap (weights weight) h.waiting in inl (omega arith)

    split_session-Falls :
        (s : Session) (rest : List Session) (before st : Schedule) (c : Charged)
        (children : List WorkItem)
        → IsHead s rest before st
        → weights weight children ≤ weight s.work
        → Falls weight l phase before (split_session (c.session) children (with_usage c.usage st))
    unfolding split_session save
    split_session-Falls s rest before st c children h k =
        gone-Falls s rest before st (split_session (c.session) children (with_usage c.usage st)) h
          refl (omega (arith, weights-append weight st.waiting children))

    split_rejected-Falls :
        (s : Session) (rest : List Session) (before st : Schedule) (c : Charged)
        (o : Option (List WorkItem))
        → IsHead s rest before st
        → ((children : List WorkItem) → o ≡ some children → weights weight children ≤ weight s.work)
        → Leaves (Falls weight l phase before) (split_rejected c o st)
    unfolding split_rejected
    split_rejected-Falls s rest before st c none h k = tt
    split_rejected-Falls s rest before st c (some children) h k =
        split_session-Falls s rest before st c children h (k children refl)

    split_truncated-Falls :
        (s : Session) (rest : List Session) (before st : Schedule) (c : Charged)
        (o : Option (List WorkItem))
        → IsHead s rest before st
        → ((children : List WorkItem) → o ≡ some children → weights weight children ≤ weight s.work)
        → Leaves (Falls weight l phase before) (split_truncated c o st)
    unfolding split_truncated
    split_truncated-Falls s rest before st c none h k = tt
    split_truncated-Falls s rest before st c (some []) h k = tt
    split_truncated-Falls s rest before st c (some (x ∷ xs)) h k =
        split_session-Falls s rest before st c (x ∷ xs) h (k (x ∷ xs) refl)

    pub requeue-Falls :
        (s : Session) (rest : List Session) (before st : Schedule) (c : Charged)
        → IsHead s rest before st
        → c.session.work ≡ s.work
        → ((remaining_calls l phase c.usage < remaining_calls l phase st.usage)
            ⊎ ((remaining_calls l phase c.usage ≡ remaining_calls l phase st.usage)
                × (length (c.session.pending_tools) < length s.pending_tools)))
        → Falls weight l phase before (requeue c st)
    unfolding requeue
    requeue-Falls s rest before st c h e k =
        let a = ap (live weight) h.active in
        let b = ap (weights weight) h.waiting in
        let d = ap weight e in
        let f = live-append weight st.active (c.session) in
        let g = reads_left-append st.active (c.session) in
        let others = ap (live weight) h.others in
        let reads = ap reads_left h.active in
        let other_reads = ap reads_left h.others in
        let calls = ap (remaining_calls l phase) h.usage in
        inr (
          omega arith,
          elim k [
            | inl less ↦ inl (omega arith)
            | inr (same, less) ↦ inr (omega arith, omega arith)
          ],
        )

    module _ (shrinks : Shrinks) where
      children_of :
          (item parent : WorkItem)
          → item ≡ parent
          → (children : List WorkItem) → split item ≡ some children
          → weights weight children ≤ weight parent
      children_of item parent e children h =
          subst (λ (p : WorkItem). weights weight children ≤ weight p) e (shrinks item children h)

      conclude_turn-Falls :
          (final : Bool) (s : Session) (rest : List Session) (o : Outcome) (before st : Schedule)
          → IsHead s rest before st
          → 1 ≤ remaining_calls l phase st.usage
          → Paid final st.usage s o
          → Leaves (Falls weight l phase before) (conclude_turn split o st)
      unfolding conclude_turn done_session save remaining_calls
      conclude_turn-Falls final s rest (goes_on c) before st h room k =
          let charged = k.2 in
          requeue-Falls s rest before st c h (k.0.same_work) (inl (omega arith))
      conclude_turn-Falls final s rest (finishes c) before st h room k =
          gone-Falls s rest before st (done_session (c.session) (with_usage c.usage st)) h refl
            (omega arith)
      conclude_turn-Falls final s rest (splits_rejected c) before st h room k =
          split_rejected-Falls s rest before st c (split c.session.work) h
            (children_of c.session.work s.work k.same_work)
      conclude_turn-Falls final s rest (splits_truncated c) before st h room k =
          split_truncated-Falls s rest before st c (split c.session.work) h
            (children_of c.session.work s.work k.same_work)
      conclude_turn-Falls final s rest (fails e) before st h room k = tt

      pub request_turn-Falls :
          (r : Replies) (s : Session) (rest : List Session) (before st : Schedule)
          → IsHead s rest before st
          → Leaves (Falls weight l phase before) (request_turn split l phase r s st)
      unfolding request_turn stop_session save
      request_turn-Falls r s rest before st h =
          let available = remaining_calls l phase st.usage - protected st.active in
          let reason = final_reason_of l phase st.usage available s in
          if_intro (Leaves (Falls weight l phase before)) (ltb available 1) _ _
            (λ _. gone-Falls s rest before st (stop_session s st) h refl (omega arith))
            λ t.
              conclude_turn-Falls (is_final reason) s rest (request_with st.usage s r reason) before
                st h (ground arith) (request_with-Paid st.usage s r reason)
