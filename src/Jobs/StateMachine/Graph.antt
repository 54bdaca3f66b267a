-- ===== src/Jobs/StateMachine/Graph.antt =====
-- What the transitions of src/pe_review_agent/jobs/state_machine.py allow, over whole histories.
use pe_review_agent.Domain.{
  JobState, done, failed_permanent, publishing, retry_wait, skipped_scope, superseded,
}
use pe_review_agent.Jobs.StateMachine.{
  can_transition, is_terminal, no_entry, require_transition, valid_retry_target,
}
use pe_review_agent.Prelude.{arith, false, inl, inr, refl, subst, true, ◌↔◌, ◌∙◌, ◌≡◌, ◌≢◌, ◌⊎◌}
use pe_review_agent.Prelude.Result.{err, ok}

-- One accepted transition.
pub data Moves (a b : JobState) : Type 0 where
  move : can_transition a b ≡ ok true → Moves a b

-- A history of accepted transitions.
pub data History (a : JobState) : JobState → Type 0 where
  start : History a a
  step : {b c : JobState} → History a b → Moves b c → History a c

terminal_move : (a b : JobState) → is_terminal a ≡ true → can_transition a b ≡ ok true → a ≡ b
unfolding is_terminal can_transition
terminal_move a b t h = ground arith

-- No history leaves a terminal state.
pub History_terminal : {a b : JobState} → is_terminal a ≡ true → History a b → a ≡ b
History_terminal t start = refl
History_terminal {a} t (step {b} {c} h (move m)) =
    let e : a ≡ b = History_terminal t h in
    e ∙ terminal_move b c (subst (λ s. is_terminal s ≡ true) e t) m

-- Asking for a transition raises the KeyError of the table exactly when a job in SKIPPED_SCOPE is to
-- leave it, and the error names that state.
pub can_transition_key_error :
    (a b : JobState)
    → ((a ≡ skipped_scope) × (b ≢ skipped_scope)) ↔ (can_transition a b ≡ err (no_entry a))
unfolding can_transition
can_transition_key_error a b = ground arith

done_from : (a : JobState) → can_transition a done ≡ ok true → (a ≡ done) ⊎ (a ≡ publishing)
unfolding can_transition
done_from a h = ground arith

-- The history passes through the state: it starts there or comes there.
abbrev pub Passes : (p : JobState) {a b : JobState} → History a b → Type 0
Passes p {a} start = a ≡ p
Passes p (step {b} {c} h m) = Passes p h ⊎ (c ≡ p)

Passes-end : (p : JobState) {a b : JobState} (h : History a b) → b ≡ p → Passes p h
Passes-end p start e = e
Passes-end p (step h m) e = inr e

-- Every history that ends in DONE and does not start there passes through PUBLISHING.
pub History-Passes-publishing :
    {a b : JobState} (h : History a b) → a ≢ done → b ≡ done → Passes publishing h
History-Passes-publishing start n e = absurd (n e)
History-Passes-publishing {a} (step {b} {c} h (move m)) n e =
    elim (done_from b (subst (λ s. can_transition b s ≡ ok true) e m)) [
      | inl d ↦ inl (History-Passes-publishing h n d)
      | inr p ↦ inl (Passes-end publishing h p)
    ]

-- A job that is not terminal can always be failed for good, and can always be superseded.
pub live_exits :
    (a : JobState)
    → is_terminal a ≡ false
    → (require_transition a failed_permanent ≡ ok tt) × (require_transition a superseded ≡ ok tt)
unfolding require_transition is_terminal
live_exits a h = ground arith

-- From RETRY_WAIT, the states that a job can go on to without ending are exactly the valid retry
-- targets.
pub retry_targets :
    (b : JobState)
    → (valid_retry_target b ≡ true)
      ↔ ((require_transition retry_wait b ≡ ok tt) × (is_terminal b ≡ false) × (b ≢ retry_wait))
unfolding require_transition is_terminal valid_retry_target
retry_targets b = ground arith
