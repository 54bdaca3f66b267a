-- ===== src/Review/Verification.antt =====
-- `_split_verification_work` of src/pe_review_agent/review/native.py as the scheduler's split. What an item
-- carries, and `_verification_item`, whose key is a hash, are parameters.
use pe_review_agent.Prelude.{
  List, Option, [], ap, arith, length, none, refl, some, some_inj, subst, ℕ, ◌*◌, ◌-◌, ◌∷◌, ◌≡◌,
  ◌≤◌,
}
use pe_review_agent.Prelude.Result.{Result}
use pe_review_agent.Review.Batches.{split_batch, split_batch_lem}
use pe_review_agent.Review.Scheduling.{Limits, Phase, Schedule, WorkItem}
use pe_review_agent.Review.Scheduling.Ends.{run_ends}
use pe_review_agent.Review.Scheduling.Falls.{weights}
use pe_review_agent.Review.Scheduling.Request.{Failure, Replies}
use pe_review_agent.Review.Scheduling.Run.{run}
use pe_review_agent.Review.Scheduling.Shrinks.{Shrinks}

unfoldable pub halves_of :
    {A : Type 0}
    → (List A → WorkItem → WorkItem)
    → WorkItem
    → Option (List A × List A)
    → Option (List WorkItem)
halves_of verification_item parent none = none
halves_of verification_item parent (some (a, b)) =
    some (verification_item a parent ∷ verification_item b parent ∷ [])

module _ {A : Type 0} (payload : WorkItem → List A)
    (verification_item : List A → WorkItem → WorkItem) where
  unfoldable pub split_verification_work : WorkItem → Option (List WorkItem)
  unfolding halves_of split_batch
  split_verification_work parent = halves_of verification_item parent (split_batch (payload parent))

  abbrev pub batch_weight : WorkItem → ℕ
  batch_weight item = 2 * length (payload item) - 2

  module _ (carries : (b : List A) (p : WorkItem) → payload (verification_item b p) ≡ b) where
    halves_of-weights :
        (parent : WorkItem) (o : Option (List A × List A)) (children : List WorkItem)
        → split_batch (payload parent) ≡ o
        → halves_of verification_item parent o ≡ some children
        → weights batch_weight children ≤ batch_weight parent
    unfolding halves_of
    halves_of-weights parent none children e h = cc
    halves_of-weights parent (some (a, b)) children e h =
        let (w, pa, pb, l) = split_batch_lem (payload parent) a b e in
        let ca = ap (λ (zs : List A). length zs) (carries a parent) in
        let cb = ap (λ (zs : List A). length zs) (carries b parent) in
        subst (λ (cs : List WorkItem). weights batch_weight cs ≤ batch_weight parent) (some_inj h)
          (omega arith)

    split_verification_work-Shrinks : Shrinks split_verification_work batch_weight
    unfolding split_verification_work
    split_verification_work-Shrinks parent children h =
        halves_of-weights parent (split_batch (payload parent)) children refl h

    -- The round robin ends on batches of findings that are split as `_split_verification_work` does, from
    -- every schedule and whatever the model and the tools answer, where the item made of a batch carries
    -- that batch.
    pub split_verification_work_ends :
        (l : Limits) (phase : Phase) (max_units : ℕ) (st : Schedule) (replies : ℕ → Replies)
        → (fuel : ℕ) × (result : Result Failure Schedule) × (run split_verification_work l phase
              max_units fuel replies st
            ≡ some result)
    split_verification_work_ends l phase max_units st replies =
        run_ends split_verification_work batch_weight l phase split_verification_work-Shrinks
          max_units st replies
