-- ===== src/Tests/Batches.antt =====
-- The theorems on the batches to verify, on concrete values.
use pe_review_agent.Prelude.{All, List, [], ap, concat, length, refl, some, suc, zero, ℕ, ◌∷◌, ◌≡◌}
use pe_review_agent.Prelude.Result.{Result}
use pe_review_agent.Review.Batches.{
  IsBatch, batches_from, is_full, verification_batches, verification_batches-IsBatch,
}
use pe_review_agent.Review.Scheduling.{Schedule, WorkItem, verification}
use pe_review_agent.Review.Scheduling.Request.{Failure}
use pe_review_agent.Review.Scheduling.Run.{run}
use pe_review_agent.Review.Verification.{split_verification_work, split_verification_work_ends}
use pe_review_agent.Tests.Scheduling.{answers, limits, opening}

abbrev lengths_of : ℕ → ℕ
lengths_of n = n

abbrev sizes : List ℕ
sizes = 100 ∷ 31950 ∷ 40000 ∷ 5 ∷ 6 ∷ []

-- The third finding is too long to share a batch.
batches_of_sizes :
    verification_batches lengths_of sizes
    ≡ (100 ∷ []) ∷ (31950 ∷ []) ∷ (40000 ∷ []) ∷ (5 ∷ 6 ∷ []) ∷ []
unfolding verification_batches batches_from is_full
batches_of_sizes = refl

verification_batches-IsBatch_example :
    (concat (verification_batches lengths_of sizes) ≡ sizes)
    × All (IsBatch lengths_of) (verification_batches lengths_of sizes)
verification_batches-IsBatch_example = verification_batches-IsBatch lengths_of sizes

abbrev repeat_unit : ℕ → List (Unit {0})
repeat_unit zero = []
repeat_unit (suc n) = tt ∷ repeat_unit n

-- An item that carries as many findings as its key says.
abbrev carried : WorkItem → List (Unit {0})
carried w = repeat_unit w.key

abbrev item_of : List (Unit {0}) → WorkItem → WorkItem
item_of b p = record { key = length b; parent_key = some p.key }

carried-item_of : (b : List (Unit {0})) (p : WorkItem) → carried (item_of b p) ≡ b
carried-item_of [] p = refl
carried-item_of (tt ∷ b) p = ap (λ (c : List (Unit {0})). tt ∷ c) (carried-item_of b p)

split_verification_work_ends_example :
    (fuel : ℕ) × (result : Result Failure Schedule) × (run
        (split_verification_work carried item_of)
        limits
        verification
        5
        fuel
        answers
        opening
      ≡ some result)
split_verification_work_ends_example =
    split_verification_work_ends carried item_of carried-item_of limits verification 5 opening
      answers
