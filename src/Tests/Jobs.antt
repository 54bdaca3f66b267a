-- ===== src/Tests/Jobs.antt =====
-- The theorems on histories of transactions, applied to the first steps of the scenario.
use pe_review_agent.Domain.{fetching}
use pe_review_agent.Jobs.History.{
  Run-IsValid, advanced, claimed, empty-IsValid, enqueued, next, reviewable_patchset, stop,
}
use pe_review_agent.Jobs.History.Fenced.{IsFenced, Step-IsFenced, author}
use pe_review_agent.Jobs.Rows.{Db, Job}
use pe_review_agent.Jobs.Store.Enqueue.{enqueue, new_job}
use pe_review_agent.Jobs.Store.Enqueued.{enqueue-IsValid}
use pe_review_agent.Jobs.Store.Leases.{claim_next}
use pe_review_agent.Jobs.Store.Lifecycle.{transition}
use pe_review_agent.Jobs.Store.Order.{is_reviewable}
use pe_review_agent.Jobs.Store.Tame.{advance_target, to_fetching}
use pe_review_agent.Jobs.Store.Validity.{IsValid}
use pe_review_agent.Prelude.{
  Elem, [], any, count_where, false, find?, inl, inr, refl, replace_first, update_where, ◌≡◌,
}
use pe_review_agent.Tests.Scenario.{arrived, digest, event, fetched, initial, taken, value}

arrived-IsValid : IsValid arrived
arrived-IsValid = enqueue-IsValid 10 (event 1) 5 initial (empty-IsValid [])

Run-IsValid_example : IsValid taken
Run-IsValid_example =
    Run-IsValid digest initial taken
      (next initial arrived taken (enqueued 10 (event 1) 5 initial)
        (next arrived taken taken (claimed 20 9 100 arrived) (stop taken)))
      (empty-IsValid [])

-- The same Patch Set under another review policy.
abbrev both : Db
both = (enqueue 11 (event 1) 6 arrived).0

abbrev first_job : Job
first_job = new_job 10 0 (event 1) 5 false

abbrev second_job : Job
second_job = new_job 11 1 (event 1) 6 false

first_known : Elem first_job both.jobs
unfolding enqueue find? update_where any replace_first count_where
first_known = inl refl

second_known : Elem second_job both.jobs
unfolding enqueue find? update_where any replace_first count_where
second_known = inr (inl refl)

reviewable_patchset_example : first_job.patchset_number ≡ second_job.patchset_number
unfolding is_reviewable new_job
reviewable_patchset_example =
    reviewable_patchset digest [] both first_job second_job
      (next initial arrived both (enqueued 10 (event 1) 5 initial)
        (next arrived both both (enqueued 11 (event 1) 6 arrived) (stop both)))
      first_known second_known refl refl refl

Step-IsFenced_example : IsFenced 21 0 9 taken
unfolding author enqueue claim_next transition find? update_where any replace_first count_where
    advance_target
Step-IsFenced_example =
    Step-IsFenced digest 21 0 9 taken fetched
      (advanced 21 0 to_fetching 9 false taken fetched
        (value first_job (transition 21 0 fetching 9 false taken)) refl)
      refl
