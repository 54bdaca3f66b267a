-- ===== src/Jobs/Store/Fencing.antt =====
-- src/pe_review_agent/jobs/store.py: only the worker that holds a live lease changes a job.
use pe_review_agent.Domain.{Name}
use pe_review_agent.Jobs.Rows.{Job}
use pe_review_agent.Jobs.Store.{require_live_lease}
use pe_review_agent.Prelude.{Option, arith, none, refl, some, ℕ, ◌<◌, ◌↔◌, ◌≡◌}
use pe_review_agent.Prelude.Result.{ok}

-- The worker's lease on the job has not expired.
pub record Holds (now : ℕ) (worker : Name) (job : Job) : Type 0 where
  pub owner : job.lease_owner ≡ some worker
  pub expires_at : ℕ
  pub until : job.lease_expires_at ≡ some expires_at
  pub live : now < expires_at

-- `_require_live_lease` lets a worker pass exactly when it holds a live lease.
pub require_live_lease-Holds :
    (now : ℕ) (worker : Name) (job : Job)
    → (require_live_lease now job worker ≡ ok tt) ↔ Holds now worker job
unfolding require_live_lease
require_live_lease-Holds now worker job =
    (passes job.lease_owner job.lease_expires_at refl refl, λ h. holds h)
  where
    passes :
        (o : Option Name) (t : Option ℕ)
        → job.lease_owner ≡ o
        → job.lease_expires_at ≡ t
        → require_live_lease now job worker ≡ ok tt
        → Holds now worker job
    passes none t p q h = ground arith
    passes (some w) none p q h = ground arith
    passes (some w) (some t) p q h = record {
      owner = ground arith;
      expires_at = t;
      until = q;
      live = ground arith;
    }

    holds : Holds now worker job → require_live_lease now job worker ≡ ok tt
    holds h = let a = h.owner in let b = h.until in let c = h.live in ground arith
