-- ===== src/Jobs/Votes/Closed.antt =====
-- src/pe_review_agent/jobs/votes.py: how a vote is closed, and what a POST leaves behind.
use pe_review_agent.Domain.{Name, done}
use pe_review_agent.Jobs.Rows.{Db, Job, ReviewVote, VoteStatus}
use pe_review_agent.Jobs.Store.{find_job, put_job}
use pe_review_agent.Jobs.Store.Budget.{find_job-put_job, found_id}
use pe_review_agent.Jobs.Store.Lifecycle.{publication_of}
use pe_review_agent.Jobs.Store.Publications.{finalize_row}
use pe_review_agent.Jobs.Votes.{
  comments_durable, find_vote, finish, finish_row, is_terminal_vote, put_vote,
}
use pe_review_agent.Jobs.Votes.Kept.{finish-ok, finish-terminal, guard_vote-ok}
use pe_review_agent.Prelude.{
  ==_refl, Bool-cases, List, Option, String, ap, arith, clash, false, find?, find?-replace_first,
  find?_passes, inl, inr, none, refl, some, some_inj, subst, sym, true, ℕ, ◌==◌, ◌∙◌, ◌≡◌,
}
use pe_review_agent.Prelude.Result.{ok}

closed_row :
    (status : VoteStatus) (response : Option Name) (error : Option String) (account : Option ℕ)
    (o : Option ReviewVote) (v : ReviewVote)
    → finish_row status response error account o ≡ ok v
    → is_terminal_vote status ≡ true
    → (w : ReviewVote) × (o ≡ some w)
      × (v.job_id ≡ w.job_id)
      × (is_terminal_vote v.status ≡ true)
      × (is_terminal_vote w.status ≡ true → v ≡ w)
      × (v.attempts ≡ w.attempts)
      × (v.value ≡ w.value)
unfolding finish_row
closed_row status response error account none v h t = cc
closed_row status response error account (some w) v h t =
    elim (Bool-cases (is_terminal_vote w.status)) [
      | inl a ↦
          let e : w ≡ v = ground arith in
          (w, refl, rw e refl, rw (sym e) a, λ k. sym e, rw e refl, rw e refl)
      | inr b ↦ (w, refl, ground arith, ground arith, λ k. clash k b, ground arith, ground arith)
    ]

find_vote-put_vote :
    (i : ℕ) (db : Db) (w v : ReviewVote)
    → find_vote i db ≡ some w
    → v.job_id ≡ w.job_id
    → find_vote i (put_vote v db) ≡ some v
find_vote-put_vote i db w v f e =
    let t = find?_passes (λ (x : ReviewVote). x.job_id == i) db.votes f in
    let n : v.job_id ≡ i = ground arith in
    subst (λ (n : ℕ). find? (λ (x : ReviewVote). x.job_id == n) (put_vote v db).votes ≡ some v) n
      (find?-replace_first (λ x. x.job_id == v.job_id) v db.votes
        (subst (λ (k : ℕ). find? (λ (x : ReviewVote). x.job_id == k) db.votes ≡ some w) (sym n) f)
        (==_refl v.job_id))

freed :
    (job : Job)
    → ((finalize_row false job).state ≡ done)
      × ((finalize_row false job).lease_owner ≡ none)
      × ((finalize_row false job).id ≡ job.id)
unfolding finalize_row
freed job = ground arith

put_job-votes : (job : Job) (db : Db) → (put_job job db).votes ≡ db.votes
unfolding put_job
put_job-votes job db = refl

done_job :
    (i : ℕ) (db db' : Db) (job : Job) (v : ReviewVote)
    → find_job i db ≡ some job
    → db' ≡ put_job (finalize_row false job) (put_vote v db)
    → (r : Job) × (find_job i db' ≡ some r) × (r.state ≡ done) × (r.lease_owner ≡ none)
unfolding find_job
done_job i db db' job v f s =
    let (a, b, c) = freed job in
    (
      finalize_row false job,
      subst (λ (d : Db). find_job i d ≡ some (finalize_row false job)) (sym s)
          (find_job-put_job i (put_vote v db) job (finalize_row false job) f
            (c ∙ found_id i db job f)),
      a,
      b,
    )

-- When `finish` commits, the review's publication was posted, the job is DONE and unleased, and its
-- vote is closed; a vote that was closed already is not changed, and neither is the value or the
-- number of requests of any.
pub finish_closed :
    (now i : ℕ) (worker : Name) (status : VoteStatus) (response : Option Name)
    (error : Option String) (account : Option ℕ) (db db' : Db) (u : Unit {0}) (w : ReviewVote)
    → find_vote i db ≡ some w
    → finish now i worker status response error account db ≡ ok (db', u)
    → (comments_durable (publication_of i db) ≡ true)
      × ((job : Job) × (find_job i db' ≡ some job) × (job.state ≡ done) × (job.lease_owner ≡ none))
      × ((v : ReviewVote) × (find_vote i db' ≡ some v)
          × (is_terminal_vote v.status ≡ true)
          × (is_terminal_vote w.status ≡ true → v ≡ w)
          × (v.value ≡ w.value)
          × (v.attempts ≡ w.attempts))
finish_closed now i worker status response error account db db' u w g h =
    let (job, v, e, c, f, s) = finish-ok now i worker status response error account db db' u h in
    let (found, p, l) = guard_vote-ok now worker (find_job i db) job e in
    let (w', g', k, t, keep, n, x) =
      closed_row status response error account (find_vote i db) v f
        (finish-terminal now i worker status response error account db db' u h) in
    let same : w' ≡ w = some_inj (sym g' ∙ g) in
    let voted : find_vote i db' ≡ some v =
      subst (λ (d : Db). find? (λ (y : ReviewVote). y.job_id == i) d.votes ≡ some v) (sym s)
        (subst (λ (vs : List ReviewVote). find? (λ (y : ReviewVote). y.job_id == i) vs ≡ some v)
          (sym (put_job-votes (finalize_row false job) (put_vote v db)))
          (find_vote-put_vote i db w' v g' k)) in
    (
      c,
      done_job i db db' job v found s,
      (
        v,
        voted,
        t,
        subst (λ (y : ReviewVote). is_terminal_vote y.status ≡ true → v ≡ y) same keep,
        x ∙ ap (λ (y : ReviewVote). y.value) same,
        n ∙ ap (λ (y : ReviewVote). y.attempts) same,
      ),
    )
