-- ===== src/Jobs/Store/Requeued.antt =====
-- src/pe_review_agent/jobs/store.py: `requeue_failed` reopens a job, and keeps the order among the
-- Patch Sets, for it refuses a job that a newer Patch Set has overtaken.
use pe_review_agent.Jobs.Rows.{Db, Job, Publication, StoreError}
use pe_review_agent.Jobs.Store.{find_job, is_newer, on_job, on_job-ok, put_job}
use pe_review_agent.Jobs.Store.Keys.{find?-id}
use pe_review_agent.Jobs.Store.Lifecycle.{requeue_failed, requeue_row}
use pe_review_agent.Jobs.Store.Order.{
  IsOrdered, Related-replace_first, SameIdentity, SameIdentity-refl, Yields, is_open,
}
use pe_review_agent.Jobs.Store.Soundness.{IsSound, requeue_row-IsSound}
use pe_review_agent.Jobs.Store.Validity.{IsValid, IsValid-Related, IsValid-of_same_jobs}
use pe_review_agent.Prelude.{
  All, All-Elem, All-any-false, All-find?, All-replace_first, All-imp, All-of_Elem, Elem,
  Elem-find?, List, any, arith, false, find?, replace_first, some, subst, sym, true, ℕ, ◌==◌, ◌≡◌,
  ◌≤◌,
}
use pe_review_agent.Prelude.Result.{>>=-eq-ok, Result, ok}

-- What `requeue_failed` does to its row: the job was open, and nothing newer is known.
abbrev Reopened : List Job → Job → Job → Type 0
Reopened rows a b = SameIdentity a b × (is_open a ≡ true) × All (λ y. is_newer a y ≡ false) rows

unyielding : (a b x : Job) → SameIdentity a b → is_open a ≡ true → Yields x a → Yields x b
unyielding a b x s o y = ground arith

overtakes_none : (a b y : Job) → SameIdentity a b → is_newer a y ≡ false → Yields b y
overtakes_none a b y s n = ground arith

-- The order among the Patch Sets after a job was reopened.
IsOrdered-Reopened :
    (rows : List Job) (a b : Job)
    → Elem a rows
    → Reopened rows a b
    → IsOrdered rows
    → IsOrdered (replace_first (λ k. k.id == b.id) b rows)
IsOrdered-Reopened rows a b m (s, o, n) h =
    let ys = replace_first (λ k. k.id == b.id) b rows in
    let old : (x : Job) → Elem x rows → All (Yields x) ys = λ x e.
      let row = All-Elem (λ w. All (Yields w) rows) rows h e in
      All-replace_first (Yields x) (λ k. k.id == b.id) b rows
        (unyielding a b x s o (All-Elem (Yields x) rows row m)) row in
    let new_row : All (Yields b) ys =
      All-replace_first (Yields b) (λ k. k.id == b.id) b rows
        (overtakes_none b b b (SameIdentity-refl b) (itself b))
        (All-imp (λ y. is_newer a y ≡ false) (Yields b) rows (λ y. overtakes_none a b y s) n) in
    All-replace_first (λ x. All (Yields x) ys) (λ k. k.id == b.id) b rows new_row
      (All-of_Elem (λ x. All (Yields x) ys) rows old)
  where
    itself : (b : Job) → is_newer b b ≡ false
    itself b = ground arith

requeue_row-Reopened :
    (now : ℕ) (db : Db) (a b : Job)
    → requeue_row now db a ≡ ok b
    → SameIdentity a b × (is_open a ≡ true) × (any (is_newer a) db.jobs ≡ false)
unfolding requeue_row is_open
requeue_row-Reopened now db a b h = ground arith

-- The row that was reopened, written back.
reopened-IsValid :
    (now i : ℕ) (db : Db) (a b : Job)
    → find_job i db ≡ some a
    → requeue_row now db a ≡ ok b
    → IsValid db
    → IsValid (put_job b db)
unfolding find_job put_job
reopened-IsValid now i db a b found changed v =
    let (s, o, n) = requeue_row-Reopened now db a b changed in
    let m = Elem-find? (λ j. j.id == i) db.jobs found in
    let sound =
      requeue_row-IsSound now db a b (All-find? IsSound (λ j. j.id == i) db.jobs v.sound found)
        changed in
    IsValid-Related db (put_job b db)
      (Related-replace_first SameIdentity SameIdentity-refl (λ k. k.id == b.id) b db.jobs
        (subst (λ (k : ℕ). find? (λ j. j.id == k) db.jobs ≡ some a) (sym s.same_id)
          (find?-id db.jobs a v.ids m))
        s)
      (omega arith) (All-replace_first IsSound (λ k. k.id == b.id) b db.jobs sound v.sound)
      (IsOrdered-Reopened db.jobs a b m (s, o, All-any-false (is_newer a) db.jobs n) v.ordered) v

with_publications-IsValid :
    (ps : List Publication) (db1 db' : Db) (b job : Job)
    → ◌≡◌ {A = Result StoreError (Db × Job)}
        (ok (record db1 { publications = ps }, b))
        (ok (db', job))
    → IsValid db1
    → IsValid db'
with_publications-IsValid ps db1 db' b job f v =
    let n : db1.next_id ≤ db'.next_id = ground arith in IsValid-of_same_jobs db1 db' (cc) n v

-- `requeue_failed` keeps the table valid.
pub requeue_failed-IsValid :
    (now i : ℕ) (db db' : Db) (job : Job)
    → requeue_failed now i db ≡ ok (db', job)
    → IsValid db
    → IsValid db'
unfolding requeue_failed
requeue_failed-IsValid now i db db' job h v =
    let ((db1, b), e, f) = >>=-eq-ok (on_job i (requeue_row now db) db) _ h in
    let (a, found, changed, saved) = on_job-ok i (requeue_row now db) db db1 b e in
    with_publications-IsValid _ db1 db' b job f
      (subst IsValid (sym saved) (reopened-IsValid now i db a b found changed v))
