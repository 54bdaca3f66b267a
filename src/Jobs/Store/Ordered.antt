-- ===== src/Jobs/Store/Ordered.antt =====
-- `_apply_patchset_ordering` of src/pe_review_agent/jobs/store.py: ordering the job of an event that
-- is known, new or revived keeps the table valid.
use pe_review_agent.Domain.{is_terminal_state, received, skipped_scope, state_eq}
use pe_review_agent.Jobs.Rows.{Db, Job}
use pe_review_agent.Jobs.Store.{is_newer, needs_publish_recovery, put_job}
use pe_review_agent.Jobs.Store.Arrival.{
  IsOrdered-aside, IsOrdered-settled, supersede_older-IsSound, supersede_older-Tamed,
}
use pe_review_agent.Jobs.Store.Enqueue.{
  apply_patchset_ordering, newest, order_after, settle, supersede_older, yield_to,
}
use pe_review_agent.Jobs.Store.Keys.{
  AreBelow, AreBelow-Related, Elem-replaced, IsUnique, IsUnique-Related, find?-id, id_eq,
  id_eq-SameIdentity, key_eq, key_eq-SameIdentity,
}
use pe_review_agent.Jobs.Store.Order.{
  IsOrdered, Related, Related-Tamed, Related-refl, Related-replace_first, SameIdentity,
  SameIdentity-refl, is_open, is_reviewable,
}
use pe_review_agent.Jobs.Store.Soundness.{IsSound, yield_to-IsSound}
use pe_review_agent.Jobs.Store.Tame.{yield_to-Tames}
use pe_review_agent.Jobs.Store.Validity.{IsValid, IsValid-Tamed, put_job-IsValid}
use pe_review_agent.Prelude.{
  ==_refl, All, All-Elem, All-replace_first, Bool, Bool-cases, Elem, List, Option, [], ap, arith,
  clash, false, find?, if_intro, inl, inr, none, none_ne, refl, replace_first, some, subst, subst₂,
  sym, true, ℕ, ◌==◌, ◌∷◌, ◌≡◌, ◌⊎◌,
}

newest-none : (p : Job → Bool) (xs : List Job) → newest p xs ≡ none → All (λ x. p x ≡ false) xs
unfolding newest
newest-none p [] e = tt
newest-none p (x ∷ xs) e = elim (Bool-cases (p x)) [
  | inl t ↦ none_ne (sym (rw t at e))
  | inr f ↦ (f, newest-none p xs (rw f at e))
]

-- Ordering an event's job that was in the table already.
settle-IsValid : (db : Db) (job : Job) → IsValid db → IsValid (settle job db).0
unfolding settle
settle-IsValid db job v =
    IsValid-Tamed db (record db { jobs = supersede_older job db.jobs })
      (supersede_older-Tamed job db.jobs) (omega arith)
      (supersede_older-IsSound job db.jobs v.sound) v

known_order_after :
    (newer : Option Job) (db : Db) (job : Job)
    → IsValid db
    → Elem job db.jobs
    → IsValid (order_after newer job db).0
unfolding order_after
known_order_after none db job v m = settle-IsValid db job v
known_order_after (some n) db job v m =
    if_intro (λ (r : Db × Job). IsValid r.0) (is_terminal_state job.state) (settle job db)
      (put_job (yield_to n.id job) db, yield_to n.id job) (λ _. settle-IsValid db job v)
      (λ _.
        put_job-IsValid db job (yield_to n.id job) v m
          (yield_to-IsSound n.id job (All-Elem IsSound db.jobs v.sound m))
          (yield_to-Tames n.id job))

pub known-IsValid :
    (db : Db) (job : Job)
    → IsValid db
    → Elem job db.jobs
    → IsValid (apply_patchset_ordering job db).0
unfolding apply_patchset_ordering
known-IsValid db job v m =
    if_intro (λ (r : Db × Job). IsValid r.0) (state_eq job.state skipped_scope) (db, job)
      (order_after (newest (is_newer job) db.jobs) job db) (λ _. v)
      (λ _. known_order_after (newest (is_newer job) db.jobs) db job v m)

-- An event's job that is new in `db`, beside the rows of `old`, or was revived there.
module _ (old : List Job) (db : Db) (job : Job)
    (extends : (a : Job) → Elem a db.jobs → Elem a old ⊎ (a ≡ job)) (ordered : IsOrdered old)
    (sound : All IsSound db.jobs) (ids : IsUnique id_eq db.jobs) (keys : IsUnique key_eq db.jobs)
    (below : AreBelow db.next_id db.jobs) (there : Elem job db.jobs) where
  with_jobs :
      (rows : List Job)
      → Related SameIdentity db.jobs rows
      → All IsSound rows
      → IsOrdered rows
      → IsValid (record db { jobs = rows })
  with_jobs rows s r o = record {
    sound = r;
    ids = IsUnique-Related id_eq id_eq-SameIdentity db.jobs rows s ids;
    keys = IsUnique-Related key_eq key_eq-SameIdentity db.jobs rows s keys;
    below = AreBelow-Related db.next_id db.jobs rows s below;
    ordered = o;
  }

  settle_new : newest (is_newer job) db.jobs ≡ none → IsValid (settle job db).0
  unfolding settle
  settle_new e =
      with_jobs (supersede_older job db.jobs)
        (Related-Tamed db.jobs (supersede_older job db.jobs) (supersede_older-Tamed job db.jobs))
        (supersede_older-IsSound job db.jobs sound)
        (IsOrdered-settled old db.jobs job extends ordered sound
          (newest-none (is_newer job) db.jobs e))

  -- A job that yields is neither reviewable nor open.
  yielded :
      (n : ℕ)
      → needs_publish_recovery job ≡ false
      → (is_reviewable (yield_to n job) ≡ false) × (is_open (yield_to n job) ≡ false)
  unfolding yield_to is_reviewable is_open
  yielded n f = ground arith

  beside :
      (n : ℕ) (a : Job)
      → Elem a (replace_first (λ k. k.id == (yield_to n job).id) (yield_to n job) db.jobs)
      → Elem a old ⊎ (a ≡ yield_to n job)
  beside n a m = elim (Elem-replaced db.jobs (yield_to n job) a ids m) [
    | inl e ↦ inr e
    | inr (k, far) ↦ elim (extends a k) [
      | inl o ↦ inl o
      | inr e ↦ clash (==_refl job.id) (
          subst₂ (λ (i j : ℕ). (i == j) ≡ false) (ap (λ (z : Job). z.id) e)
            (yield_to-Tames n job).same_id far)
    ]
  ]

  yield_new : (n : ℕ) → needs_publish_recovery job ≡ false → IsValid (put_job (yield_to n job) db)
  unfolding put_job
  yield_new n f =
      let job' = yield_to n job in
      let t = yield_to-Tames n job in
      let rows = replace_first (λ k. k.id == job'.id) job' db.jobs in
      with_jobs rows
        (Related-replace_first SameIdentity SameIdentity-refl (λ k. k.id == job'.id) job' db.jobs
          (subst (λ (i : ℕ). find? (λ k. k.id == i) db.jobs ≡ some job) (sym t.same_id)
            (find?-id db.jobs job ids there))
          t.identity)
        (All-replace_first IsSound (λ k. k.id == job'.id) job' db.jobs
          (yield_to-IsSound n job (All-Elem IsSound db.jobs sound there)) sound)
        (IsOrdered-aside old rows job' (beside n) ordered (yielded n f).0 (yielded n f).1)

  out_of_way :
      state_eq job.state skipped_scope ≡ true → (is_reviewable job ≡ false) × (is_open job ≡ false)
  unfolding is_reviewable is_open
  out_of_way s = ground arith

  not_recovering : job.state ≡ received → needs_publish_recovery job ≡ false
  unfolding needs_publish_recovery
  not_recovering s = ground arith

  ordered_fresh :
      (o : Option Job)
      → newest (is_newer job) db.jobs ≡ o
      → job.state ≡ received
      → IsValid (order_after o job db).0
  unfolding order_after
  ordered_fresh none e r = settle_new e
  ordered_fresh (some n) e r =
      if_intro (λ (q : Db × Job). IsValid q.0) (is_terminal_state job.state) (settle job db)
        (put_job (yield_to n.id job) db, yield_to n.id job) (λ t. clash t (ap is_terminal_state r))
        (λ _. yield_new n.id (not_recovering r))

  pub fresh-IsValid :
      (job.state ≡ received) ⊎ (job.state ≡ skipped_scope)
      → IsValid (apply_patchset_ordering job db).0
  unfolding apply_patchset_ordering
  fresh-IsValid f =
      if_intro (λ (r : Db × Job). IsValid r.0) (state_eq job.state skipped_scope) (db, job)
        (order_after (newest (is_newer job) db.jobs) job db)
        (λ s.
          with_jobs db.jobs (Related-refl SameIdentity SameIdentity-refl db.jobs) sound
            (IsOrdered-aside old db.jobs job extends ordered (out_of_way s).0 (out_of_way s).1))
        (λ s.
          ordered_fresh (newest (is_newer job) db.jobs) refl
            (let r : job.state ≡ received = ground arith in r))
