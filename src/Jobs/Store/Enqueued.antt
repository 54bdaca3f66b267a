-- ===== src/Jobs/Store/Enqueued.antt =====
-- `enqueue` of src/pe_review_agent/jobs/store.py: the table stays valid.
use pe_review_agent.Domain.{GerritPatchsetEvent, Name, received, skipped_scope}
use pe_review_agent.Jobs.Rows.{Db, Job, ManagedProject}
use pe_review_agent.Jobs.Store.{put_job}
use pe_review_agent.Jobs.Store.Enqueue.{
  apply_patchset_ordering, enqueue, enqueue_row, new_job, out_of_scope, revive, revives,
  same_identity, scope_of,
}
use pe_review_agent.Jobs.Store.Keys.{
  AreBelow, AreBelow-Related, Elem-replaced, IsUnique-Related, IsUnique-snoc, find?-id, id_eq,
  id_eq-SameIdentity, key_eq, key_eq-SameIdentity,
}
use pe_review_agent.Jobs.Store.Order.{
  Related, Related-replace_first, SameIdentity, SameIdentity-refl, Tames-refl,
}
use pe_review_agent.Jobs.Store.Ordered.{fresh-IsValid, known-IsValid}
use pe_review_agent.Jobs.Store.Soundness.{IsSound, new_job-IsSound, revive-IsSound}
use pe_review_agent.Jobs.Store.Validity.{IsValid, put_job-IsValid}
use pe_review_agent.Prelude.{
  All, All-Elem, All-append, All-find?-none, All-imp, All-replace_first, Bool, Elem, Elem-find?,
  Elem-last, Elem-replace_first, Elem-snoc, List, Option, [], arith, false, find?, if_intro,
  if◌then◌else◌, inl, inr, none, refl, replace_first, some, subst, suc, sym, true, ℕ, ◌++◌, ◌<◌,
  ◌==◌, ◌∷◌, ◌≡◌,
}

not_id :
    (n : ℕ) (xs : List Job) (y : Job) → y.id ≡ n → AreBelow n xs → All (λ x. id_eq y x ≡ false) xs
not_id n [] y e h = tt
not_id n (x ∷ xs) y e h = (ground arith, not_id n xs y e h.1)

not_key :
    (xs : List Job) (event : GerritPatchsetEvent) (version : Name) (y : Job)
    → y.project ≡ event.project
    → y.change_number ≡ event.change_number
    → y.revision_sha ≡ event.revision_sha
    → y.review_policy_version ≡ version
    → All (λ x. same_identity event version x ≡ false) xs
    → All (λ x. key_eq y x ≡ false) xs
not_key [] event version y p n r v h = tt
not_key (x ∷ xs) event version y p n r v h = (ground arith, not_key xs event version y p n r v h.1)

module _ (now : ℕ) (event : GerritPatchsetEvent) (version : Name) (db : Db) (v : IsValid db) where
  -- No row has the key: the row inserted.
  inserted-IsValid :
      (out : Bool)
      → find? (same_identity event version) db.jobs ≡ none
      → let job = new_job now db.next_id event version out in
        IsValid
          (apply_patchset_ordering job
            (record db { jobs = db.jobs ++ job ∷ []; next_id = suc db.next_id })).0
  unfolding new_job
  inserted-IsValid out e =
      let job = new_job now db.next_id event version out in
      fresh-IsValid db.jobs (record db { jobs = db.jobs ++ job ∷ []; next_id = suc db.next_id }) job
        (λ a m. Elem-snoc db.jobs job m) v.ordered
        (All-append IsSound db.jobs (job ∷ []) v.sound
          (new_job-IsSound now db.next_id event version out, tt))
        (IsUnique-snoc id_eq db.jobs job (not_id db.next_id db.jobs job refl v.below) v.ids)
        (IsUnique-snoc key_eq db.jobs job
          (not_key db.jobs event version job refl refl refl refl
            (All-find?-none (same_identity event version) db.jobs e))
          v.keys)
        (All-append (λ x. x.id < suc db.next_id) db.jobs (job ∷ [])
          (All-imp (λ x. x.id < db.next_id) (λ x. x.id < suc db.next_id) db.jobs
            (λ x h. omega arith) v.below)
          (omega arith, tt))
        (Elem-last db.jobs job) (ground arith)

  revived_state :
      (scope : Option ManagedProject) (found : Job)
      → revives scope found ≡ true
      → found.state ≡ skipped_scope
  unfolding revives
  revived_state scope found r = ground arith

  revived_same : (found : Job) → SameIdentity found (revive now found)
  unfolding revive
  revived_same found = ground arith

  revived_received : (found : Job) → (revive now found).state ≡ received
  unfolding revive
  revived_received found = refl

  -- The row is there, and is revived.
  revived-IsValid :
      (found : Job)
      → Elem found db.jobs
      → found.state ≡ skipped_scope
      → IsValid (apply_patchset_ordering (revive now found) (put_job (revive now found) db)).0
  unfolding put_job
  revived-IsValid found m s =
      let job = revive now found in
      let rows = replace_first (λ k. k.id == job.id) job db.jobs in
      let at : find? (λ k. k.id == job.id) db.jobs ≡ some found =
        subst (λ (i : ℕ). find? (λ k. k.id == i) db.jobs ≡ some found)
          (sym (revived_same found).same_id) (find?-id db.jobs found v.ids m) in
      let r : Related SameIdentity db.jobs rows =
        Related-replace_first SameIdentity SameIdentity-refl (λ k. k.id == job.id) job db.jobs at
          (revived_same found) in
      fresh-IsValid db.jobs (record db { jobs = rows }) job
        (λ a n. elim (Elem-replaced db.jobs job a v.ids n) [ inl e ↦ inr e | inr k ↦ inl k.0 ])
        v.ordered
        (All-replace_first IsSound (λ k. k.id == job.id) job db.jobs
          (revive-IsSound now found (All-Elem IsSound db.jobs v.sound m) s) v.sound)
        (IsUnique-Related id_eq id_eq-SameIdentity db.jobs rows r v.ids)
        (IsUnique-Related key_eq key_eq-SameIdentity db.jobs rows r v.keys)
        (AreBelow-Related db.next_id db.jobs rows r v.below)
        (Elem-replace_first (λ k. k.id == job.id) job db.jobs at) (inl (revived_received found))

  -- The row is there.
  found-IsValid :
      (scope : Option ManagedProject) (found : Job)
      → Elem found db.jobs
      → let job = if revives scope found then revive now found else found in
        IsValid (apply_patchset_ordering job (put_job job db)).0
  unfolding put_job
  found-IsValid scope found m =
      if_intro (λ job. IsValid (apply_patchset_ordering job (put_job job db)).0)
        (revives scope found) (revive now found) found
        (λ r. revived-IsValid found m (revived_state scope found r))
        (λ _.
          known-IsValid (put_job found db) found
            (put_job-IsValid db found found v m (All-Elem IsSound db.jobs v.sound m)
              (Tames-refl found))
            (Elem-replace_first (λ k. k.id == found.id) found db.jobs
              (find?-id db.jobs found v.ids m)))

  enqueue_row-IsValid :
      (o : Option Job) (scope : Option ManagedProject)
      → find? (same_identity event version) db.jobs ≡ o
      → IsValid (enqueue_row o scope now event version db).0
  unfolding enqueue_row
  enqueue_row-IsValid none scope e = inserted-IsValid (out_of_scope scope event) e
  enqueue_row-IsValid (some found) scope e =
      found-IsValid scope found (Elem-find? (same_identity event version) db.jobs e)

  -- Whatever the event, `enqueue` keeps the table valid.
  pub enqueue-IsValid : IsValid (enqueue now event version db).0
  unfolding enqueue
  enqueue-IsValid =
      enqueue_row-IsValid (find? (same_identity event version) db.jobs) (scope_of event.project db)
        refl
