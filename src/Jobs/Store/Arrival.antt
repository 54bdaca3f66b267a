-- ===== src/Jobs/Store/Arrival.antt =====
-- A Patch Set's arrival (`enqueue` of src/pe_review_agent/jobs/store.py) keeps the table valid: of
-- the Patch Sets of a Change, only the newest stays reviewable.
use pe_review_agent.Domain.{superseded}
use pe_review_agent.Jobs.Rows.{Job}
use pe_review_agent.Jobs.Store.{is_newer, needs_publish_recovery}
use pe_review_agent.Jobs.Store.Enqueue.{is_older_live, may_supersede, supersede_older}
use pe_review_agent.Jobs.Store.Order.{
  IsOrdered, SameIdentity, Tamed, Tames, Yields, Yields-Tames, is_open, is_reviewable,
}
use pe_review_agent.Jobs.Store.Soundness.{IsSound}
use pe_review_agent.Prelude.{
  All, All-Elem, All-of_Elem, Elem, List, [], ap, arith, clash, false, if◌then◌else◌, inl, inr, map,
  none, refl, some, subst, subst₂, sym, true, update_where, ◌&&◌, ◌∙◌, ◌∷◌, ◌≡◌, ◌⊎◌,
}

-- What the two UPDATEs make of one row.
unfoldable pub supersede_one : Job → Job → Job
unfolding needs_publish_recovery may_supersede
supersede_one job o =
    let marked =
      if is_older_live job o && needs_publish_recovery o
      then record o { superseded_by_job_id = some job.id }
      else o in
    if is_older_live job marked && may_supersede marked
    then record marked {
      state = superseded;
      superseded_by_job_id = some job.id;
      lease_owner = none;
      lease_expires_at = none;
      retry_state = none;
    }
    else marked

supersede_one-Tames : (job o : Job) → Tames o (supersede_one job o)
unfolding supersede_one is_reviewable is_open
supersede_one-Tames job o = ground arith

supersede_one-IsSound : (job o : Job) → IsSound o → IsSound (supersede_one job o)
unfolding supersede_one
supersede_one-IsSound job o h = ground arith

-- An older row is not reviewable afterwards.
supersede_one-older :
    (job o : Job) → IsSound o → is_newer o job ≡ true → is_reviewable (supersede_one job o) ≡ false
unfolding supersede_one is_reviewable
supersede_one-older job o s h = let t = s.target in ground arith

supersede_older-rows :
    (job : Job) (rows : List Job) → supersede_older job rows ≡ map (supersede_one job) rows
unfolding supersede_older update_where supersede_one
supersede_older-rows job [] = refl
supersede_older-rows job (x ∷ xs) = ap (λ t. supersede_one job x ∷ t) (supersede_older-rows job xs)

Tamed-map : (job : Job) (rows : List Job) → Tamed rows (map (supersede_one job) rows)
Tamed-map job [] = tt
Tamed-map job (x ∷ xs) = (supersede_one-Tames job x, Tamed-map job xs)

IsSound-map :
    (job : Job) (rows : List Job) → All IsSound rows → All IsSound (map (supersede_one job) rows)
IsSound-map job [] h = tt
IsSound-map job (x ∷ xs) h = (supersede_one-IsSound job x h.0, IsSound-map job xs h.1)

Elem-map :
    (job : Job) (rows : List Job) {a : Job}
    → Elem a (map (supersede_one job) rows)
    → (x : Job) × Elem x rows × (a ≡ supersede_one job x)
Elem-map job [] m = absurd m
Elem-map job (x ∷ xs) (inl e) = (x, inl refl, e)
Elem-map job (x ∷ xs) (inr m) = let (y, n, e) = Elem-map job xs m in (y, inr n, e)

pub supersede_older-Tamed : (job : Job) (rows : List Job) → Tamed rows (supersede_older job rows)
supersede_older-Tamed job rows = rw supersede_older-rows (Tamed-map job rows)

pub supersede_older-IsSound :
    (job : Job) (rows : List Job) → All IsSound rows → All IsSound (supersede_older job rows)
supersede_older-IsSound job rows h = rw supersede_older-rows (IsSound-map job rows h)

IsOrdered-of_Elem :
    (rows : List Job) → ((a b : Job) → Elem a rows → Elem b rows → Yields a b) → IsOrdered rows
IsOrdered-of_Elem rows f =
    All-of_Elem (λ a. All (Yields a) rows) rows
      (λ a m. All-of_Elem (Yields a) rows (λ b n. f a b m n))

Yields-of_IsOrdered :
    (rows : List Job) (a b : Job) → IsOrdered rows → Elem a rows → Elem b rows → Yields a b
Yields-of_IsOrdered rows a b o m n =
    All-Elem (Yields a) rows (All-Elem (λ x. All (Yields x) rows) rows o m) n

is_newer-SameIdentity :
    (x x' y y' : Job) → SameIdentity x x' → SameIdentity y y' → is_newer x' y' ≡ is_newer x y
is_newer-SameIdentity x x' y y' s t =
    rw (
      s.same_project, s.same_number, s.same_patchset, t.same_project, t.same_number,
      t.same_patchset,
    )

-- A table `rows` that has, beside the rows of an ordered one, the job that arrived.
module _ (old rows : List Job) (job : Job)
    (extends : (a : Job) → Elem a rows → Elem a old ⊎ (a ≡ job)) (ordered : IsOrdered old) where
  settled_pair :
      (x y : Job)
      → Elem x rows
      → Elem y rows
      → All IsSound rows
      → All (λ z. is_newer job z ≡ false) rows
      → Yields (supersede_one job x) (supersede_one job y)
  settled_pair x y m n sound h newer rev =
      let t = supersede_one-Tames job x in
      let u = supersede_one-Tames job y in
      let newer' : is_newer x y ≡ true =
        sym (
          is_newer-SameIdentity x (supersede_one job x) y (supersede_one job y) t.identity
            u.identity)
        ∙ newer in
      elim (extends x m) [
        | inr e ↦
            let never : is_newer x y ≡ false =
              subst (λ z. is_newer z y ≡ false) (sym e)
                (All-Elem (λ z. is_newer job z ≡ false) rows h n) in
            clash newer' never
        | inl mx ↦ elim (extends y n) [
          | inr e ↦
              let gone : is_reviewable (supersede_one job x) ≡ false =
                supersede_one-older job x (All-Elem IsSound rows sound m)
                  (subst (λ z. is_newer x z ≡ true) e newer') in
              clash rev gone
          | inl my ↦
              Yields-Tames x (supersede_one job x) y (supersede_one job y) t u
                (Yields-of_IsOrdered old x y ordered mx my) newer rev
        ]
      ]

  -- No newer Patch Set is known: the older ones are superseded.
  pub IsOrdered-settled :
      All IsSound rows
      → All (λ z. is_newer job z ≡ false) rows
      → IsOrdered (supersede_older job rows)
  IsOrdered-settled sound h = rw supersede_older-rows (
      IsOrdered-of_Elem (map (supersede_one job) rows) (λ a b m n.
        let (x, mx, ea) = Elem-map job rows m in
        let (y, my, eb) = Elem-map job rows n in
        subst₂ Yields (sym ea) (sym eb) (settled_pair x y mx my sound h)))

  -- The job is out of the way itself: neither reviewable nor open.
  pub IsOrdered-aside : is_reviewable job ≡ false → is_open job ≡ false → IsOrdered rows
  IsOrdered-aside r o = IsOrdered-of_Elem rows (λ a b m n newer rev. elim (extends a m) [
    | inr e ↦ clash rev (subst (λ z. is_reviewable z ≡ false) (sym e) r)
    | inl ma ↦ elim (extends b n) [
      | inr e ↦ subst (λ z. is_open z ≡ false) (sym e) o
      | inl mb ↦ Yields-of_IsOrdered old a b ordered ma mb newer rev
    ]
  ])
