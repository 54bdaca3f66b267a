-- ===== src/Jobs/Store/Keys.antt =====
-- The keys of review_jobs (src/pe_review_agent/jobs/models.py): the primary key and the unique key
-- `uq_review_jobs_identity`.
use pe_review_agent.Jobs.Rows.{Job}
use pe_review_agent.Jobs.Store.Order.{Related, SameIdentity}
use pe_review_agent.Prelude.{
  ==_refl, All, All-Elem, All-append, Bool, Bool-cases, Elem, List, [], arith, false, find?, inl,
  inr, replace_first, some, subst, sym, ℕ, ◌&&◌, ◌++◌, ◌<◌, ◌==◌, ◌∙◌, ◌∷◌, ◌≡◌, ◌⊎◌,
}

abbrev pub id_eq : Job → Job → Bool
id_eq a b = a.id == b.id

abbrev pub key_eq : Job → Job → Bool
key_eq a b =
    a.project == b.project
    && a.change_number == b.change_number
    && a.revision_sha == b.revision_sha
    && a.review_policy_version == b.review_policy_version

module _ (k : Job → Job → Bool) where
  -- No two rows share the key.
  abbrev pub IsUnique : List Job → Type 0
  IsUnique [] = Unit
  IsUnique (x ∷ xs) = All (λ y. k y x ≡ false) xs × IsUnique xs

  IsUnique-append :
      (xs : List Job) (y : Job)
      → All (λ x. k y x ≡ false) xs
      → IsUnique xs
      → IsUnique (xs ++ y ∷ [])
  IsUnique-append [] y h u = (tt, tt)
  IsUnique-append (x ∷ xs) y h u =
      (All-append (λ z. k z x ≡ false) xs (y ∷ []) u.0 (h.0, tt), IsUnique-append xs y h.1 u.1)

pub IsUnique-snoc :
    (k : Job → Job → Bool) (xs : List Job) (y : Job)
    → All (λ x. k y x ≡ false) xs
    → IsUnique k xs
    → IsUnique k (xs ++ y ∷ [])
IsUnique-snoc k xs y h u = IsUnique-append k xs y h u

module _ (k : Job → Job → Bool)
    (keeps : (a a' b b' : Job) → SameIdentity a a' → SameIdentity b b' → k a' b' ≡ k a b) where
  apart-Related :
      (x x' : Job) (xs ys : List Job)
      → SameIdentity x x'
      → Related SameIdentity xs ys
      → All (λ y. k y x ≡ false) xs
      → All (λ y. k y x' ≡ false) ys
  apart-Related x x' [] [] s t h = tt
  apart-Related x x' [] (y ∷ ys) s t h = absurd t
  apart-Related x x' (z ∷ xs) [] s t h = absurd t
  apart-Related x x' (z ∷ xs) (y ∷ ys) s t h =
      (keeps z y x x' t.0 s ∙ h.0, apart-Related x x' xs ys s t.1 h.1)

  pub IsUnique-Related :
      (xs ys : List Job) → Related SameIdentity xs ys → IsUnique k xs → IsUnique k ys
  IsUnique-Related [] [] t u = tt
  IsUnique-Related [] (y ∷ ys) t u = absurd t
  IsUnique-Related (x ∷ xs) [] t u = absurd t
  IsUnique-Related (x ∷ xs) (y ∷ ys) t u =
      (apart-Related x y xs ys t.0 t.1 u.0, IsUnique-Related xs ys t.1 u.1)

pub id_eq-SameIdentity :
    (a a' b b' : Job) → SameIdentity a a' → SameIdentity b b' → id_eq a' b' ≡ id_eq a b
id_eq-SameIdentity a a' b b' s t = rw (s.same_id, t.same_id)

pub key_eq-SameIdentity :
    (a a' b b' : Job) → SameIdentity a a' → SameIdentity b b' → key_eq a' b' ≡ key_eq a b
key_eq-SameIdentity a a' b b' s t = rw (
  s.same_project, t.same_project, s.same_number, t.same_number, s.same_revision, t.same_revision,
  s.same_version, t.same_version,
)

-- The ids below the next one to be given out.
abbrev pub AreBelow : ℕ → List Job → Type 0
AreBelow n xs = All (λ x. x.id < n) xs

pub AreBelow-Related :
    (n : ℕ) (xs ys : List Job) → Related SameIdentity xs ys → AreBelow n xs → AreBelow n ys
AreBelow-Related n [] [] t h = tt
AreBelow-Related n [] (y ∷ ys) t h = absurd t
AreBelow-Related n (x ∷ xs) [] t h = absurd t
AreBelow-Related n (x ∷ xs) (y ∷ ys) t h =
    (subst (λ i. i < n) (sym t.0.same_id) h.0, AreBelow-Related n xs ys t.1 h.1)

-- A row is found by its id.
pub find?-id :
    (xs : List Job) (a : Job)
    → IsUnique id_eq xs
    → Elem a xs
    → find? (λ j. j.id == a.id) xs ≡ some a
unfolding find?
find?-id [] a u m = absurd m
find?-id (x ∷ xs) a u (inl e) = rw (e, ==_refl x.id)
find?-id (x ∷ xs) a u (inr m) =
    let far : (a.id == x.id) ≡ false = All-Elem (λ y. id_eq y x ≡ false) xs u.0 m in
    let flip : (x.id == a.id) ≡ false = ground arith in rw flip (find?-id xs a u.1 m)

-- A row of the table after the row with an id was replaced: the new one, or one with another id.
pub Elem-replaced :
    (xs : List Job) (y a : Job)
    → IsUnique id_eq xs
    → Elem a (replace_first (λ k. k.id == y.id) y xs)
    → (a ≡ y) ⊎ (Elem a xs × ((a.id == y.id) ≡ false))
unfolding replace_first
Elem-replaced [] y a u m = absurd m
Elem-replaced (x ∷ xs) y a u m = elim (Bool-cases (x.id == y.id)) [
  | inl t ↦ elim (replaced_head x y xs a (rw t at m)) [
    | inl e ↦ inl e
    | inr n ↦
        let far : (a.id == x.id) ≡ false = All-Elem (λ z. id_eq z x ≡ false) xs u.0 n in
        inr (inr n, ground arith)
  ]
  | inr f ↦ elim (replaced_tail x y xs a (rw f at m)) [
    | inl e ↦ inr (inl e, subst (λ (z : Job). (z.id == y.id) ≡ false) (sym e) f)
    | inr n ↦ elim (Elem-replaced xs y a u.1 n) [ inl e ↦ inl e | inr r ↦ inr (inr r.0, r.1) ]
  ]
]
  where
    replaced_head : (x y : Job) (xs : List Job) (a : Job) → Elem a (y ∷ xs) → (a ≡ y) ⊎ Elem a xs
    replaced_head x y xs a m = m

    replaced_tail :
        (x y : Job) (xs : List Job) (a : Job)
        → Elem a (x ∷ replace_first (λ k. k.id == y.id) y xs)
        → (a ≡ x) ⊎ Elem a (replace_first (λ k. k.id == y.id) y xs)
    replaced_tail x y xs a m = m
