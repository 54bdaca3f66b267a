-- ===== src/Jobs/Store/Order.antt =====
-- The order among the Patch Sets of a Change, over the table of
-- src/pe_review_agent/jobs/store.py: rows are keyed, and each change of a row is tame.
use pe_review_agent.Domain.{done, is_terminal_state, skipped_scope, state_eq, superseded}
use pe_review_agent.Jobs.Rows.{Job}
use pe_review_agent.Jobs.Store.{is_newer, needs_publish_recovery}
use pe_review_agent.Prelude.{
  All, Bool, Bool-cases, List, [], arith, false, find?, inl, inr, none_ne, not, refl, replace_first,
  some, some_inj, subst, sym, true, update_where, ◌&&◌, ◌||◌, ◌∷◌, ◌≡◌,
}

-- A job whose review may still run and be posted: live, and not merely waiting to learn whether an
-- earlier post reached Gerrit.
unfoldable pub is_reviewable : Job → Bool
unfolding needs_publish_recovery
is_reviewable job = not (is_terminal_state job.state) && not (needs_publish_recovery job)

-- A job that is not out of scope, superseded or done.
unfoldable pub is_open : Job → Bool
is_open job =
    not
      (state_eq job.state skipped_scope || state_eq job.state superseded || state_eq job.state done)

-- The columns that identify a job.
pub record SameIdentity (a b : Job) : Type 0 where
  pub same_id : b.id ≡ a.id
  pub same_project : b.project ≡ a.project
  pub same_number : b.change_number ≡ a.change_number
  pub same_patchset : b.patchset_number ≡ a.patchset_number
  pub same_revision : b.revision_sha ≡ a.revision_sha
  pub same_version : b.review_policy_version ≡ a.review_policy_version

-- What a change of one row may do.
pub record Tames (a b : Job) : Type 0 where
  pub identity : SameIdentity a b
  pub open identity use *
  pub reviewable : is_reviewable b ≡ true → is_reviewable a ≡ true
  pub open_before : is_open b ≡ true → is_open a ≡ true

-- Two tables, row by row.
abbrev pub Related : (Job → Job → Type 0) → List Job → List Job → Type 0
Related R [] [] = Unit
Related R (x ∷ xs) (y ∷ ys) = R x y × Related R xs ys
Related R _ _ = ⊥

abbrev pub Tamed : List Job → List Job → Type 0
Tamed xs ys = Related Tames xs ys

pub Tames-refl : (a : Job) → Tames a a
Tames-refl a = record {
  identity = record {
    same_id = refl;
    same_project = refl;
    same_number = refl;
    same_patchset = refl;
    same_revision = refl;
    same_version = refl;
  };
  reviewable = λ h. h;
  open_before = λ h. h;
}

pub Related-Tamed : (xs ys : List Job) → Tamed xs ys → Related SameIdentity xs ys
Related-Tamed [] [] t = tt
Related-Tamed [] (y ∷ ys) t = absurd t
Related-Tamed (x ∷ xs) [] t = absurd t
Related-Tamed (x ∷ xs) (y ∷ ys) t = (t.0.identity, Related-Tamed xs ys t.1)

module _ (R : Job → Job → Type 0) (R-refl : (a : Job) → R a a) where
  pub Related-refl : (xs : List Job) → Related R xs xs
  Related-refl [] = tt
  Related-refl (x ∷ xs) = (R-refl x, Related-refl xs)

  pub Related-replace_first :
      (p : Job → Bool) (y : Job) (xs : List Job) {x : Job}
      → find? p xs ≡ some x
      → R x y
      → Related R xs (replace_first p y xs)
  unfolding find? replace_first
  Related-replace_first p y [] e t = none_ne e
  Related-replace_first p y (z ∷ xs) e t = elim (Bool-cases (p z)) [
    | inl yes_z ↦ rw yes_z (subst (λ w. R w y) (sym (some_inj (rw yes_z at e))) t, Related-refl xs)
    | inr no_z ↦ rw no_z (R-refl z, Related-replace_first p y xs (rw no_z at e) t)
  ]

  pub Related-update_where :
      (p : Job → Bool) (f : Job → Job) (xs : List Job)
      → ((x : Job) → p x ≡ true → R x (f x))
      → Related R xs (update_where p f xs)
  unfolding update_where
  Related-update_where p f [] keep = tt
  Related-update_where p f (x ∷ xs) keep = elim (Bool-cases (p x)) [
    | inl t ↦ rw t (keep x t, Related-update_where p f xs keep)
    | inr n ↦ rw n (R-refl x, Related-update_where p f xs keep)
  ]

pub SameIdentity-refl : (a : Job) → SameIdentity a a
SameIdentity-refl a = (Tames-refl a).identity

-- A newer Patch Set is not open beside an older reviewable one.
abbrev pub Yields : Job → Job → Type 0
Yields a b = is_newer a b ≡ true → is_reviewable a ≡ true → is_open b ≡ false

abbrev pub IsOrdered : List Job → Type 0
IsOrdered xs = All (λ a. All (Yields a) xs) xs

pub Yields-Tames : (a a' b b' : Job) → Tames a a' → Tames b b' → Yields a b → Yields a' b'
Yields-Tames a a' b b' s t y = ground (arith)

All-Yields-Tamed :
    (a a' : Job) (xs ys : List Job)
    → Tames a a'
    → Tamed xs ys
    → All (Yields a) xs
    → All (Yields a') ys
All-Yields-Tamed a a' [] [] s t h = tt
All-Yields-Tamed a a' [] (y ∷ ys) s t h = absurd t
All-Yields-Tamed a a' (x ∷ xs) [] s t h = absurd t
All-Yields-Tamed a a' (x ∷ xs) (y ∷ ys) s t h =
    (Yields-Tames a a' x y s t.0 h.0, All-Yields-Tamed a a' xs ys s t.1 h.1)

rows-Tamed :
    (xs ys all all' : List Job)
    → Tamed xs ys
    → Tamed all all'
    → All (λ a. All (Yields a) all) xs
    → All (λ a. All (Yields a) all') ys
rows-Tamed [] [] all all' s t h = tt
rows-Tamed [] (y ∷ ys) all all' s t h = absurd s
rows-Tamed (x ∷ xs) [] all all' s t h = absurd s
rows-Tamed (x ∷ xs) (y ∷ ys) all all' s t h =
    (All-Yields-Tamed x y all all' s.0 t h.0, rows-Tamed xs ys all all' s.1 t h.1)

pub IsOrdered-Tamed : (xs ys : List Job) → Tamed xs ys → IsOrdered xs → IsOrdered ys
IsOrdered-Tamed xs ys t h = rows-Tamed xs ys xs ys t t h
