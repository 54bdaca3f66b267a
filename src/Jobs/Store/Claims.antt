-- ===== src/Jobs/Store/Claims.antt =====
-- src/pe_review_agent/jobs/store.py: which job `claim_next` selects.
use pe_review_agent.Jobs.Rows.{Job}
use pe_review_agent.Jobs.Store.Leases.{due_before, earliest, sooner_of}
use pe_review_agent.Prelude.{
  All, All-Elem, Bool, Elem, List, Option, Option-cases, [], arith, clash, false, if◌then◌else◌,
  inl, inr, none, none_ne, some, subst, sym, true, ◌∷◌, ◌≡◌, ◌⊎◌,
}

earliest-cons :
    (p : Job → Bool) (x y : Job) (xs : List Job) (best : Option Job)
    → (if p x then some (sooner_of x best) else best) ≡ some y
    → ((p x ≡ true) × (y ≡ x)) ⊎ (best ≡ some y)
earliest-cons p x y xs none h = ground arith
earliest-cons p x y xs (some b) h = ground arith

-- The row selected is one of the table and passes the test.
pub earliest_passes :
    (p : Job → Bool) (xs : List Job) (y : Job) → earliest p xs ≡ some y → (p y ≡ true) × Elem y xs
unfolding earliest
earliest_passes p [] y h = none_ne h
earliest_passes p (x ∷ xs) y h = elim (earliest-cons p x y xs (earliest p xs) h) [
  | inl a ↦ (subst (λ z. p z ≡ true) (sym a.1) a.0, inl a.1)
  | inr e ↦ let (t, m) = earliest_passes p xs y e in (t, inr m)
]

one_passes :
    (p : Job → Bool) (x : Job) (best : Option Job)
    → (if p x then some (sooner_of x best) else best) ≡ none
    → (p x ≡ false) × (best ≡ none)
one_passes p x none h = ground arith
one_passes p x (some b) h = ground arith

earliest-none : (p : Job → Bool) (xs : List Job) → earliest p xs ≡ none → All (λ x. p x ≡ false) xs
unfolding earliest
earliest-none p [] h = tt
earliest-none p (x ∷ xs) h =
    let (n, e) = one_passes p x (earliest p xs) h in (n, earliest-none p xs e)

head_first :
    (p : Job → Bool) (x y : Job) (best : Option Job)
    → p x ≡ true
    → (if p x then some (sooner_of x best) else best) ≡ some y
    → due_before x y ≡ false
head_first p x y none t h = ground arith
head_first p x y (some b) t h = ground arith

tail_first :
    (p : Job → Bool) (x y z b : Job)
    → due_before z b ≡ false
    → (if p x then some (sooner_of x (some b)) else some b) ≡ some y
    → due_before z y ≡ false
tail_first p x y z b f h = ground arith

-- No row that passes the test is due before the one selected.
pub earliest_first :
    (p : Job → Bool) (xs : List Job) (y z : Job)
    → earliest p xs ≡ some y
    → Elem z xs
    → p z ≡ true
    → due_before z y ≡ false
unfolding earliest
earliest_first p [] y z h m t = absurd m
earliest_first p (x ∷ xs) y z h (inl e) t =
    subst (λ w. due_before w y ≡ false) (sym e)
      (head_first p x y (earliest p xs) (subst (λ w. p w ≡ true) e t) h)
earliest_first p (x ∷ xs) y z h (inr m) t = elim (Option-cases (earliest p xs)) [
  | inl n ↦ clash t (All-Elem (λ w. p w ≡ false) xs (earliest-none p xs n) m)
  | inr (b, e) ↦ tail_first p x y z b (earliest_first p xs b z e m t) (rw e at h)
]
