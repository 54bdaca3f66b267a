-- ===== src/Review/Validation/Sorting.antt =====
-- The sort of src/pe_review_agent/review/validator.py: in order, and of the findings that it was given.
use pe_review_agent.Prelude.{
  All, All-imp, Elem, List, [], arith, false, if_intro, inl, inr, sym, true, ◌∷◌, ◌≡◌, ◌≢◌,
}
use pe_review_agent.Review.Validation.{
  Candidate, comes_first, insert_sorted, severity_order, sort_findings,
}

-- No finding stands before one that the key puts first.
abbrev pub IsSorted : List Candidate → Type 0
IsSorted [] = Unit
IsSorted (a ∷ fs) = All (λ (b : Candidate). comes_first a b ≡ true) fs × IsSorted fs

abbrev pub Differs : Candidate → Candidate → Type 0
Differs a b = a.fingerprint ≢ b.fingerprint

abbrev pub IsDistinct : List Candidate → Type 0
IsDistinct [] = Unit
IsDistinct (a ∷ fs) = All (Differs a) fs × IsDistinct fs

All-insert_sorted :
    (P : Candidate → Type 0) (a : Candidate) (fs : List Candidate)
    → P a
    → All P fs
    → All P (insert_sorted a fs)
unfolding insert_sorted
All-insert_sorted P a [] pa h = (pa, tt)
All-insert_sorted P a (b ∷ bs) pa h =
    if_intro (All P) (comes_first a b) _ _ (λ _. (pa, h))
      (λ _. (h.0, All-insert_sorted P a bs pa h.1))

pub All-sort_findings :
    (P : Candidate → Type 0) (fs : List Candidate) → All P fs → All P (sort_findings fs)
unfolding sort_findings
All-sort_findings P [] h = tt
All-sort_findings P (a ∷ fs) h =
    All-insert_sorted P a (sort_findings fs) h.0 (All-sort_findings P fs h.1)

comes_first_trans :
    (a b c : Candidate) → comes_first a b ≡ true → comes_first b c ≡ true → comes_first a c ≡ true
comes_first_trans a b c h k =
    let x = severity_order a.severity in
    let y = severity_order b.severity in let z = severity_order c.severity in ground arith

comes_first_total : (a b : Candidate) → comes_first a b ≡ false → comes_first b a ≡ true
comes_first_total a b h =
    let x = severity_order a.severity in let y = severity_order b.severity in ground arith

insert_sorted-IsSorted :
    (a : Candidate) (fs : List Candidate) → IsSorted fs → IsSorted (insert_sorted a fs)
unfolding insert_sorted
insert_sorted-IsSorted a [] h = (tt, tt)
insert_sorted-IsSorted a (b ∷ bs) h =
    if_intro IsSorted (comes_first a b) _ _
      (λ t. (
        (
          t,
          All-imp (λ (c : Candidate). comes_first b c ≡ true)
              (λ (c : Candidate). comes_first a c ≡ true) bs (λ c k. comes_first_trans a b c t k)
              h.0,
        ),
        h,
      ))
      λ n. (
        All-insert_sorted (λ (c : Candidate). comes_first b c ≡ true) a bs (comes_first_total a b n)
            h.0,
        insert_sorted-IsSorted a bs h.1,
      )

pub sort_findings-IsSorted : (fs : List Candidate) → IsSorted (sort_findings fs)
unfolding sort_findings
sort_findings-IsSorted [] = tt
sort_findings-IsSorted (a ∷ fs) =
    insert_sorted-IsSorted a (sort_findings fs) (sort_findings-IsSorted fs)

insert_sorted-IsDistinct :
    (a : Candidate) (fs : List Candidate)
    → All (Differs a) fs
    → IsDistinct fs
    → IsDistinct (insert_sorted a fs)
unfolding insert_sorted
insert_sorted-IsDistinct a [] d h = (tt, tt)
insert_sorted-IsDistinct a (b ∷ bs) d h =
    if_intro IsDistinct (comes_first a b) _ _ (λ _. (d, h))
      λ _. (
        All-insert_sorted (Differs b) a bs (λ e. d.0 (sym e)) h.0,
        insert_sorted-IsDistinct a bs d.1 h.1,
      )

pub sort_findings-IsDistinct : (fs : List Candidate) → IsDistinct fs → IsDistinct (sort_findings fs)
unfolding sort_findings
sort_findings-IsDistinct [] h = tt
sort_findings-IsDistinct (a ∷ fs) h =
    insert_sorted-IsDistinct a (sort_findings fs) (All-sort_findings (Differs a) fs h.0)
      (sort_findings-IsDistinct fs h.1)

Elem-insert_sorted :
    (a : Candidate) (fs : List Candidate) {x : Candidate}
    → Elem x (a ∷ fs)
    → Elem x (insert_sorted a fs)
unfolding insert_sorted
Elem-insert_sorted a [] {x} m = m
Elem-insert_sorted a (b ∷ bs) {x} (inl e) =
    if_intro (Elem x) (comes_first a b) _ _ (λ _. inl e)
      (λ _. inr (Elem-insert_sorted a bs (inl e)))
Elem-insert_sorted a (b ∷ bs) {x} (inr (inl e)) =
    if_intro (Elem x) (comes_first a b) _ _ (λ _. inr (inl e)) (λ _. inl e)
Elem-insert_sorted a (b ∷ bs) {x} (inr (inr m)) =
    if_intro (Elem x) (comes_first a b) _ _ (λ _. inr (inr m))
      (λ _. inr (Elem-insert_sorted a bs (inr m)))

pub Elem-sort_findings :
    (fs : List Candidate) (x : Candidate) → Elem x fs → Elem x (sort_findings fs)
unfolding sort_findings
Elem-sort_findings [] x m = absurd m
Elem-sort_findings (a ∷ fs) x (inl e) = Elem-insert_sorted a (sort_findings fs) (inl e)
Elem-sort_findings (a ∷ fs) x (inr m) =
    Elem-insert_sorted a (sort_findings fs) (inr (Elem-sort_findings fs x m))
