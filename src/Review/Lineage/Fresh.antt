-- ===== src/Review/Lineage/Fresh.antt =====
-- src/pe_review_agent/review/lineage.py: what is published inline was not found on the Patch Set
-- before, and what counts as resolved is not found any more.
use pe_review_agent.Domain.{FindingLineage, Name, persisting, reopened}
use pe_review_agent.Prelude.{
  All, All-append, Bool, Bool-cases, List, [], any, arith, clash, false, if_intro, inl, inr, refl,
  replace_first, subst, sym, true, ◌++◌, ◌==◌, ◌||◌, ◌∙◌, ◌∷◌, ◌≡◌, ◌⊎◌,
}
use pe_review_agent.Review.Lineage.{
  Finding, FindingHistory, LineageReconciliation, assign, classify, findings_for_inline_publication,
  has_id, is_persisting, previous_by_id, reconcile_finding_lineage, trace, traced, unseen, untraced,
}

any-append : (p : Finding → Bool) (xs ys : List Finding) → any p (xs ++ ys) ≡ (any p xs || any p ys)
unfolding any
any-append p [] ys = refl
any-append p (x ∷ xs) ys = elim (Bool-cases (p x)) [
  | inl t ↦ rw t refl
  | inr f ↦ rw f (any-append p xs ys)
]

any-replaced :
    (n : Name) (f : Finding) (xs : List Finding)
    → any (has_id n) (replace_first (has_id f.semantic_id) f xs) ≡ any (has_id n) xs
unfolding any replace_first
any-replaced n f [] = refl
any-replaced n f (x ∷ xs) = elim (Bool-cases (x.semantic_id == f.semantic_id)) [
  | inl t ↦ let e : x.semantic_id ≡ f.semantic_id = ground arith in rw (t, e) refl
  | inr g ↦ rw (g, any-replaced n f xs) refl
]

any-assign :
    (n : Name) (f : Finding) (acc : List Finding)
    → any (has_id n) acc ≡ true ⊎ has_id n f ≡ true
    → any (has_id n) (assign f acc) ≡ true
unfolding assign any
any-assign n f acc h = elim (Bool-cases (any (has_id f.semantic_id) acc)) [
  | inl t ↦ rw t (any-replaced n f acc ∙ known n f acc t h)
  | inr g ↦ rw (g, any-append (has_id n) acc (f ∷ [])) (either n f acc h)
]
  where
    known :
        (n : Name) (f : Finding) (acc : List Finding)
        → any (has_id f.semantic_id) acc ≡ true
        → any (has_id n) acc ≡ true ⊎ has_id n f ≡ true
        → any (has_id n) acc ≡ true
    known n f acc t (inl a) = a
    known n f acc t (inr b) = let e : f.semantic_id ≡ n = ground arith in rw (sym e) t

    either :
        (n : Name) (f : Finding) (acc : List Finding)
        → any (has_id n) acc ≡ true ⊎ has_id n f ≡ true
        → (any (has_id n) acc || any (has_id n) (f ∷ [])) ≡ true
    either n f acc (inl a) = ground arith
    either n f acc (inr b) = ground arith

-- Every previous finding is in the dict.
any-previous_by_id :
    (n : Name) (acc fs : List Finding)
    → any (has_id n) acc ≡ true ⊎ any (has_id n) fs ≡ true
    → any (has_id n) (previous_by_id acc fs) ≡ true
unfolding previous_by_id any
any-previous_by_id n acc [] (inl a) = a
any-previous_by_id n acc [] (inr b) = cc
any-previous_by_id n acc (f ∷ fs) (inl a) =
    any-previous_by_id n (assign f acc) fs (inl (any-assign n f acc (inl a)))
any-previous_by_id n acc (f ∷ fs) (inr b) = elim (Bool-cases (has_id n f)) [
  | inl t ↦ any-previous_by_id n (assign f acc) fs (inl (any-assign n f acc (inr t)))
  | inr g ↦ any-previous_by_id n (assign f acc) fs (inr (rw g at b))
]

-- A finding is published inline only with an id that the dict has not.
abbrev Honest : List Finding → Finding → Type 0
Honest previous f = is_persisting f ≡ false → any (has_id f.semantic_id) previous ≡ false

classify-Honest :
    (previous : List Finding) (seen : List Name) (f : Finding)
    → Honest previous (record f { lineage = classify previous seen f.semantic_id })
unfolding classify
classify-Honest previous seen f h = elim (Bool-cases (any (has_id f.semantic_id) previous)) [
  | inl t ↦ cc (rw t at h)
  | inr g ↦ g
]

traced-findings :
    (l : FindingLineage) (acc : LineageReconciliation) (f : Finding)
    → (traced l acc f).findings ≡ acc.findings ++ record f { lineage = l } ∷ []
traced-findings FindingLineage.new acc f = refl
traced-findings persisting acc f = refl
traced-findings reopened acc f = refl

trace-Honest :
    (previous : List Finding) (seen : List Name) (acc : LineageReconciliation) (fs : List Finding)
    → All (Honest previous) acc.findings
    → All (Honest previous) (trace previous seen acc fs).findings
unfolding trace
trace-Honest previous seen acc [] h = h
trace-Honest previous seen acc (f ∷ fs) h =
    let l = classify previous seen f.semantic_id in
    trace-Honest previous seen (traced l acc f) fs (
      subst (All (Honest previous)) (sym (traced-findings l acc f)) (
        All-append (Honest previous) acc.findings (record f { lineage = l } ∷ []) h
          (classify-Honest previous seen f, tt)))

inline-Honest :
    (old previous fs : List Finding)
    → ((n : Name) → any (has_id n) old ≡ true → any (has_id n) previous ≡ true)
    → All (Honest previous) fs
    → All (λ f. any (has_id f.semantic_id) old ≡ false) (findings_for_inline_publication fs)
unfolding findings_for_inline_publication
inline-Honest old previous [] sub h = tt
inline-Honest old previous (f ∷ fs) sub h = elim (Bool-cases (is_persisting f)) [
  | inl t ↦ rw t (inline-Honest old previous fs sub h.1)
  | inr g ↦ rw g (
    elim (Bool-cases (any (has_id f.semantic_id) old)) [
      | inl t ↦ clash (sub f.semantic_id t) (h.0 g)
      | inr n ↦ n
    ],
    inline-Honest old previous fs sub h.1,
  )
]

unseen_gone :
    (findings ps : List Finding)
    → All (λ p. any (has_id p.semantic_id) findings ≡ false) (unseen findings ps)
unfolding unseen
unseen_gone findings [] = tt
unseen_gone findings (p ∷ ps) = elim (Bool-cases (any (has_id p.semantic_id) findings)) [
  | inl t ↦ rw t (unseen_gone findings ps)
  | inr g ↦ rw g (g, unseen_gone findings ps)
]

-- No finding published inline has the id of a finding of the previous Patch Set, and no finding
-- reported as resolved has the id of one that the review reports.
pub reconcile_finding_lineage_fresh :
    (findings : List Finding) (history : FindingHistory) (complete : Bool)
    → All
        (λ f. any (has_id f.semantic_id) history.previous_findings ≡ false)
        (findings_for_inline_publication
          (reconcile_finding_lineage findings history complete).findings)
      × All
          (λ p. any (has_id p.semantic_id) findings ≡ false)
          (reconcile_finding_lineage findings history complete).resolved_findings
unfolding reconcile_finding_lineage
reconcile_finding_lineage_fresh findings history complete =
    let previous = previous_by_id [] history.previous_findings in
    (
      inline-Honest history.previous_findings previous
          (trace previous history.seen_semantic_ids untraced findings).findings
          (λ n t. any-previous_by_id n [] history.previous_findings (inr t))
          (trace-Honest previous history.seen_semantic_ids untraced findings tt),
      if_intro (All (λ p. any (has_id p.semantic_id) findings ≡ false)) complete
          (unseen findings previous) [] (λ t. unseen_gone findings previous) (λ t. tt),
    )
