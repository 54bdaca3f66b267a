-- ===== src/Review/Lineage/Partition.antt =====
-- src/pe_review_agent/review/lineage.py: the counts of a reconciliation agree with its findings, and
-- what is published inline was not known before.
use pe_review_agent.Domain.{FindingLineage, Name, persisting, reopened}
use pe_review_agent.Prelude.{
  Bool, Bool-cases, List, [], arith, if◌then◌else◌, inl, inr, length, refl, suc, ℕ, ◌++◌, ◌+◌, ◌∷◌,
  ◌≡◌,
}
use pe_review_agent.Review.Lineage.{
  Finding, FindingHistory, LineageReconciliation, classify, findings_for_inline_publication,
  is_persisting, previous_by_id, reconcile_finding_lineage, trace, traced, untraced,
}

-- How many findings the counts stand for.
abbrev pub counted_findings : LineageReconciliation → ℕ
counted_findings r = r.new_count + r.persisting_count + r.reopened_count

inline_snoc :
    (fs : List Finding) (f : Finding)
    → length (findings_for_inline_publication (fs ++ f ∷ []))
      ≡ length (findings_for_inline_publication fs) + (if is_persisting f then 0 else 1)
unfolding findings_for_inline_publication
inline_snoc [] f = elim (Bool-cases (is_persisting f)) [ inl t ↦ rw t refl | inr n ↦ rw n refl ]
inline_snoc (x ∷ fs) f =
    let e = inline_snoc fs f in
    elim (Bool-cases (is_persisting x)) [ inl t ↦ rw t e | inr n ↦ rw n (omega arith) ]

-- The accumulator of the loop: what would be published inline is what is new or reopened.
abbrev Balanced : LineageReconciliation → Type 0
Balanced r = length (findings_for_inline_publication r.findings) ≡ r.new_count + r.reopened_count

step-Balanced :
    (acc : LineageReconciliation) (f : Finding) (l : FindingLineage)
    → Balanced acc
    → Balanced (traced l acc f)
unfolding findings_for_inline_publication
step-Balanced acc f FindingLineage.new h =
    let e = inline_snoc acc.findings (record f { lineage = FindingLineage.new }) in omega arith
step-Balanced acc f persisting h =
    let e = inline_snoc acc.findings (record f { lineage = persisting }) in omega arith
step-Balanced acc f reopened h =
    let e = inline_snoc acc.findings (record f { lineage = reopened }) in omega arith

step_counted :
    (acc : LineageReconciliation) (f : Finding) (l : FindingLineage)
    → counted_findings (traced l acc f) ≡ suc (counted_findings acc)
step_counted acc f FindingLineage.new = omega arith
step_counted acc f persisting = omega arith
step_counted acc f reopened = omega arith

module _ (previous : List Finding) (seen : List Name) where
  trace-Balanced :
      (acc : LineageReconciliation) (fs : List Finding)
      → Balanced acc
      → Balanced (trace previous seen acc fs)
  unfolding trace
  trace-Balanced acc [] h = h
  trace-Balanced acc (f ∷ fs) h =
      let l = classify previous seen f.semantic_id in
      trace-Balanced (traced l acc f) fs (step-Balanced acc f l h)

  trace_counted :
      (acc : LineageReconciliation) (fs : List Finding)
      → counted_findings (trace previous seen acc fs) ≡ counted_findings acc + length fs
  unfolding trace
  trace_counted acc [] = omega arith
  trace_counted acc (f ∷ fs) =
      let l = classify previous seen f.semantic_id in
      let e = step_counted acc f l in let r = trace_counted (traced l acc f) fs in omega arith

-- Every finding of the review is counted once, as new, persisting or reopened, and the findings
-- published inline are as many as those counted new or reopened.
pub reconcile_finding_lineage_counts :
    (findings : List Finding) (history : FindingHistory) (complete : Bool)
    → (counted_findings (reconcile_finding_lineage findings history complete) ≡ length findings)
      × (length (
            findings_for_inline_publication
              (reconcile_finding_lineage findings history complete).findings)
          ≡ (reconcile_finding_lineage findings history complete).new_count
            + (reconcile_finding_lineage findings history complete).reopened_count)
unfolding reconcile_finding_lineage findings_for_inline_publication
reconcile_finding_lineage_counts findings history complete =
    let previous = previous_by_id [] history.previous_findings in
    let e = trace_counted previous history.seen_semantic_ids untraced findings in
    (omega arith, trace-Balanced previous history.seen_semantic_ids untraced findings refl)
