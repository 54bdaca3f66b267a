-- ===== src/Review/Lineage.antt =====
-- src/pe_review_agent/review/lineage.py: the findings of a Patch Set against those of the Patch Sets
-- before it. A semantic id is a name; the summary text is left out.
pub mod Partition
pub mod Fresh
use pe_review_agent.Domain.{FindingLineage, Name, persisting, reopened}
use pe_review_agent.Prelude.{
  Bool, List, Option, [], any, if◌then◌else◌, replace_first, ℕ, ◌++◌, ◌+◌, ◌==◌, ◌∷◌,
}

pub record Finding : Type 0 where
  pub semantic_id : Name
  pub lineage : FindingLineage

pub record FindingHistory : Type 0 where
  pub baseline_patchset : Option ℕ
  pub previous_findings : List Finding
  pub seen_semantic_ids : List Name

pub record LineageReconciliation : Type 0 where
  pub findings : List Finding
  pub resolved_findings : List Finding
  pub new_count : ℕ
  pub persisting_count : ℕ
  pub reopened_count : ℕ

abbrev pub has_id : Name → Finding → Bool
has_id n f = f.semantic_id == n

-- `previous_by_id[finding.semantic_id] = finding`
unfoldable pub assign : Finding → List Finding → List Finding
assign f acc =
    if any (has_id f.semantic_id) acc
    then replace_first (has_id f.semantic_id) f acc
    else acc ++ f ∷ []

-- The dict `previous_by_id`, by insertion order of its keys.
unfoldable pub previous_by_id : List Finding → List Finding → List Finding
unfolding assign
previous_by_id acc [] = acc
previous_by_id acc (f ∷ fs) = previous_by_id (assign f acc) fs

-- The lineage of one finding.
unfoldable pub classify : List Finding → List Name → Name → FindingLineage
classify previous seen n =
    if any (has_id n) previous
    then persisting
    else if any (λ m. m == n) seen
    then reopened
    else FindingLineage.new

abbrev pub count : FindingLineage → LineageReconciliation → LineageReconciliation
count FindingLineage.new acc = record acc { new_count = acc.new_count + 1 }
count persisting acc = record acc { persisting_count = acc.persisting_count + 1 }
count reopened acc = record acc { reopened_count = acc.reopened_count + 1 }

-- One turn of the loop: the finding gets its lineage, and is counted.
abbrev pub traced : FindingLineage → LineageReconciliation → Finding → LineageReconciliation
traced l acc f = count l (record acc { findings = acc.findings ++ record f { lineage = l } ∷ [] })

-- The loop over the findings of the review.
unfoldable pub trace :
    List Finding → List Name → LineageReconciliation → List Finding → LineageReconciliation
unfolding classify
trace previous seen acc [] = acc
trace previous seen acc (f ∷ fs) =
    trace previous seen (traced (classify previous seen f.semantic_id) acc f) fs

abbrev pub untraced : LineageReconciliation
untraced = record {
  findings = [];
  resolved_findings = [];
  new_count = 0;
  persisting_count = 0;
  reopened_count = 0;
}

-- The previous findings that the review does not repeat.
unfoldable pub unseen : List Finding → List Finding → List Finding
unseen findings [] = []
unseen findings (p ∷ ps) =
    let rest = unseen findings ps in if any (has_id p.semantic_id) findings then rest else p ∷ rest

-- `reconcile_finding_lineage`
unfoldable pub reconcile_finding_lineage :
    List Finding → FindingHistory → Bool → LineageReconciliation
unfolding previous_by_id trace unseen
reconcile_finding_lineage findings history complete =
    let previous = previous_by_id [] history.previous_findings in
    let result = trace previous history.seen_semantic_ids untraced findings in
    record result { resolved_findings = if complete then unseen findings previous else [] }

abbrev lineage_index : FindingLineage → ℕ
lineage_index FindingLineage.new = 0
lineage_index persisting = 1
lineage_index reopened = 2

abbrev pub is_persisting : Finding → Bool
is_persisting f = lineage_index f.lineage == 1

-- `findings_for_inline_publication`
unfoldable pub findings_for_inline_publication : List Finding → List Finding
findings_for_inline_publication [] = []
findings_for_inline_publication (f ∷ fs) =
    let rest = findings_for_inline_publication fs in if is_persisting f then rest else f ∷ rest
