-- ===== src/Tests/Validation.antt =====
-- The theorems on the validator, on concrete values.
use pe_review_agent.Domain.{Name, Severity, p0, p1, p2}
use pe_review_agent.Prelude.{
  All, Elem, List, [], any, false, inl, map, none, refl, some, true, ℕ, ◌∷◌, ◌≡◌,
}
use pe_review_agent.Review.Validation.{
  Candidate, FindingLocation, ReviewContext, Worktree, accept_from, anchor, anchor_on, anchor_start,
  anchored, changed_text, examine, file_anchor, insert_sorted, is_eligible, key_of, other_category,
  sort_findings, start_anchor, validate_all, with_location,
}
use pe_review_agent.Review.Validation.Accepted.{IsAccepted}
use pe_review_agent.Review.Validation.Sorting.{IsDistinct, IsSorted}
use pe_review_agent.Review.Validation.Validated.{
  validate_all-IsAccepted, validate_all-IsSorted, validate_all_complete,
}

abbrev place : ℕ → FindingLocation
place n = record {
  path = 1;
  is_parent_side = false;
  start_line = n;
  start_character = 0;
  end_line = none;
  end_character = none;
}

abbrev candidate_at : ℕ → Severity → ℕ → Candidate
candidate_at n severity_of fingerprint_at = record {
  location = place n;
  severity = severity_of;
  confidence = 900;
  category = other_category;
  semantic_id = none;
  fingerprint = some fingerprint_at;
}

abbrev changes : ReviewContext
changes = record {
  changed_files = 1 ∷ [];
  changed_lines = record { path = 1; is_parent_side = false; line = 4; text_length = 20 } ∷ [];
  previous_ids = [];
}

abbrev checkout : Worktree
checkout = record {
  is_inside = λ path. true;
  is_file = λ path. true;
  read_lines = λ path first last. some (λ line. some 20);
}

abbrev hashed : Candidate → Name
hashed f = f.location.start_line

abbrev reported : List Candidate
reported =
    candidate_at 4 p1 7 ∷ candidate_at 4 p0 8 ∷ candidate_at 9 p0 9 ∷ candidate_at 4 p2 7 ∷ []

abbrev validated_findings : List Candidate
validated_findings = validate_all 500 changes checkout hashed reported

-- The finding outside the change and the repeated fingerprint are gone, and P0 comes first.
validated_keys : map key_of validated_findings ≡ 8 ∷ 7 ∷ []
unfolding validate_all accept_from examine is_eligible anchor anchor_on file_anchor start_anchor
    anchored anchor_start with_location changed_text sort_findings insert_sorted any
validated_keys = refl

validate_all-IsAccepted_example :
    All (IsAccepted 500 changes checkout hashed reported) validated_findings
validate_all-IsAccepted_example = validate_all-IsAccepted 500 changes checkout hashed reported

validate_all-IsSorted_example : IsSorted validated_findings × IsDistinct validated_findings
validate_all-IsSorted_example = validate_all-IsSorted 500 changes checkout hashed reported

validate_all_complete_example : (h : Candidate) × Elem h validated_findings × (key_of h ≡ 7)
unfolding examine is_eligible anchor anchor_on file_anchor start_anchor anchored anchor_start
    with_location changed_text any
validate_all_complete_example =
    validate_all_complete 500 changes checkout hashed reported (candidate_at 4 p1 7)
      (candidate_at 4 p1 7) (inl refl) refl
