-- ===== src/Review/Validation.antt =====
-- FindingValidator of src/pe_review_agent/review/validator.py: which findings of the model are kept, and
-- how their locations are held to the text. The worktree and the fingerprint are parameters; a line is
-- known by its length, a confidence is a number of thousandths, and a category is what it is after
-- `strip().lower()`.
pub mod Sorting
pub mod Anchored
pub mod Accepted
pub mod Validated
use pe_review_agent.Domain.{Name, Severity, p0, p1, p2}
use pe_review_agent.Jobs.Progress.{started}
use pe_review_agent.Prelude.{
  Bool, List, Option, [], any, false, if◌then◌else◌, is_none, leb, ltb, none, not, some, true, ℕ,
  ◌&&◌, ◌==◌, ◌||◌, ◌∷◌,
}

-- FindingLocation of src/pe_review_agent/domain.py.
pub record FindingLocation : Type 0 where
  pub path : Name
  pub is_parent_side : Bool
  pub start_line : ℕ
  pub start_character : ℕ
  pub end_line : Option ℕ
  pub end_character : Option ℕ

pub data Category : Type 0 where
  style naming documentation formatting other_category : Category

-- The fields of a Finding that the validator reads.
pub record Candidate : Type 0 where
  pub location : FindingLocation
  pub severity : Severity
  pub confidence : ℕ
  pub category : Category
  pub semantic_id : Option Name
  pub fingerprint : Option Name

pub record ChangedLine : Type 0 where
  pub path : Name
  pub is_parent_side : Bool
  pub line : ℕ
  pub text_length : ℕ

-- The fields of a ReviewContext that the validator reads; the previous findings by their ids.
pub record ReviewContext : Type 0 where
  pub changed_files : List Name
  pub changed_lines : List ChangedLine
  pub previous_ids : List Name

-- The worktree: whether a path stays inside its root, whether it is a file, and what `_read_utf8_lines`
-- gives for the first and the last line of a range, none where it cannot be read.
pub record Worktree : Type 0 where
  pub is_inside : Name → Bool
  pub is_file : Name → Bool
  pub read_lines : Name → ℕ → Option ℕ → Option (ℕ → Option ℕ)

abbrev pub same_side : Bool → Bool → Bool
same_side true b = b
same_side false b = not b

abbrev pub is_line : Name → Bool → ℕ → ChangedLine → Bool
is_line path side line x = x.path == path && (same_side x.is_parent_side side && x.line == line)

-- `changed_lines.get(…)`: of two lines with one key the later one counts.
unfoldable pub changed_text : Name → Bool → ℕ → List ChangedLine → Option ℕ
changed_text path side line [] = none
changed_text path side line (x ∷ xs) = elim (changed_text path side line xs) [
  | some n ↦ some n
  | none ↦ if is_line path side line x then some x.text_length else none
]

-- `_degrade_to_line_anchor`
abbrev pub degrade : FindingLocation → FindingLocation
degrade l = record l { start_character = 0; end_line = none; end_character = none }

-- The start of a range, against the length of its line.
unfoldable pub anchor_start : ℕ → FindingLocation → Option ℕ → FindingLocation
anchor_start n l none = record l { start_character = 0 }
anchor_start n l (some e) = if ltb n l.start_character then degrade l else l

abbrev pub anchor_last : ℕ → FindingLocation → Option ℕ → FindingLocation
anchor_last n l none = record l { end_character = some n }
anchor_last n l (some c) = if ltb n c then degrade l else l

-- The end of a range, against the length of its line, if there is such a line.
abbrev pub anchor_text_end : FindingLocation → Option ℕ → FindingLocation
anchor_text_end l none = degrade l
anchor_text_end l (some n) = anchor_last n l l.end_character

abbrev pub anchor_end : (ℕ → Option ℕ) → FindingLocation → Option ℕ → FindingLocation
anchor_end lengths l none = l
anchor_end lengths l (some e) = anchor_text_end l (lengths e)

unfoldable pub anchored : (ℕ → Option ℕ) → ℕ → FindingLocation → FindingLocation
unfolding anchor_start
anchored lengths n l =
    let started = anchor_start n l l.end_line in anchor_end lengths started started.end_line

abbrev pub is_noise : Category → Bool
is_noise other_category = false
is_noise _ = true

abbrev pub is_known : List Name → Option Name → Bool
is_known ids none = false
is_known ids (some i) = any (λ j. j == i) ids

-- `finding.ensure_fingerprint`
abbrev pub ensured : Name → Option Name → Name
ensured made none = made
ensured made (some f) = f

abbrev pub key_of : Candidate → Name
key_of f = ensured 0 f.fingerprint

abbrev pub keep : List Name → Option Candidate → (List Name → List Candidate) → List Candidate
keep seen none rest = rest seen
keep seen (some f) rest =
    let is_seen = any (λ k. k == key_of f) seen in
    let others = rest (if is_seen then seen else key_of f ∷ seen) in
    if is_seen then others else f ∷ others

module _ (min_confidence : ℕ) (context : ReviewContext) (tree : Worktree)
    (fingerprint_of : Candidate → Name) where
  abbrev pub is_previous : Candidate → Bool
  is_previous f = is_known context.previous_ids f.semantic_id

  -- The text of a line on a side of the diff.
  abbrev pub diff_text : FindingLocation → ℕ → Option ℕ
  diff_text l line = changed_text l.path l.is_parent_side line context.changed_lines

  -- A finding on the parent side is held to the diff; an earlier one may stay without a line.
  unfoldable pub parent_anchor : Bool → FindingLocation → Option ℕ → Option FindingLocation
  unfolding anchored changed_text
  parent_anchor previous l none = if previous then some l else none
  parent_anchor previous l (some n) =
      some (anchored (λ e. changed_text l.path true e context.changed_lines) n l)

  unfoldable pub start_anchor : (ℕ → Option ℕ) → FindingLocation → Option ℕ → Option FindingLocation
  unfolding anchored
  start_anchor lengths l none = none
  start_anchor lengths l (some n) = some (anchored lengths n l)

  unfoldable pub file_anchor : FindingLocation → Option (ℕ → Option ℕ) → Option FindingLocation
  unfolding start_anchor
  file_anchor l none = none
  file_anchor l (some lengths) = start_anchor lengths l (lengths l.start_line)

  -- By the side of the diff.
  unfoldable pub anchor_on : Bool → Candidate → Option FindingLocation
  unfolding parent_anchor file_anchor changed_text any
  anchor_on true f =
      let l = f.location in
      parent_anchor (is_previous f) l (changed_text l.path true l.start_line context.changed_lines)
  anchor_on false f =
      let l = f.location in
      if tree.is_file l.path
      then file_anchor l (tree.read_lines l.path l.start_line l.end_line)
      else none

  unfoldable pub anchor : Candidate → Option FindingLocation
  unfolding anchor_on
  anchor f = anchor_on f.location.is_parent_side f

  -- The tests before the location is anchored.
  unfoldable pub is_eligible : Candidate → Bool
  unfolding any changed_text
  is_eligible f =
      let l = f.location in
      leb min_confidence f.confidence
      && ((any (λ p. p == l.path) context.changed_files || is_previous f)
          && ((not (is_none (diff_text l l.start_line)) || is_previous f) && tree.is_inside l.path))

  unfoldable pub with_location : Candidate → Option FindingLocation → Option Candidate
  with_location f none = none
  with_location f (some l) =
      let moved = record f { location = l } in
      if is_noise f.category
      then none
      else some (record moved { fingerprint = some (ensured (fingerprint_of moved) f.fingerprint) })

  -- The body of the loop up to the test on the fingerprints that were seen.
  unfoldable pub examine : Candidate → Option Candidate
  unfolding is_eligible anchor with_location
  examine f = if is_eligible f then with_location f (anchor f) else none

  -- The loop over the findings.
  unfoldable pub accept_from : List Name → List Candidate → List Candidate
  unfolding examine any
  accept_from seen [] = []
  accept_from seen (f ∷ fs) = keep seen (examine f) (λ known. accept_from known fs)

abbrev pub severity_order : Severity → ℕ
severity_order p0 = 0
severity_order p1 = 1
severity_order p2 = 2

-- The sort's key does not put the second before the first.
abbrev pub comes_first : Candidate → Candidate → Bool
comes_first a b =
    ltb (severity_order a.severity) (severity_order b.severity)
    || (severity_order a.severity == severity_order b.severity && leb b.confidence a.confidence)

-- `accepted.sort(…)`, which is stable.
unfoldable pub insert_sorted : Candidate → List Candidate → List Candidate
insert_sorted a [] = a ∷ []
insert_sorted a (b ∷ bs) =
    let rest = insert_sorted a bs in if comes_first a b then a ∷ b ∷ bs else b ∷ rest

unfoldable pub sort_findings : List Candidate → List Candidate
unfolding insert_sorted
sort_findings [] = []
sort_findings (a ∷ fs) = insert_sorted a (sort_findings fs)

-- `validate_all`
unfoldable pub validate_all :
    ℕ → ReviewContext → Worktree → (Candidate → Name) → List Candidate → List Candidate
unfolding accept_from sort_findings
validate_all min_confidence context tree fingerprint_of findings =
    sort_findings (accept_from min_confidence context tree fingerprint_of [] findings)
