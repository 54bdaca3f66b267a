-- ===== src/Review/Chunking.antt =====
-- src/pe_review_agent/review/chunking.py: splitting a git diff into chunks for the model. A text is
-- the list of its code points. The two regular expressions with `(?m)` are read line by line.
pub mod Parts
pub mod Cuts
pub mod Packed
pub mod Whole
use Prim.Native.Nat.{zero, suc}
use mathlib.Core.Option
use pe_review_agent.Prelude.{
  Bool, List, Option, Text, [], codes, drop, false, if◌then◌else◌, leb, length, ltb, min, none, not,
  slice, some, starts_with, text_eq, true, ℕ, ◌&&◌, ◌++◌, ◌+◌, ◌/◌, ◌==◌, ◌||◌, ◌∷◌,
}

pub record DiffChunk : Type 0 where
  pub text : Text
  pub paths : List Text

abbrev newline : ℕ
newline = 10

-- `_DIFF_HEADER.finditer`: the positions of the lines that start with the header.
unfoldable pub header_starts : ℕ → Bool → Text → List ℕ
header_starts at line_start [] = []
header_starts at line_start (c ∷ cs) =
    let rest = header_starts (suc at) (c == newline) cs in
    if line_start && starts_with (codes "diff --git ") (c ∷ cs) then at ∷ rest else rest

-- `starts.insert(0, 0)` unless it is there.
unfoldable pub from_zero : List ℕ → List ℕ
from_zero [] = []
from_zero (zero ∷ starts) = starts
from_zero (suc n ∷ starts) = suc n ∷ starts

-- `[diff[starts[index] : starts[index + 1]] …]`, with the first start apart.
unfoldable pub sections_from : ℕ → List ℕ → Text → List Text
sections_from a [] diff = []
sections_from a (b ∷ starts) diff = slice a b diff ∷ sections_from b starts diff

-- `text.rfind("\n", low, high)` from position `at` on.
unfoldable pub rfind : ℕ → ℕ → ℕ → Text → Option ℕ
rfind at low high [] = none
rfind at low high (c ∷ cs) = elim (rfind (suc at) low high cs) [
  | some n ↦ some n
  | none ↦ if c == newline && (leb low at && ltb at high) then some at else none
]

-- The end of a part, moved back to after the last newline in reach.
abbrev pub break_at : ℕ → ℕ → Option ℕ → ℕ
break_at offset end none = end
break_at offset end (some n) = if ltb offset n then n + 1 else end

-- The end of the part that starts at the offset.
unfoldable pub part_end : ℕ → Text → ℕ → ℕ
unfolding rfind
part_end max_chars text offset =
    let end = min (length text) (offset + max_chars) in
    if ltb end (length text)
    then break_at offset end (rfind 0 (offset + max_chars / 2) end text)
    else end

-- The loop of `_split_text`; `none` means that the fuel ran out.
unfoldable pub split_from : ℕ → ℕ → Text → ℕ → Option (List Text)
unfolding part_end
split_from zero max_chars text offset = if ltb offset (length text) then none else some []
split_from (suc fuel) max_chars text offset =
    let end = part_end max_chars text offset in
    let rest = split_from fuel max_chars text end in
    if ltb offset (length text)
    then Option.map (λ parts. slice offset end text ∷ parts) rest
    else some []

-- `_split_text`
unfoldable pub split_text : Text → ℕ → Option (List Text)
unfolding split_from
split_text text max_chars = split_from (length text) max_chars text 0

abbrev without : Text → List Text → List Text
without p [] = []
without p (q ∷ qs) = if text_eq p q then without p qs else q ∷ without p qs

-- `dict.fromkeys`: the first of equal paths stays.
unfoldable pub unique_paths : List Text → List Text
unique_paths [] = []
unique_paths (p ∷ ps) = p ∷ without p (unique_paths ps)

-- The lines of a text.
abbrev onto_first : ℕ → List Text → List Text
onto_first c [] = (c ∷ []) ∷ []
onto_first c (line ∷ lines) = (c ∷ line) ∷ lines

unfoldable pub lines_of : Text → List Text
lines_of [] = [] ∷ []
lines_of (c ∷ cs) = let rest = lines_of cs in if c == newline then [] ∷ rest else onto_first c rest

abbrev new_path_prefix : Text
new_path_prefix = codes "+++ b/"

-- `_NEW_PATH.finditer`, less `/dev/null`.
unfoldable pub new_paths : List Text → List Text
new_paths [] = []
new_paths (line ∷ lines) =
    let rest = new_paths lines in
    let path = drop (length new_path_prefix) line in
    if starts_with new_path_prefix line
      && (ltb 0 (length path) && not (text_eq path (codes "/dev/null")))
    then path ∷ rest
    else rest

-- Where `str.splitlines` ends a line.
abbrev ends_line : ℕ → Bool
ends_line c = leb 10 c && leb c 13 || leb 28 c && leb c 30 || c == 133 || c == 8232 || c == 8233

-- `section.splitlines()[0] if section else ""`
unfoldable pub first_line : Text → Text
first_line [] = []
first_line (c ∷ cs) = let rest = first_line cs in if ends_line c then [] else c ∷ rest

-- The second group of `_GIT_PATH` after the prefix `diff --git a/`, whose first group is as short as
-- can be and not empty.
unfoldable pub after_b : Bool → Text → Option Text
after_b begun [] = none
after_b begun (c ∷ cs) =
    let rest = after_b true cs in
    if begun && (starts_with (codes " b/") (c ∷ cs) && ltb 3 (length (c ∷ cs)))
    then some (drop 3 (c ∷ cs))
    else rest

abbrev git_prefix : Text
git_prefix = codes "diff --git a/"

-- `_GIT_PATH.match(first)`, its second group.
unfoldable pub git_path : Text → Option Text
unfolding after_b
git_path line =
    if starts_with git_prefix line then after_b false (drop (length git_prefix) line) else none

-- `_paths`
unfoldable pub paths_of : Text → List Text
unfolding new_paths lines_of unique_paths first_line git_path
paths_of section = elim (new_paths (lines_of section)) [
  | p ∷ ps ↦ unique_paths (p ∷ ps)
  | [] ↦ elim (git_path (first_line section)) [ none ↦ [] | some p ↦ p ∷ [] ]
]

-- The variables of the loop of `chunk_diff`.
pub record Packing : Type 0 where
  pub chunks : List DiffChunk
  pub pending : Text
  pub pending_paths : List Text

-- `flush`, given what is pending.
unfoldable pub flush_pending : Text → Packing → Packing
unfolding unique_paths
flush_pending [] st = st
flush_pending (c ∷ cs) st = record {
  chunks = st.chunks ++ record { text = c ∷ cs; paths = unique_paths st.pending_paths } ∷ [];
  pending = [];
  pending_paths = [];
}

-- `flush`
unfoldable pub flush : Packing → Packing
unfolding flush_pending
flush st = flush_pending st.pending st

abbrev pub with_paths : List Text → List Text → List DiffChunk
with_paths paths [] = []
with_paths paths (part ∷ parts) = record { text = part; paths = paths } ∷ with_paths paths parts

abbrev pub is_nonempty : Text → Bool
is_nonempty [] = false
is_nonempty (c ∷ cs) = true

-- A section that is too long, given its parts.
unfoldable pub add_parts : Text → Packing → List Text → Packing
unfolding flush paths_of
add_parts section st parts =
    let flushed = flush st in
    record flushed { chunks = flushed.chunks ++ with_paths (paths_of section) parts }

-- A section that fits.
unfoldable pub add_section : ℕ → Text → Packing → Packing
unfolding flush paths_of
add_section max_chars section st =
    let room =
      if is_nonempty st.pending && ltb max_chars (length st.pending + length section)
      then flush st
      else st in
    record room {
      pending = room.pending ++ section;
      pending_paths = room.pending_paths ++ paths_of section;
    }

-- The loop over the sections.
unfoldable pub pack : ℕ → List Text → Packing → Option Packing
unfolding add_parts add_section split_text
pack max_chars [] st = some st
pack max_chars (section ∷ sections) st =
    if ltb max_chars (length section)
    then elim (split_text section max_chars) [
      | none ↦ none
      | some parts ↦ pack max_chars sections (add_parts section st parts)
    ]
    else pack max_chars sections (add_section max_chars section st)

abbrev pub no_chunks : Packing
no_chunks = record { chunks = []; pending = []; pending_paths = [] }

-- `chunk_diff` on a diff that is too long, given the starts of its sections.
unfoldable pub chunk_by : ℕ → Text → List ℕ → Option (List DiffChunk)
unfolding from_zero sections_from pack flush split_text
chunk_by max_chars diff [] = Option.map (with_paths []) (split_text diff max_chars)
chunk_by max_chars diff (s ∷ ss) =
    Option.map (λ st. (flush st).chunks)
      (pack max_chars (sections_from 0 (from_zero (s ∷ ss) ++ length diff ∷ []) diff) no_chunks)

-- `chunk_diff`; `none` means that a loop ran out of fuel.
unfoldable pub chunk_diff : ℕ → Text → Option (List DiffChunk)
unfolding header_starts chunk_by paths_of
chunk_diff max_chars [] = some (record { text = []; paths = [] } ∷ [])
chunk_diff max_chars (c ∷ cs) =
    let diff = c ∷ cs in
    if leb (length diff) max_chars
    then some (record { text = diff; paths = paths_of diff } ∷ [])
    else chunk_by max_chars diff (header_starts 0 true diff)
