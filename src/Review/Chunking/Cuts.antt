-- ===== src/Review/Chunking/Cuts.antt =====
-- The section starts of src/pe_review_agent/review/chunking.py cut the diff into sections that are,
-- together, the diff.
use pe_review_agent.Prelude.{
  Bool, List, Text, [], ap, append-nil, append_assoc, arith, codes, concat, drop, drop-length,
  if_intro, length, slice, slice-drop, starts_with, subst, suc, sym, true, zero, ℕ, ◌&&◌, ◌++◌, ◌+◌,
  ◌==◌, ◌∙◌, ◌∷◌, ◌≡◌, ◌≤◌,
}
use pe_review_agent.Review.Chunking.{from_zero, header_starts, sections_from}

-- Positions in order, from a low to a high one.
abbrev pub IsCuts : ℕ → ℕ → List ℕ → Type 0
IsCuts low high [] = low ≤ high
IsCuts low high (x ∷ xs) = (low ≤ x) × IsCuts x high xs

IsCuts-lower : (a b high : ℕ) (xs : List ℕ) → a ≤ b → IsCuts b high xs → IsCuts a high xs
IsCuts-lower a b high [] h c = omega arith
IsCuts-lower a b high (x ∷ xs) h c = (omega arith, c.1)

IsCuts-upper : (low high k : ℕ) (xs : List ℕ) → high ≡ k → IsCuts low high xs → IsCuts low k xs
IsCuts-upper low high k xs e c = subst (λ n. IsCuts low n xs) e c

header_starts-IsCuts :
    (at : ℕ) (line_start : Bool) (text : Text)
    → IsCuts at (at + length text) (header_starts at line_start text)
unfolding header_starts
header_starts-IsCuts at line_start [] = omega arith
header_starts-IsCuts at line_start (c ∷ cs) =
    let rest = header_starts (suc at) (c == 10) cs in
    let h =
      IsCuts-upper (suc at) (suc at + length cs) (at + suc (length cs)) rest (omega arith)
        (header_starts-IsCuts (suc at) (c == 10) cs) in
    if_intro (IsCuts at (at + suc (length cs)))
      (line_start && starts_with (codes "diff --git ") (c ∷ cs)) (at ∷ rest) rest
      (λ _. (omega arith, IsCuts-lower at (suc at) (at + suc (length cs)) rest (omega arith) h))
      (λ _. IsCuts-lower at (suc at) (at + suc (length cs)) rest (omega arith) h)

from_zero-IsCuts : (high : ℕ) (xs : List ℕ) → IsCuts 0 high xs → IsCuts 0 high (from_zero xs)
unfolding from_zero
from_zero-IsCuts high [] h = h
from_zero-IsCuts high (zero ∷ xs) h = h.1
from_zero-IsCuts high (suc n ∷ xs) h = h

concat-sections_from :
    (a high : ℕ) (xs : List ℕ) (diff : Text)
    → IsCuts a high xs
    → concat (sections_from a (xs ++ high ∷ []) diff) ++ drop high diff ≡ drop a diff
unfolding sections_from concat
concat-sections_from a high [] diff h =
    ap (λ t. t ++ drop high diff) (append-nil (slice a high diff)) ∙ slice-drop a high diff h
concat-sections_from a high (x ∷ xs) diff h =
    append_assoc (slice a x diff) (concat (sections_from x (xs ++ high ∷ []) diff)) (drop high diff)
    ∙ ap (λ t. slice a x diff ++ t) (concat-sections_from x high xs diff h.1)
    ∙ slice-drop a x diff h.0

-- The sections of `chunk_diff`, together, are the diff.
pub concat-sections :
    (diff : Text) (starts : List ℕ)
    → header_starts 0 true diff ≡ starts
    → concat (sections_from 0 (from_zero starts ++ length diff ∷ []) diff) ≡ diff
unfolding drop
concat-sections diff starts e =
    let cuts = from_zero-IsCuts (length diff) starts (
      subst (IsCuts 0 (length diff)) e (
        IsCuts-upper 0 (0 + length diff) (length diff) (header_starts 0 true diff) (omega arith)
          (header_starts-IsCuts 0 true diff))) in
    let all = concat (sections_from 0 (from_zero starts ++ length diff ∷ []) diff) in
    sym (append-nil all)
    ∙ ap (λ t. all ++ t) (sym (drop-length (length diff) diff (omega arith)))
    ∙ concat-sections_from 0 (length diff) (from_zero starts) diff cuts
