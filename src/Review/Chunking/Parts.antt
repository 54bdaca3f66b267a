-- ===== src/Review/Chunking/Parts.antt =====
-- `_split_text` of src/pe_review_agent/review/chunking.py: it ends, loses nothing, and keeps to the
-- limit.
use mathlib.Core.Option
use pe_review_agent.Prelude.{
  All, Bool-cases, List, Option, Option-cases, Text, [], ap, arith, concat, drop, drop-length,
  false, if_intro, if◌then◌else◌, inl, inr, leb, length, length-slice, ltb, min, none, refl, slice,
  slice-drop, some, some_inj, subst, suc, sym, zero, ℕ, ◌&&◌, ◌++◌, ◌+◌, ◌/◌, ◌<◌, ◌==◌, ◌∙◌, ◌∷◌,
  ◌≡◌, ◌≤◌,
}
use pe_review_agent.Review.Chunking.{break_at, part_end, rfind, split_from, split_text}

rfind-lt : (at low high n : ℕ) (text : Text) → rfind at low high text ≡ some n → n < high
unfolding rfind
rfind-lt at low high n [] e = cc
rfind-lt at low high n (c ∷ cs) e = elim (Option-cases (rfind (suc at) low high cs)) [
  | inl none_later ↦ here at low high n c (rw none_later at e)
  | inr (m, later) ↦
      let same : m ≡ n = some_inj (rw later at e) in
      subst (λ (k : ℕ). k < high) same (rfind-lt (suc at) low high m cs later)
]
  where
    here :
        (at low high n c : ℕ)
        → (if c == 10 && (leb low at && ltb at high) then some at else none) ≡ some n
        → n < high
    here at low high n c e = ground arith

break_at_bounds :
    (offset end : ℕ) (o : Option ℕ)
    → offset < end
    → ((n : ℕ) → o ≡ some n → n < end)
    → (offset < break_at offset end o) × (break_at offset end o ≤ end)
break_at_bounds offset end none h f = (h, omega arith)
break_at_bounds offset end (some n) h f = let k = f n refl in ground arith

-- The next offset is past the last one, by at most the limit, and inside the text.
part_end_bounds :
    (max_chars : ℕ) (text : Text) (offset : ℕ)
    → 0 < max_chars
    → offset < length text
    → (offset < part_end max_chars text offset)
      × (part_end max_chars text offset ≤ offset + max_chars)
      × (part_end max_chars text offset ≤ length text)
unfolding part_end
part_end_bounds max_chars text offset p h =
    let end = min (length text) (offset + max_chars) in
    let low = offset + max_chars / 2 in
    let (a, b) =
      break_at_bounds offset end (rfind 0 low end text) (omega arith)
        (λ n e. rfind-lt 0 low end n text e) in
    if_intro (λ (r : ℕ). (offset < r) × (r ≤ offset + max_chars) × (r ≤ length text))
      (ltb end (length text)) (break_at offset end (rfind 0 low end text)) end
      (λ _. (a, omega arith, omega arith)) (λ _. (omega arith, omega arith, omega arith))

-- The parts of a text, from an offset on.
pub record IsSplit (max_chars : ℕ) (rest : Text) (o : Option (List Text)) : Type 0 where
  pub parts : List Text
  pub returns : o ≡ some parts
  pub whole : concat parts ≡ rest
  pub short : All (λ part. (length part ≤ max_chars) × (0 < length part)) parts

split_from-IsSplit :
    (fuel max_chars : ℕ) (text : Text) (offset : ℕ)
    → 0 < max_chars
    → length text ≤ offset + fuel
    → IsSplit max_chars (drop offset text) (split_from fuel max_chars text offset)
unfolding split_from concat
split_from-IsSplit zero max_chars text offset p h =
    let over : ltb offset (length text) ≡ false = ground arith in
    record {
      parts = [];
      returns = rw over refl;
      whole = sym (drop-length offset text (omega arith));
      short = tt;
    }
split_from-IsSplit (suc fuel) max_chars text offset p h =
    elim (Bool-cases (ltb offset (length text))) [
      | inl more ↦
          let inside : offset < length text = ground arith in
          let (a, b, c) = part_end_bounds max_chars text offset p inside in
          let end = part_end max_chars text offset in
          let r = split_from-IsSplit fuel max_chars text end p (omega arith) in
          let size = length-slice offset end text (omega arith) c in
          record {
            parts = slice offset end text ∷ r.parts;
            returns = rw more (ap (Option.map (λ parts. slice offset end text ∷ parts)) r.returns);
            whole =
                ap (λ t. slice offset end text ++ t) r.whole
                ∙ slice-drop offset end text (omega arith);
            short = ((omega arith, omega arith), r.short);
          }
      | inr over ↦ record {
        parts = [];
        returns = rw over refl;
        whole = sym (drop-length offset text (ground arith));
        short = tt;
      }
    ]

-- `_split_text` ends, on any text, with parts that are not empty, are within the limit, and together
-- are the text, where the limit is above 0.
pub split_text-IsSplit :
    (text : Text) (max_chars : ℕ)
    → 0 < max_chars
    → IsSplit max_chars text (split_text text max_chars)
unfolding split_text drop
split_text-IsSplit text max_chars p =
    split_from-IsSplit (length text) max_chars text 0 p (omega arith)
