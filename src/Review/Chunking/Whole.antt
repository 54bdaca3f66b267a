-- ===== src/Review/Chunking/Whole.antt =====
-- `chunk_diff` of src/pe_review_agent/review/chunking.py: the chunks are the diff, whole, and keep to
-- the limit.
use mathlib.Core.Option
use pe_review_agent.Prelude.{
  All, Bool-cases, List, Option, Text, [], ap, append-nil, append_assoc, arith, concat, if_intro,
  inl, inr, leb, length, ltb, refl, some, sym, true, ℕ, ◌++◌, ◌<◌, ◌∙◌, ◌∷◌, ◌≡◌,
}
use pe_review_agent.Review.Chunking.{
  DiffChunk, Packing, add_parts, add_section, chunk_by, chunk_diff, flush, from_zero, header_starts,
  no_chunks, pack, paths_of, sections_from, split_text, with_paths,
}
use pe_review_agent.Review.Chunking.Cuts.{concat-sections}
use pe_review_agent.Review.Chunking.Packed.{
  Fits, IsPacked, Takes, add_parts-Takes, add_section-Takes, flush-IsFlushed, held, text_of,
  text_of-with_paths, with_paths-Fits,
}
use pe_review_agent.Review.Chunking.Parts.{split_text-IsSplit}

-- The end of the loop over the sections.
record IsDone (max_chars : ℕ) (sections : List Text) (before : Packing) (o : Option Packing)
    : Type 0 where
  st : Packing
  returns : o ≡ some st
  packed : IsPacked max_chars st
  whole : held st ≡ held before ++ concat sections

IsDone-Takes :
    (max_chars : ℕ) (section : Text) (sections : List Text) (before st : Packing)
    (o : Option Packing)
    → Takes max_chars section before st
    → IsDone max_chars sections st o
    → IsDone max_chars (section ∷ sections) before o
unfolding concat
IsDone-Takes max_chars section sections before st o t d = record {
  st = d.st;
  returns = d.returns;
  packed = d.packed;
  whole =
      d.whole
      ∙ ap (λ x. x ++ concat sections) t.whole
      ∙ append_assoc (held before) section (concat sections);
}

pack-IsDone :
    (max_chars : ℕ) (sections : List Text) (before : Packing)
    → 0 < max_chars
    → IsPacked max_chars before
    → IsDone max_chars sections before (pack max_chars sections before)
unfolding pack concat
pack-IsDone max_chars [] before p h = record {
  st = before;
  returns = refl;
  packed = h;
  whole = sym (append-nil (held before));
}
pack-IsDone max_chars (section ∷ sections) before p h =
    elim (Bool-cases (ltb max_chars (length section))) [
      | inl long ↦
          let s = split_text-IsSplit section max_chars p in
          let t = add_parts-Takes max_chars section before s.parts h s.whole s.short in
          rw (long, s.returns)
            (IsDone-Takes max_chars section sections before (add_parts section before s.parts)
              (pack max_chars sections (add_parts section before s.parts)) t
              (pack-IsDone max_chars sections (add_parts section before s.parts) p t.packed))
      | inr fits ↦
          let t = add_section-Takes max_chars section before h (ground arith) in
          rw fits (
            IsDone-Takes max_chars section sections before (add_section max_chars section before)
              (pack max_chars sections (add_section max_chars section before)) t
              (pack-IsDone max_chars sections (add_section max_chars section before) p t.packed))
    ]

-- What `chunk_diff` returns.
pub record IsChunked (max_chars : ℕ) (diff : Text) (o : Option (List DiffChunk)) : Type 0 where
  pub chunks : List DiffChunk
  pub returns : o ≡ some chunks
  pub whole : text_of chunks ≡ diff
  pub fits : All (Fits max_chars) chunks

packed-IsChunked :
    (max_chars : ℕ) (diff : Text) (starts : List ℕ)
    → 0 < max_chars
    → header_starts 0 true diff ≡ starts
    → let sections = sections_from 0 (from_zero starts ++ length diff ∷ []) diff in
      IsChunked max_chars diff
        (Option.map (λ st. (flush st).chunks) (pack max_chars sections no_chunks))
packed-IsChunked max_chars diff starts p e =
    let sections = sections_from 0 (from_zero starts ++ length diff ∷ []) diff in
    let empty : IsPacked max_chars no_chunks = record { fits = tt; room = omega arith } in
    let d = pack-IsDone max_chars sections no_chunks p empty in
    let f = flush-IsFlushed max_chars d.st d.packed in
    record {
      chunks = (flush d.st).chunks;
      returns = ap (Option.map (λ st. (flush st).chunks)) d.returns;
      whole = f.keeps ∙ d.whole ∙ concat-sections diff starts e;
      fits = f.fits;
    }

parts-IsChunked :
    (max_chars : ℕ) (diff : Text)
    → 0 < max_chars
    → IsChunked max_chars diff (Option.map (with_paths []) (split_text diff max_chars))
parts-IsChunked max_chars diff p =
    let s = split_text-IsSplit diff max_chars p in
    record {
      chunks = with_paths [] s.parts;
      returns = ap (Option.map (with_paths [])) s.returns;
      whole = text_of-with_paths [] s.parts ∙ s.whole;
      fits = with_paths-Fits max_chars [] s.parts s.short;
    }

chunk_by-IsChunked :
    (max_chars : ℕ) (diff : Text) (starts : List ℕ)
    → 0 < max_chars
    → header_starts 0 true diff ≡ starts
    → IsChunked max_chars diff (chunk_by max_chars diff starts)
unfolding chunk_by
chunk_by-IsChunked max_chars diff [] p e = parts-IsChunked max_chars diff p
chunk_by-IsChunked max_chars diff (s ∷ ss) p e = packed-IsChunked max_chars diff (s ∷ ss) p e

-- For any limit above 0 and any diff, `chunk_diff` ends; the texts of its chunks, one after another,
-- are the diff; and no chunk is longer than the limit.
pub chunk_diff-IsChunked :
    (max_chars : ℕ) (diff : Text)
    → 0 < max_chars
    → IsChunked max_chars diff (chunk_diff max_chars diff)
unfolding chunk_diff
chunk_diff-IsChunked max_chars [] p = record {
  chunks = record { text = []; paths = [] } ∷ [];
  returns = refl;
  whole = refl;
  fits = (omega arith, tt);
}
chunk_diff-IsChunked max_chars (c ∷ cs) p =
    let diff = c ∷ cs in
    if_intro (IsChunked max_chars diff) (leb (length diff) max_chars)
      (some (record { text = diff; paths = paths_of diff } ∷ []))
      (chunk_by max_chars diff (header_starts 0 true diff))
      (λ fits. record {
        chunks = record { text = diff; paths = paths_of diff } ∷ [];
        returns = refl;
        whole = append-nil diff;
        fits = (ground arith, tt);
      })
      (λ long. chunk_by-IsChunked max_chars diff (header_starts 0 true diff) p refl)
