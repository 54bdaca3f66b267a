-- ===== src/Review/Chunking/Packed.antt =====
-- The loop of `chunk_diff` of src/pe_review_agent/review/chunking.py over the sections: nothing is
-- lost between the chunks and what is pending, and all of it keeps to the limit.
use pe_review_agent.Prelude.{
  All, All-append, List, Text, [], ap, append-nil, append_assoc, arith, concat, false, if_intro,
  length, length-append, ltb, refl, subst, subst₂, sym, ℕ, ◌&&◌, ◌++◌, ◌+◌, ◌<◌, ◌∙◌, ◌∷◌, ◌≡◌, ◌≤◌,
}
use pe_review_agent.Review.Chunking.{
  DiffChunk, Packing, add_parts, add_section, flush, flush_pending, is_nonempty, paths_of,
  unique_paths, with_paths,
}

-- The texts of the chunks, one after another.
abbrev pub text_of : List DiffChunk → Text
text_of [] = []
text_of (chunk ∷ chunks) = chunk.text ++ text_of chunks

abbrev pub Fits : ℕ → DiffChunk → Type 0
Fits max_chars chunk = length chunk.text ≤ max_chars

pub text_of-append : (xs ys : List DiffChunk) → text_of (xs ++ ys) ≡ text_of xs ++ text_of ys
text_of-append [] ys = refl
text_of-append (x ∷ xs) ys =
    ap (λ t. x.text ++ t) (text_of-append xs ys)
    ∙ sym (append_assoc x.text (text_of xs) (text_of ys))

pub text_of-with_paths : (paths parts : List Text) → text_of (with_paths paths parts) ≡ concat parts
unfolding concat
text_of-with_paths paths [] = refl
text_of-with_paths paths (part ∷ parts) = ap (λ t. part ++ t) (text_of-with_paths paths parts)

pub with_paths-Fits :
    (max_chars : ℕ) (paths parts : List Text)
    → All (λ part. (length part ≤ max_chars) × (0 < length part)) parts
    → All (Fits max_chars) (with_paths paths parts)
with_paths-Fits max_chars paths [] h = tt
with_paths-Fits max_chars paths (part ∷ parts) h =
    (h.0.0, with_paths-Fits max_chars paths parts h.1)

-- What the loop has taken in.
abbrev pub held : Packing → Text
held st = text_of st.chunks ++ st.pending

pub record IsPacked (max_chars : ℕ) (st : Packing) : Type 0 where
  pub fits : All (Fits max_chars) st.chunks
  pub room : length st.pending ≤ max_chars

-- What `flush` leaves.
pub record IsFlushed (max_chars : ℕ) (before : Packing) (st : Packing) : Type 0 where
  pub keeps : text_of st.chunks ≡ held before
  pub empty : st.pending ≡ []
  pub fits : All (Fits max_chars) st.chunks

flush_pending-IsFlushed :
    (max_chars : ℕ) (t : Text) (st : Packing)
    → st.pending ≡ t
    → IsPacked max_chars st
    → IsFlushed max_chars st (flush_pending t st)
unfolding flush_pending
flush_pending-IsFlushed max_chars [] st e h = record {
  keeps = sym (ap (λ t. text_of st.chunks ++ t) e ∙ append-nil (text_of st.chunks));
  empty = e;
  fits = h.fits;
}
flush_pending-IsFlushed max_chars (c ∷ cs) st e h =
    let chunk : DiffChunk = record { text = c ∷ cs; paths = unique_paths st.pending_paths } in
    record {
      keeps =
          text_of-append st.chunks (chunk ∷ [])
          ∙ ap (λ t. text_of st.chunks ++ t) (append-nil (c ∷ cs) ∙ sym e);
      empty = refl;
      fits =
          All-append (Fits max_chars) st.chunks (chunk ∷ []) h.fits
            (subst (λ (t : Text). length t ≤ max_chars) e h.room, tt);
    }

pub flush-IsFlushed :
    (max_chars : ℕ) (st : Packing) → IsPacked max_chars st → IsFlushed max_chars st (flush st)
unfolding flush
flush-IsFlushed max_chars st h = flush_pending-IsFlushed max_chars st.pending st refl h

-- A section was taken in.
pub record Takes (max_chars : ℕ) (section : Text) (before : Packing) (st : Packing) : Type 0 where
  pub packed : IsPacked max_chars st
  pub whole : held st ≡ held before ++ section

pub add_parts-Takes :
    (max_chars : ℕ) (section : Text) (st : Packing) (parts : List Text)
    → IsPacked max_chars st
    → concat parts ≡ section
    → All (λ part. (length part ≤ max_chars) × (0 < length part)) parts
    → Takes max_chars section st (add_parts section st parts)
unfolding add_parts
add_parts-Takes max_chars section st parts h whole short =
    let f = flush-IsFlushed max_chars st h in
    let chunks = with_paths (paths_of section) parts in
    record {
      packed = record {
        fits =
            All-append (Fits max_chars) (flush st).chunks chunks f.fits
              (with_paths-Fits max_chars (paths_of section) parts short);
        room = subst (λ (t : Text). length t ≤ max_chars) (sym f.empty) (omega arith);
      };
      whole =
          ap (λ t. text_of ((flush st).chunks ++ chunks) ++ t) f.empty
          ∙ append-nil (text_of ((flush st).chunks ++ chunks))
          ∙ text_of-append (flush st).chunks chunks
          ∙ subst₂ (λ x y. text_of (flush st).chunks ++ text_of chunks ≡ x ++ y) f.keeps
              (text_of-with_paths (paths_of section) parts ∙ whole) refl;
    }

-- A section that fits beside what is pending.
beside-Takes :
    (max_chars : ℕ) (section : Text) (before st : Packing) (paths : List Text)
    → All (Fits max_chars) st.chunks
    → length st.pending + length section ≤ max_chars
    → held st ≡ held before
    → Takes max_chars section before
        (record st { pending = st.pending ++ section; pending_paths = paths })
beside-Takes max_chars section before st paths f room e = record {
  packed = record { fits = f; room = let n = length-append st.pending section in omega arith };
  whole = sym (append_assoc (text_of st.chunks) st.pending section) ∙ ap (λ t. t ++ section) e;
}

pub add_section-Takes :
    (max_chars : ℕ) (section : Text) (st : Packing)
    → IsPacked max_chars st
    → length section ≤ max_chars
    → Takes max_chars section st (add_section max_chars section st)
unfolding add_section
add_section-Takes max_chars section st h short =
    let P : Packing → Type 0 = λ room. Takes max_chars section st (record room {
      pending = room.pending ++ section;
      pending_paths = room.pending_paths ++ paths_of section;
    }) in
    let full = is_nonempty st.pending && ltb max_chars (length st.pending + length section) in
    if_intro P full (flush st) st
      (λ t.
        let f = flush-IsFlushed max_chars st h in
        let none_pending : length (flush st).pending ≡ 0 = ap (λ (x : Text). length x) f.empty in
        beside-Takes max_chars section st (flush st) ((flush st).pending_paths ++ paths_of section)
          f.fits (omega arith)
          (ap (λ t. text_of (flush st).chunks ++ t) f.empty
            ∙ append-nil (text_of (flush st).chunks)
            ∙ f.keeps))
      (λ n.
        beside-Takes max_chars section st st (st.pending_paths ++ paths_of section) h.fits
          (enough max_chars (length section) st.pending short n) refl)
  where
    enough :
        (max_chars n : ℕ) (t : Text)
        → n ≤ max_chars
        → (is_nonempty t && ltb max_chars (length t + n)) ≡ false
        → length t + n ≤ max_chars
    enough max_chars n [] s e = omega arith
    enough max_chars n (c ∷ cs) s e = ground arith
