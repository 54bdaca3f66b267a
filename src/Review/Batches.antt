-- ===== src/Review/Batches.antt =====
-- The batches of findings to verify, of src/pe_review_agent/review/native.py: `_verification_work` and
-- `_split_verification_work`. The length of a finding's JSON and the item made of a batch are parameters.
use pe_review_agent.Prelude.{
  All, Bool, Bool-cases, List, Option, [], ap, append_assoc, arith, concat, drop, false,
  if◌then◌else◌, inl, inr, leb, length, length-append, length-drop, length-take, ltb, none, not,
  refl, some, some_inj, subst₂, take, take-drop, true, ℕ, ◌&&◌, ◌++◌, ◌+◌, ◌/◌, ◌<◌, ◌||◌, ◌∙◌, ◌∷◌,
  ◌≡◌, ◌≤◌, ◌⊎◌,
}

module _ {A : Type 0} where
  abbrev pub is_empty : List A → Bool
  is_empty [] = true
  is_empty (x ∷ xs) = false

  -- `_split_verification_work` on the payload; `none` is the PermanentError.
  unfoldable pub split_batch : List A → Option (List A × List A)
  unfolding take drop
  split_batch xs =
      if leb (length xs) 1 then none else some (take (length xs / 2) xs, drop (length xs / 2) xs)

  halves :
      (xs a b : List A)
      → leb (length xs) 1 ≡ false
      → take (length xs / 2) xs ≡ a
      → drop (length xs / 2) xs ≡ b
      → (a ++ b ≡ xs) × (0 < length a) × (0 < length b) × (length a + length b ≡ length xs)
  halves xs a b big ea eb =
      let half = length xs / 2 in
      let whole = take-drop half xs in
      let x = length-take half xs (omega arith) in
      let y = length-drop half xs in
      let la = ap (λ (zs : List A). length zs) ea in
      let lb = ap (λ (zs : List A). length zs) eb in
      (subst₂ (λ (u v : List A). u ++ v ≡ xs) ea eb whole, ground arith, ground arith, ground arith)

  -- The halves of a batch are the batch, neither is empty, and both are shorter.
  pub split_batch_lem :
      (xs a b : List A)
      → split_batch xs ≡ some (a, b)
      → (a ++ b ≡ xs) × (0 < length a) × (0 < length b) × (length a + length b ≡ length xs)
  unfolding split_batch
  split_batch_lem xs a b h = elim (Bool-cases (leb (length xs) 1)) [
    | inl t ↦ absurd (cc (rw t at h))
    | inr big ↦ let same = some_inj (rw big at h) in halves xs a b big (cc) (cc)
  ]

  module _ (json_length : A → ℕ) where
    abbrev pub total : List A → ℕ
    total [] = 0
    total (x ∷ xs) = json_length x + total xs

    -- `current and (len(current) >= 8 or size + length > 32_000)`
    unfoldable pub is_full : List A → ℕ → A → Bool
    is_full current size x =
        not (is_empty current) && (leb 8 (length current) || ltb 32000 (size + json_length x))

    -- The loop of `_verification_work`.
    unfoldable pub batches_from : List A → ℕ → List A → List (List A)
    unfolding is_full
    batches_from current size [] = if is_empty current then [] else current ∷ []
    batches_from current size (x ∷ xs) =
        let full = is_full current size x in
        let rest =
          batches_from (if full then x ∷ [] else current ++ x ∷ [])
            (if full then json_length x else size + json_length x) xs in
        if full then current ∷ rest else rest

    unfoldable pub verification_batches : List A → List (List A)
    unfolding batches_from
    verification_batches = batches_from [] 0

    -- What the loop has gathered, and what it gives: batches of at most 8, none empty, none longer than
    -- the limit unless it is a single finding.
    abbrev pub IsBatch : List A → Type 0
    IsBatch b = (0 < length b) × (length b ≤ 8) × (length b ≡ 1 ⊎ total b ≤ 32000)

    record IsGathered (current : List A) (size : ℕ) : Type 0 where
      few : length current ≤ 8
      measured : size ≡ total current
      short : (length current ≤ 1) ⊎ (total current ≤ 32000)

    total-append : (xs : List A) (x : A) → total (xs ++ x ∷ []) ≡ total xs + json_length x
    total-append [] x = omega arith
    total-append (y ∷ xs) x = omega (arith, total-append xs x)

    single-IsGathered : (x : A) → IsGathered (x ∷ []) (json_length x)
    single-IsGathered x = record {
      few = omega arith;
      measured = omega arith;
      short = inl (omega arith);
    }

    grown-IsGathered :
        (current : List A) (size : ℕ) (x : A)
        → IsGathered current size
        → is_full current size x ≡ false
        → IsGathered (current ++ x ∷ []) (size + json_length x)
    unfolding is_full
    grown-IsGathered [] size x h n =
        let m = h.measured in
        record { few = omega arith; measured = omega arith; short = inl (omega arith) }
    grown-IsGathered (y ∷ ys) size x h n =
        let m = h.measured in
        let a = length-append (y ∷ ys) (x ∷ []) in
        let b = total-append (y ∷ ys) x in
        record { few = ground arith; measured = omega arith; short = inr (ground arith) }

    gathered-IsBatch :
        (current : List A) (size : ℕ)
        → IsGathered current size
        → is_empty current ≡ false
        → IsBatch current
    gathered-IsBatch [] size h n = cc
    gathered-IsBatch (y ∷ ys) size h n =
        (omega arith, h.few, elim h.short [ inl one ↦ inl (omega arith) | inr small ↦ inr small ])

    full_is_nonempty :
        (current : List A) (size : ℕ) (x : A)
        → is_full current size x ≡ true
        → is_empty current ≡ false
    unfolding is_full
    full_is_nonempty current size x t = ground arith

    -- The batches that the loop gives hold what was gathered and what is left.
    record IsBatched (whole_list : List A) (bs : List (List A)) : Type 0 where
      whole : concat bs ≡ whole_list
      each : All IsBatch bs

    last-IsBatched :
        (current : List A) (size : ℕ)
        → IsGathered current size
        → IsBatched (current ++ []) (if is_empty current then [] else current ∷ [])
    unfolding concat
    last-IsBatched [] size h = record { whole = refl; each = tt }
    last-IsBatched (y ∷ ys) size h = record {
      whole = refl;
      each = (gathered-IsBatch (y ∷ ys) size h refl, tt);
    }

    batches_from-IsBatched :
        (current : List A) (size : ℕ) (findings : List A)
        → IsGathered current size
        → IsBatched (current ++ findings) (batches_from current size findings)
    unfolding batches_from concat
    batches_from-IsBatched current size [] h = last-IsBatched current size h
    batches_from-IsBatched current size (x ∷ xs) h = elim (Bool-cases (is_full current size x)) [
      | inl t ↦
          let r = batches_from-IsBatched (x ∷ []) (json_length x) xs (single-IsGathered x) in
          rw t (record {
            whole = ap (λ (ys : List A). current ++ ys) r.whole;
            each = (gathered-IsBatch current size h (full_is_nonempty current size x t), r.each);
          })
      | inr n ↦
          let r =
            batches_from-IsBatched (current ++ x ∷ []) (size + json_length x) xs
              (grown-IsGathered current size x h n) in
          rw n (record { whole = r.whole ∙ append_assoc current (x ∷ []) xs; each = r.each })
    ]

    -- The batches to verify, one after another, are the findings; none is empty or holds more than 8,
    -- and the JSON of none is longer than the limit unless it is a single finding.
    pub verification_batches-IsBatch :
        (findings : List A)
        → (concat (verification_batches findings) ≡ findings)
          × All IsBatch (verification_batches findings)
    unfolding verification_batches
    verification_batches-IsBatch findings =
        let r =
          batches_from-IsBatched [] 0 findings
            (record { few = omega arith; measured = omega arith; short = inl (omega arith) }) in
        (r.whole, r.each)
