-- ===== src/Review/Validation/Validated.antt =====
-- `validate_all` of src/pe_review_agent/review/validator.py as a whole.
use pe_review_agent.Domain.{Name}
use pe_review_agent.Prelude.{
  All, All-imp, Bool-cases, Elem, List, Option, [], any, ap, arith, false, inl, inr, none, none_ne,
  refl, some, some_inj, subst, sym, true, ℕ, ◌==◌, ◌∙◌, ◌∷◌, ◌≡◌, ◌⊎◌,
}
use pe_review_agent.Review.Validation.{
  Candidate, ReviewContext, Worktree, accept_from, ensured, examine, keep, key_of, validate_all,
}
use pe_review_agent.Review.Validation.Accepted.{IsAccepted, examine-IsKept}
use pe_review_agent.Review.Validation.Sorting.{
  All-sort_findings, Differs, Elem-sort_findings, IsDistinct, IsSorted, sort_findings-IsDistinct,
  sort_findings-IsSorted,
}

module _ (min_confidence : ℕ) (context : ReviewContext) (tree : Worktree)
    (fingerprint_of : Candidate → Name) where
  -- What the loop accepts after some fingerprints were seen.
  record IsLooped (seen : List Name) (findings accepted : List Candidate) : Type 0 where
    each : All (IsAccepted min_confidence context tree fingerprint_of findings) accepted
    distinct_keys : IsDistinct accepted
    unseen_keys : All (λ (g : Candidate). any (λ (k : Name). k == key_of g) seen ≡ false) accepted

  widened :
      (f : Candidate) (fs gs : List Candidate)
      → All (IsAccepted min_confidence context tree fingerprint_of fs) gs
      → All (IsAccepted min_confidence context tree fingerprint_of (f ∷ fs)) gs
  widened f fs gs h =
      All-imp (IsAccepted min_confidence context tree fingerprint_of fs)
        (IsAccepted min_confidence context tree fingerprint_of (f ∷ fs)) gs
        (λ g a. (a.0, inr a.1, a.2)) h

  keep-IsLooped :
      (seen : List Name) (f : Candidate) (fs : List Candidate) (o : Option Candidate)
      (rest : List Name → List Candidate)
      → examine min_confidence context tree fingerprint_of f ≡ o
      → ((known : List Name) → IsLooped known fs (rest known))
      → IsLooped seen (f ∷ fs) (keep seen o rest)
  unfolding any
  keep-IsLooped seen f fs none rest e ih =
      let h = ih seen in
      record {
        each = widened f fs (rest seen) h.each;
        distinct_keys = h.distinct_keys;
        unseen_keys = h.unseen_keys;
      }
  keep-IsLooped seen f fs (some g) rest e ih =
      elim (Bool-cases (any (λ (k : Name). k == key_of g) seen)) [
        | inl t ↦
            let h = ih seen in
            rw t (record {
              each = widened f fs (rest seen) h.each;
              distinct_keys = h.distinct_keys;
              unseen_keys = h.unseen_keys;
            })
        | inr n ↦
            let known = key_of g ∷ seen in
            let h = ih known in
            let others = rest known in
            rw n (record {
              each = (
                (f, inl refl, examine-IsKept min_confidence context tree fingerprint_of f g e),
                widened f fs others h.each,
              );
              distinct_keys = (
                All-imp (λ (x : Candidate). any (λ (k : Name). k == key_of x) known ≡ false)
                    (Differs g) others (λ x a d. apart g x seen a d) h.unseen_keys,
                h.distinct_keys,
              );
              unseen_keys = (
                n,
                All-imp (λ (x : Candidate). any (λ (k : Name). k == key_of x) known ≡ false)
                    (λ (x : Candidate). any (λ (k : Name). k == key_of x) seen ≡ false) others
                    (λ x a. ground arith) h.unseen_keys,
              );
            })
      ]
    where
      apart :
          (g x : Candidate) (seen : List Name)
          → any (λ (k : Name). k == key_of x) (key_of g ∷ seen) ≡ false
          → Differs g x
      apart g x seen a d = let same : key_of g ≡ key_of x = ap (ensured 0) d in ground arith

  accept_from-IsLooped :
      (seen : List Name) (findings : List Candidate)
      → IsLooped seen findings
          (accept_from min_confidence context tree fingerprint_of seen findings)
  unfolding accept_from
  accept_from-IsLooped seen [] = record { each = tt; distinct_keys = tt; unseen_keys = tt }
  accept_from-IsLooped seen (f ∷ fs) =
      keep-IsLooped seen f fs (examine min_confidence context tree fingerprint_of f)
        (λ known. accept_from min_confidence context tree fingerprint_of known fs) refl
        (λ known. accept_from-IsLooped known fs)

  -- Each finding that is returned comes of one that was given, with its severity and confidence: it is
  -- confident enough, its file and its line were changed or it was found before, its path stays inside
  -- the worktree, its category is not one of style, it has a fingerprint, and its location was held to
  -- the text it stands in, unless it is an earlier finding on the
  -- parent's side whose line the diff does not show.
  pub validate_all-IsAccepted :
      (findings : List Candidate)
      → All
          (IsAccepted min_confidence context tree fingerprint_of findings)
          (validate_all min_confidence context tree fingerprint_of findings)
  unfolding validate_all
  validate_all-IsAccepted findings =
      let accepted = accept_from min_confidence context tree fingerprint_of [] findings in
      All-sort_findings (IsAccepted min_confidence context tree fingerprint_of findings) accepted
        (accept_from-IsLooped [] findings).each

  -- The findings are returned in order, by severity and then by falling confidence, and no two have the
  -- same fingerprint.
  pub validate_all-IsSorted :
      (findings : List Candidate)
      → IsSorted (validate_all min_confidence context tree fingerprint_of findings)
        × IsDistinct (validate_all min_confidence context tree fingerprint_of findings)
  unfolding validate_all
  validate_all-IsSorted findings =
      let accepted = accept_from min_confidence context tree fingerprint_of [] findings in
      (
        sort_findings-IsSorted accepted,
        sort_findings-IsDistinct accepted (accept_from-IsLooped [] findings).distinct_keys,
      )

  -- A finding with that fingerprint is among the accepted, or was seen before.
  abbrev Covers : Name → List Name → List Candidate → Type 0
  Covers key seen accepted =
      (any (λ (k : Name). k == key) seen ≡ true)
      ⊎ ((h : Candidate) × Elem h accepted × (key_of h ≡ key))

  Covers-keep :
      (key : Name) (seen : List Name) (o : Option Candidate) (rest : List Name → List Candidate)
      → ((known : List Name) → Covers key known (rest known))
      → Covers key seen (keep seen o rest)
  unfolding any
  Covers-keep key seen none rest ih = ih seen
  Covers-keep key seen (some g) rest ih =
      elim (Bool-cases (any (λ (k : Name). k == key_of g) seen)) [
        | inl t ↦ rw t (ih seen)
        | inr n ↦ rw n (elim (ih (key_of g ∷ seen)) [
          | inl known ↦ first key g seen (rest (key_of g ∷ seen)) known
          | inr (h, m, e) ↦ inr (h, inr m, e)
        ])
      ]
    where
      first :
          (key : Name) (g : Candidate) (seen : List Name) (others : List Candidate)
          → any (λ (k : Name). k == key) (key_of g ∷ seen) ≡ true
          → Covers key seen (g ∷ others)
      first key g seen others t = elim (Bool-cases (key_of g == key)) [
        | inl same ↦ inr (g, inl refl, ground arith)
        | inr n ↦ inl (ground arith)
      ]

  Covers-examined :
      (seen : List Name) (g : Candidate) (o : Option Candidate) (rest : List Name → List Candidate)
      → o ≡ some g
      → Covers (key_of g) seen (keep seen o rest)
  Covers-examined seen g none rest e = none_ne e
  Covers-examined seen g (some x) rest e =
      elim (Bool-cases (any (λ (k : Name). k == key_of x) seen)) [
        | inl t ↦ inl (
            subst (λ (y : Candidate). any (λ (k : Name). k == key_of y) seen ≡ true) (some_inj e) t)
        | inr n ↦ rw n (inr (x, inl refl, ap key_of (some_inj e)))
      ]

  accept_from-Covers :
      (seen : List Name) (findings : List Candidate) (f g : Candidate)
      → Elem f findings
      → examine min_confidence context tree fingerprint_of f ≡ some g
      → Covers
          (key_of g)
          seen
          (accept_from min_confidence context tree fingerprint_of seen findings)
  unfolding accept_from
  accept_from-Covers seen [] f g m e = absurd m
  accept_from-Covers seen (x ∷ xs) f g (inl s) e =
      Covers-examined seen g (examine min_confidence context tree fingerprint_of x)
        (λ known. accept_from min_confidence context tree fingerprint_of known xs)
        (ap (examine min_confidence context tree fingerprint_of) (sym s) ∙ e)
  accept_from-Covers seen (x ∷ xs) f g (inr m) e =
      Covers-keep (key_of g) seen (examine min_confidence context tree fingerprint_of x)
        (λ known. accept_from min_confidence context tree fingerprint_of known xs)
        (λ known. accept_from-Covers known xs f g m e)

  -- No finding that passes the tests is lost: one with its fingerprint is returned.
  pub validate_all_complete :
      (findings : List Candidate) (f g : Candidate)
      → Elem f findings
      → examine min_confidence context tree fingerprint_of f ≡ some g
      → (h : Candidate) × Elem h (validate_all min_confidence context tree fingerprint_of findings)
        × (key_of h ≡ key_of g)
  unfolding validate_all any
  validate_all_complete findings f g m e = elim (accept_from-Covers [] findings f g m e) [
    | inl t ↦ absurd (cc t)
    | inr (h, n, k) ↦ (h, Elem-sort_findings _ h n, k)
  ]
