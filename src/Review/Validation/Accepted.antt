-- ===== src/Review/Validation/Accepted.antt =====
-- What holds of each finding that src/pe_review_agent/review/validator.py accepts.
use pe_review_agent.Domain.{Name}
use pe_review_agent.Prelude.{
  Bool, Bool-cases, Elem, List, Option, any, arith, false, inl, inr, is_none, none, not, refl, some,
  some_inj, subst, true, ℕ, ◌==◌, ◌||◌, ◌≡◌, ◌≤◌, ◌⊎◌,
}
use pe_review_agent.Review.Validation.{
  Candidate, FindingLocation, ReviewContext, Worktree, anchor, anchor_on, changed_text, examine,
  file_anchor, is_eligible, is_noise, is_previous, parent_anchor, start_anchor, with_location,
}
use pe_review_agent.Review.Validation.Anchored.{Anchors, anchored-Anchors}

module _ (min_confidence : ℕ) (context : ReviewContext) (tree : Worktree)
    (fingerprint_of : Candidate → Name) where
  -- The text that a location stands in: the diff for the parent's side, a file of the worktree for
  -- the other.
  abbrev pub Stands : FindingLocation → (ℕ → Option ℕ) → Type 0
  Stands l lengths =
      ((l.is_parent_side ≡ true)
        × ((e : ℕ) → lengths e ≡ changed_text l.path true e context.changed_lines))
      ⊎ ((l.is_parent_side ≡ false)
          × (tree.is_file l.path ≡ true)
          × (tree.read_lines l.path l.start_line l.end_line ≡ some lengths))

  -- The location is as it was, for an earlier finding on the parent's side whose line the diff does not
  -- show, or was held to the text.
  abbrev pub Held : Bool → FindingLocation → FindingLocation → Type 0
  Held previous l k =
      ((previous ≡ true)
        × (l.is_parent_side ≡ true)
        × (changed_text l.path true l.start_line context.changed_lines ≡ none)
        × (k ≡ l))
      ⊎ ((lengths : ℕ → Option ℕ) × (n : ℕ) × Stands l lengths
          × (lengths l.start_line ≡ some n)
          × Anchors lengths n l k)

  parent_anchor-Held :
      (previous : Bool) (l k : FindingLocation) (o : Option ℕ)
      → l.is_parent_side ≡ true
      → changed_text l.path true l.start_line context.changed_lines ≡ o
      → parent_anchor min_confidence context tree fingerprint_of previous l o ≡ some k
      → Held previous l k
  unfolding parent_anchor
  parent_anchor-Held false l k none side e h = cc
  parent_anchor-Held true l k none side e h = inl (refl, side, e, cc)
  parent_anchor-Held previous l k (some n) side e h =
      let lengths = λ (x : ℕ). changed_text l.path true x context.changed_lines in
      inr (
        lengths,
        n,
        inl (side, λ x. refl),
        e,
        subst (Anchors lengths n l) (some_inj h) (anchored-Anchors lengths n l),
      )

  start_anchor-Held :
      (previous : Bool) (lengths : ℕ → Option ℕ) (l k : FindingLocation) (o : Option ℕ)
      → Stands l lengths
      → lengths l.start_line ≡ o
      → start_anchor min_confidence context tree fingerprint_of lengths l o ≡ some k
      → Held previous l k
  unfolding start_anchor
  start_anchor-Held previous lengths l k none s e h = cc
  start_anchor-Held previous lengths l k (some n) s e h =
      inr
        (lengths, n, s, e, subst (Anchors lengths n l) (some_inj h) (anchored-Anchors lengths n l))

  file_anchor-Held :
      (previous : Bool) (l k : FindingLocation) (o : Option (ℕ → Option ℕ))
      → l.is_parent_side ≡ false
      → tree.is_file l.path ≡ true
      → tree.read_lines l.path l.start_line l.end_line ≡ o
      → file_anchor min_confidence context tree fingerprint_of l o ≡ some k
      → Held previous l k
  unfolding file_anchor
  file_anchor-Held previous l k none n t e h = cc
  file_anchor-Held previous l k (some lengths) n t e h =
      start_anchor-Held previous lengths l k (lengths l.start_line) (inr (n, t, e)) refl h

  anchor_on-Held :
      (side : Bool) (f : Candidate) (k : FindingLocation)
      → f.location.is_parent_side ≡ side
      → anchor_on min_confidence context tree fingerprint_of side f ≡ some k
      → Held (is_previous min_confidence context tree fingerprint_of f) f.location k
  unfolding anchor_on
  anchor_on-Held true f k t h =
      let l = f.location in
      parent_anchor-Held (is_previous min_confidence context tree fingerprint_of f) l k
        (changed_text l.path true l.start_line context.changed_lines) t refl h
  anchor_on-Held false f k n h =
      let l = f.location in
      elim (Bool-cases (tree.is_file l.path)) [
        | inl t ↦
            file_anchor-Held (is_previous min_confidence context tree fingerprint_of f) l k
              (tree.read_lines l.path l.start_line l.end_line) n t refl (rw t at h)
        | inr m ↦ absurd (cc (rw m at h))
      ]

  -- The finding that was looked at, and the one that is kept of it.
  pub record IsKept (f g : Candidate) : Type 0 where
    pub confident : min_confidence ≤ f.confidence
    pub same_confidence : g.confidence ≡ f.confidence
    pub same_severity : g.severity ≡ f.severity
    pub changed_file :
        (any (λ p. p == f.location.path) context.changed_files
          || is_previous min_confidence context tree fingerprint_of f)
        ≡ true
    pub changed_line :
        (not (
            is_none (
              changed_text f.location.path f.location.is_parent_side f.location.start_line
                context.changed_lines))
          || is_previous min_confidence context tree fingerprint_of f)
        ≡ true
    pub inside : tree.is_inside f.location.path ≡ true
    pub meaningful : is_noise g.category ≡ false
    pub held : Held (is_previous min_confidence context tree fingerprint_of f) f.location g.location
    pub stamped : is_none g.fingerprint ≡ false

  eligible :
      (f : Candidate)
      → is_eligible min_confidence context tree fingerprint_of f ≡ true
      → (min_confidence ≤ f.confidence)
        × ((any (λ p. p == f.location.path) context.changed_files
              || is_previous min_confidence context tree fingerprint_of f)
            ≡ true)
        × ((not (
                is_none (
                  changed_text f.location.path f.location.is_parent_side f.location.start_line
                    context.changed_lines))
              || is_previous min_confidence context tree fingerprint_of f)
            ≡ true)
        × (tree.is_inside f.location.path ≡ true)
  unfolding is_eligible
  eligible f h = (ground arith, ground arith, ground arith, ground arith)

  located-IsKept :
      (f g : Candidate) (o : Option FindingLocation)
      → is_eligible min_confidence context tree fingerprint_of f ≡ true
      → anchor min_confidence context tree fingerprint_of f ≡ o
      → with_location min_confidence context tree fingerprint_of f o ≡ some g
      → IsKept f g
  unfolding with_location anchor
  located-IsKept f g none e a h = cc
  located-IsKept f g (some l) e a h =
      let (c, x, y, z) = eligible f e in
      elim (Bool-cases (is_noise f.category)) [
        | inl t ↦ absurd (cc (rw t at h))
        | inr n ↦
            let same = some_inj (rw n at h) in
            subst (IsKept f) same (record {
              confident = c;
              same_confidence = refl;
              same_severity = refl;
              changed_file = x;
              changed_line = y;
              inside = z;
              meaningful = n;
              held = anchor_on-Held f.location.is_parent_side f l refl a;
              stamped = refl;
            })
      ]

  pub examine-IsKept :
      (f g : Candidate) → examine min_confidence context tree fingerprint_of f ≡ some g → IsKept f g
  unfolding examine
  examine-IsKept f g h =
      elim (Bool-cases (is_eligible min_confidence context tree fingerprint_of f)) [
        | inl t ↦
            located-IsKept f g (anchor min_confidence context tree fingerprint_of f) t refl
              (rw t at h)
        | inr n ↦ absurd (cc (rw n at h))
      ]

  -- A finding that came of one of those that were looked at.
  abbrev pub IsAccepted : List Candidate → Candidate → Type 0
  IsAccepted findings g = (f : Candidate) × Elem f findings × IsKept f g
