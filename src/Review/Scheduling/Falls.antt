-- ===== src/Review/Scheduling/Falls.antt =====
-- What each turn of src/pe_review_agent/review/scheduling.py brings nearer to its end: the work, the calls of
-- the phase's share, or the reads that are pending.
use pe_review_agent.Prelude.{
  List, [], arith, if_intro, length, ltb, min, not, refl, suc, ℕ, ◌++◌, ◌+◌, ◌-◌, ◌<◌, ◌||◌, ◌∷◌,
  ◌≡◌, ◌⊎◌,
}
use pe_review_agent.Review.Scheduling.{
  Limits, Phase, Schedule, Session, Usage, WorkItem, admit_from, is_idle, minimum_slots,
  new_session, protected, remaining_calls,
}

module _ (weight : WorkItem → ℕ) where
  abbrev pub weights : List WorkItem → ℕ
  weights [] = 0
  weights (item ∷ items) = suc (weight item) + weights items

  abbrev pub live : List Session → ℕ
  live [] = 0
  live (s ∷ ss) = suc (weight s.work) + live ss

  abbrev pub work_left : Schedule → ℕ
  work_left st = live st.active + weights st.waiting

abbrev pub reads_left : List Session → ℕ
reads_left [] = 0
reads_left (s ∷ ss) = length s.pending_tools + reads_left ss

-- The lexicographic order of the three.
abbrev pub Falls : (WorkItem → ℕ) → Limits → Phase → Schedule → Schedule → Type 0
Falls weight l phase st st' =
    (work_left weight st' < work_left weight st)
    ⊎ ((work_left weight st' ≡ work_left weight st)
        × ((remaining_calls l phase st'.usage < remaining_calls l phase st.usage)
            ⊎ ((remaining_calls l phase st'.usage ≡ remaining_calls l phase st.usage)
                × (reads_left st'.active < reads_left st.active))))

pub reads_left-append :
    (xs : List Session) (s : Session)
    → reads_left (xs ++ s ∷ []) ≡ reads_left xs + length s.pending_tools
reads_left-append [] s = omega arith
reads_left-append (x ∷ xs) s = rw (reads_left-append xs s) (omega arith)

module _ (weight : WorkItem → ℕ) where
  pub live-append :
      (xs : List Session) (s : Session)
      → live weight (xs ++ s ∷ []) ≡ live weight xs + suc (weight s.work)
  live-append [] s = omega arith
  live-append (x ∷ xs) s = rw (live-append xs s) (omega arith)

  pub weights-append :
      (xs ys : List WorkItem) → weights weight (xs ++ ys) ≡ weights weight xs + weights weight ys
  weights-append [] ys = omega arith
  weights-append (x ∷ xs) ys = rw (weights-append xs ys) (omega arith)

  -- Opening sessions leaves all three as they are.
  abbrev pub Same : List Session → List WorkItem → List Session × List WorkItem → Type 0
  Same active waiting r =
      (live weight (r.0) + weights weight (r.1) ≡ live weight active + weights weight waiting)
      × (reads_left (r.0) ≡ reads_left active)

  pub admit_from-Same :
      (l : Limits) (phase : Phase) (m : ℕ) (u : Usage) (n : ℕ) (active : List Session)
      (waiting : List WorkItem)
      → Same active waiting (admit_from l phase m u n active waiting)
  unfolding admit_from
  admit_from-Same l phase m u n active [] = (refl, refl)
  admit_from-Same l phase m u n active (item ∷ waiting) =
      let spare = remaining_calls l phase u - protected active in
      let minimum = minimum_slots l phase u in
      let s = new_session item (min minimum spare) in
      let ih = admit_from-Same l phase m u n (active ++ s ∷ []) waiting in
      let a = live-append active s in
      let b = reads_left-append active s in
      let P = Same active (item ∷ waiting) in
      if_intro P (ltb (n + length active) m) _ _
        (λ _.
          if_intro P (ltb spare minimum) _ _
            (λ _.
              if_intro P (not (is_idle active) || ltb spare 1) _ _ (λ _. (refl, refl))
                (λ _. (omega arith, omega arith)))
            (λ _. (omega (arith, ih.0), omega (arith, ih.1))))
        (λ _. (refl, refl))
