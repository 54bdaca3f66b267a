-- ===== src/Review/Validation/Anchored.antt =====
-- A location that src/pe_review_agent/review/validator.py holds to the lines of a text.
use pe_review_agent.Prelude.{
  Option, arith, if_intro, ltb, none, refl, some, subst, sym, ℕ, ◌≡◌, ◌≤◌,
}
use pe_review_agent.Review.Validation.{
  FindingLocation, anchor_end, anchor_last, anchor_start, anchor_text_end, anchored, degrade,
}

-- The range ends within its last line.
abbrev pub EndsWithin : (ℕ → Option ℕ) → Option ℕ → Option ℕ → Type 0
EndsWithin lengths none c = Unit
EndsWithin lengths (some e) c = (m : ℕ) × (n : ℕ) × (lengths e ≡ some m) × (c ≡ some n) × (n ≤ m)

-- A location that was held to the lines of a text.
pub record Anchors (lengths : ℕ → Option ℕ) (n : ℕ) (l k : FindingLocation) : Type 0 where
  pub same_path : k.path ≡ l.path
  pub same_side_of : k.is_parent_side ≡ l.is_parent_side
  pub same_line : k.start_line ≡ l.start_line
  pub starts_within : k.start_character ≤ n
  pub ends_within : EndsWithin lengths k.end_line k.end_character

-- A range whose start is in its line.
record Starts (n : ℕ) (l k : FindingLocation) : Type 0 where
  same_path : k.path ≡ l.path
  same_side_of : k.is_parent_side ≡ l.is_parent_side
  same_line : k.start_line ≡ l.start_line
  starts_within : k.start_character ≤ n

anchor_start-Starts : (n : ℕ) (l : FindingLocation) (o : Option ℕ) → Starts n l (anchor_start n l o)
unfolding anchor_start
anchor_start-Starts n l none = record {
  same_path = refl;
  same_side_of = refl;
  same_line = refl;
  starts_within = omega arith;
}
anchor_start-Starts n l (some e) =
    if_intro (Starts n l) (ltb n l.start_character) _ _
      (λ _. record {
        same_path = refl;
        same_side_of = refl;
        same_line = refl;
        starts_within = omega arith;
      })
      λ t. record {
        same_path = refl;
        same_side_of = refl;
        same_line = refl;
        starts_within = ground arith;
      }

module _ (lengths : ℕ → Option ℕ) (n : ℕ) (l k : FindingLocation) (s : Starts n l k) where
  degrade-Anchors : Anchors lengths n l (degrade k)
  degrade-Anchors = record {
    same_path = s.same_path;
    same_side_of = s.same_side_of;
    same_line = s.same_line;
    starts_within = omega arith;
    ends_within = tt;
  }

  anchor_last-Anchors :
      (e m : ℕ) (c : Option ℕ)
      → k.end_line ≡ some e
      → k.end_character ≡ c
      → lengths e ≡ some m
      → Anchors lengths n l (anchor_last m k c)
  anchor_last-Anchors e m none he hc hm = record {
    same_path = s.same_path;
    same_side_of = s.same_side_of;
    same_line = s.same_line;
    starts_within = s.starts_within;
    ends_within =
        subst (λ (x : Option ℕ). EndsWithin lengths x (some m)) (sym he)
          (m, m, hm, refl, omega arith);
  }
  anchor_last-Anchors e m (some c) he hc hm =
      if_intro (Anchors lengths n l) (ltb m c) _ _ (λ _. degrade-Anchors)
        λ t. record {
          same_path = s.same_path;
          same_side_of = s.same_side_of;
          same_line = s.same_line;
          starts_within = s.starts_within;
          ends_within =
              subst (λ (x : Option ℕ). EndsWithin lengths x k.end_character) (sym he)
                (m, c, hm, hc, ground arith);
        }

  anchor_text_end-Anchors :
      (e : ℕ) (o : Option ℕ)
      → k.end_line ≡ some e
      → lengths e ≡ o
      → Anchors lengths n l (anchor_text_end k o)
  anchor_text_end-Anchors e none he hm = degrade-Anchors
  anchor_text_end-Anchors e (some m) he hm = anchor_last-Anchors e m k.end_character he refl hm

  anchor_end-Anchors :
      (o : Option ℕ) → k.end_line ≡ o → Anchors lengths n l (anchor_end lengths k o)
  anchor_end-Anchors none he = record {
    same_path = s.same_path;
    same_side_of = s.same_side_of;
    same_line = s.same_line;
    starts_within = s.starts_within;
    ends_within = subst (λ (x : Option ℕ). EndsWithin lengths x k.end_character) (sym he) tt;
  }
  anchor_end-Anchors (some e) he = anchor_text_end-Anchors e (lengths e) he refl

pub anchored-Anchors :
    (lengths : ℕ → Option ℕ) (n : ℕ) (l : FindingLocation)
    → Anchors lengths n l (anchored lengths n l)
unfolding anchored
anchored-Anchors lengths n l =
    let started = anchor_start n l l.end_line in
    anchor_end-Anchors lengths n l started (anchor_start-Starts n l l.end_line) started.end_line
      refl
