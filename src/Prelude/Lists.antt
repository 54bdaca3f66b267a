-- ===== src/Prelude/Lists.antt =====
-- Tables as lists: the first row that passes a test, counting, updating, and predicates on rows.
use Prim.Native.Nat.{ℕ, suc}
use mathlib.Core.Path.{◌≡◌, refl, sym, subst}
use mathlib.Core.Logic.{◌⊎◌, inl, inr}
use mathlib.Core.Bool.{Bool, true, false, ◌||◌}
use mathlib.Core.Option.{Option, none, some}
use mathlib.Core.List.{List, [], ◌∷◌, ◌++◌}
use pe_review_agent.Prelude.Tests.{if◌then◌else◌, Bool-cases, some_inj, none_ne}

module _ {ℓ} {A : Type ℓ} where
  abbrev pub length : List A → ℕ
  length [] = 0
  length (x ∷ xs) = suc (length xs)

  unfoldable pub find? : (A → Bool) → List A → Option A
  find? p [] = none
  find? p (x ∷ xs) = if p x then some x else find? p xs

  unfoldable pub any : (A → Bool) → List A → Bool
  any p [] = false
  any p (x ∷ xs) = p x || any p xs

  unfoldable pub count_where : (A → Bool) → List A → ℕ
  count_where p [] = 0
  count_where p (x ∷ xs) = let n = count_where p xs in if p x then suc n else n

  -- UPDATE ... SET f WHERE p
  unfoldable pub update_where : (A → Bool) → (A → A) → List A → List A
  update_where p f [] = []
  update_where p f (x ∷ xs) = (if p x then f x else x) ∷ update_where p f xs

  -- The row that the test picks, a primary key's, is written back.
  unfoldable pub replace_first : (A → Bool) → A → List A → List A
  replace_first p y [] = []
  replace_first p y (x ∷ xs) = if p x then y ∷ xs else x ∷ replace_first p y xs

module _ {ℓ κ} {A : Type ℓ} where
  abbrev pub All : (A → Type κ) → List A → Type κ
  All P [] = Unit
  All P (x ∷ xs) = P x × All P xs

module _ {ℓ κ} {A : Type ℓ} (P : A → Type κ) where
  pub All-find? : (p : A → Bool) (xs : List A) {a : A} → All P xs → find? p xs ≡ some a → P a
  unfolding find?
  All-find? p [] h e = cc
  All-find? p (x ∷ xs) h e = elim (Bool-cases (p x)) [
    | inl t ↦ subst P (some_inj (rw t at e)) h.0
    | inr f ↦ All-find? p xs h.1 (rw f at e)
  ]

  pub All-replace_first :
      (p : A → Bool) (y : A) (xs : List A) → P y → All P xs → All P (replace_first p y xs)
  unfolding replace_first
  All-replace_first p y [] hy h = h
  All-replace_first p y (x ∷ xs) hy h = elim (Bool-cases (p x)) [
    | inl t ↦ rw t (hy, h.1)
    | inr f ↦ rw f (h.0, All-replace_first p y xs hy h.1)
  ]

  pub All-update_where :
      (p : A → Bool) (f : A → A) (xs : List A)
      → ((x : A) → p x ≡ true → P x → P (f x))
      → All P xs
      → All P (update_where p f xs)
  unfolding update_where
  All-update_where p f [] keep h = h
  All-update_where p f (x ∷ xs) keep h = elim (Bool-cases (p x)) [
    | inl t ↦ rw t (keep x t h.0, All-update_where p f xs keep h.1)
    | inr n ↦ rw n (h.0, All-update_where p f xs keep h.1)
  ]

  pub All-append : (xs ys : List A) → All P xs → All P ys → All P (xs ++ ys)
  All-append [] ys hx hy = hy
  All-append (x ∷ xs) ys hx hy = (hx.0, All-append xs ys hx.1 hy)

module _ {ℓ} {A : Type ℓ} where
  -- The row found passes the test.
  pub find?_passes : (p : A → Bool) (xs : List A) {a : A} → find? p xs ≡ some a → p a ≡ true
  unfolding find?
  find?_passes p [] e = cc
  find?_passes p (x ∷ xs) e = elim (Bool-cases (p x)) [
    | inl t ↦ subst (λ x. p x ≡ true) (some_inj (rw t at e)) t
    | inr f ↦ find?_passes p xs (rw f at e)
  ]

  -- No row is found exactly when every row fails the test.
  pub All-find?-none : (p : A → Bool) (xs : List A) → find? p xs ≡ none → All (λ x. p x ≡ false) xs
  unfolding find?
  All-find?-none p [] e = tt
  All-find?-none p (x ∷ xs) e = elim (Bool-cases (p x)) [
    | inl t ↦ absurd (cc (rw t at e))
    | inr f ↦ (f, All-find?-none p xs (rw f at e))
  ]

  pub All-any-false : (p : A → Bool) (xs : List A) → any p xs ≡ false → All (λ x. p x ≡ false) xs
  unfolding any
  All-any-false p [] e = tt
  All-any-false p (x ∷ xs) e = elim (Bool-cases (p x)) [
    | inl t ↦ absurd (cc (rw t at e))
    | inr f ↦ (f, All-any-false p xs (rw f at e))
  ]

module _ {ℓ κ μ} {A : Type ℓ} (P : A → Type κ) (Q : A → Type μ) where
  pub All-imp : (xs : List A) → ((x : A) → P x → Q x) → All P xs → All Q xs
  All-imp [] imp h = tt
  All-imp (x ∷ xs) imp h = (imp x h.0, All-imp xs imp h.1)

  pub All-zip : (xs : List A) → All P xs → All Q xs → All (λ x. P x × Q x) xs
  All-zip [] h k = tt
  All-zip (x ∷ xs) h k = ((h.0, k.0), All-zip xs h.1 k.1)

module _ {A : Type 0} where
  -- A row of the table.
  abbrev pub Elem : A → List A → Type 0
  Elem a [] = ⊥
  Elem a (x ∷ xs) = (a ≡ x) ⊎ Elem a xs

  pub Elem-find? : (p : A → Bool) (xs : List A) {a : A} → find? p xs ≡ some a → Elem a xs
  unfolding find?
  Elem-find? p [] e = none_ne e
  Elem-find? p (x ∷ xs) e = elim (Bool-cases (p x)) [
    | inl t ↦ inl (sym (some_inj (rw t at e)))
    | inr f ↦ inr (Elem-find? p xs (rw f at e))
  ]

  pub any_of_Elem : (p : A → Bool) (xs : List A) {a : A} → Elem a xs → p a ≡ true → any p xs ≡ true
  unfolding any
  any_of_Elem p [] m h = absurd m
  any_of_Elem p (x ∷ xs) (inl e) h = rw (subst (λ y. p y ≡ true) e h)
  any_of_Elem p (x ∷ xs) (inr m) h = elim (Bool-cases (p x)) [
    | inl t ↦ rw t
    | inr f ↦ rw f (any_of_Elem p xs m h)
  ]

module _ {κ} {A : Type 0} (P : A → Type κ) where
  pub All-Elem : (xs : List A) {a : A} → All P xs → Elem a xs → P a
  All-Elem [] h m = absurd m
  All-Elem (x ∷ xs) h (inl e) = subst P (sym e) h.0
  All-Elem (x ∷ xs) h (inr m) = All-Elem xs h.1 m

  pub All-of_Elem : (xs : List A) → ((a : A) → Elem a xs → P a) → All P xs
  All-of_Elem [] f = tt
  All-of_Elem (x ∷ xs) f = (f x (inl refl), All-of_Elem xs (λ a m. f a (inr m)))

module _ {A : Type 0} where
  pub Elem-update_where :
      (p : A → Bool) (f : A → A) (xs : List A) {a : A}
      → Elem a (update_where p f xs)
      → (x : A) × Elem x xs × (a ≡ (if p x then f x else x))
  unfolding update_where
  Elem-update_where p f [] m = absurd m
  Elem-update_where p f (x ∷ xs) (inl e) = (x, inl refl, e)
  Elem-update_where p f (x ∷ xs) (inr m) =
      let (y, n, e) = Elem-update_where p f xs m in (y, inr n, e)

  pub Elem-snoc : (xs : List A) (y : A) {a : A} → Elem a (xs ++ y ∷ []) → Elem a xs ⊎ (a ≡ y)
  Elem-snoc [] y (inl e) = inr e
  Elem-snoc [] y (inr m) = absurd m
  Elem-snoc (x ∷ xs) y (inl e) = inl (inl e)
  Elem-snoc (x ∷ xs) y (inr m) = elim (Elem-snoc xs y m) [ inl n ↦ inl (inr n) | inr e ↦ inr e ]

  pub Elem-last : (xs : List A) (y : A) → Elem y (xs ++ y ∷ [])
  Elem-last [] y = inl refl
  Elem-last (x ∷ xs) y = inr (Elem-last xs y)

  pub Elem-replace_first :
      (p : A → Bool) (y : A) (xs : List A) {x : A}
      → find? p xs ≡ some x
      → Elem y (replace_first p y xs)
  unfolding find? replace_first
  Elem-replace_first p y [] e = none_ne e
  Elem-replace_first p y (x ∷ xs) e = elim (Bool-cases (p x)) [
    | inl t ↦ rw t (inl refl)
    | inr f ↦ rw f (inr (Elem-replace_first p y xs (rw f at e)))
  ]

-- A row that was found and replaced by one that passes the same test is found again.
pub find?-replace_first {ℓ} :
    {A : Type ℓ} (p : A → Bool) (y : A) (xs : List A) {x : A}
    → find? p xs ≡ some x
    → p y ≡ true
    → find? p (replace_first p y xs) ≡ some y
unfolding find? replace_first
find?-replace_first p y [] e t = none_ne e
find?-replace_first p y (z ∷ xs) e t = elim (Bool-cases (p z)) [
  | inl s ↦ rw (s, t) refl
  | inr f ↦ rw f (rw f (find?-replace_first p y xs (rw f at e) t))
]
