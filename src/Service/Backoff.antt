-- ===== src/Service/Backoff.antt =====
-- src/pe_review_agent/retry.py: the exponential backoff. One tick is one second; the jitter ratio is
-- a number of thousandths, at most 1000 by its settings; `random.uniform` is a parameter.
use pe_review_agent.Prelude.{
  Bool, Option, arith, if_intro, if◌then◌else◌, inl, inr, leb, min, none, some, ℕ, ◌*◌, ◌+◌, ◌-◌,
  ◌/◌, ◌<◌, ◌==◌, ◌^◌, ◌≢◌, ◌≤◌, ◌⊎◌,
}

pub record Backoff : Type 0 where
  pub base_seconds : ℕ
  pub max_seconds : ℕ
  pub jitter_thousandths : ℕ

-- The delay before jitter; `attempt - 1` stops at 0, as `max(0, attempt - 1)` does.
unfoldable pub raw_delay : Backoff → ℕ → ℕ
raw_delay b attempt = min b.max_seconds (b.base_seconds * 2 ^ (attempt - 1))

unfoldable pub jitter_delta : Backoff → ℕ → ℕ
jitter_delta b raw = raw * b.jitter_thousandths / 1000

-- `base_seconds` is a float, and an int from 2 ** 1024 on is too large to become one.
abbrev pub is_too_large : ℕ → Bool
is_too_large exponent = leb 1024 exponent

-- What holds of the outcome.
abbrev pub IsBounded : Backoff → ℕ → Option ℕ → Type 0
IsBounded b attempt none = 1024 < attempt
IsBounded b attempt (some delay) =
    (attempt ≤ 1024)
    × (delay ≤ 2 * b.max_seconds)
    × ((delay ≤ b.max_seconds) ⊎ (b.jitter_thousandths ≢ 0))

module _ (uniform : ℕ → ℕ → ℕ) where
  -- `exponential_backoff`; none is the OverflowError.
  unfoldable pub exponential_backoff : Backoff → ℕ → Option ℕ
  unfolding raw_delay jitter_delta
  exponential_backoff b attempt =
      let raw = raw_delay b attempt in
      let delta = jitter_delta b raw in
      if is_too_large (attempt - 1)
      then none
      else some (if b.jitter_thousandths == 0 then raw else uniform (raw - delta) (raw + delta))

  raw-le-max : (b : Backoff) (attempt : ℕ) → raw_delay b attempt ≤ b.max_seconds
  unfolding raw_delay
  raw-le-max b attempt = omega arith

  delta-le : (b : Backoff) (raw : ℕ) → b.jitter_thousandths ≤ 1000 → jitter_delta b raw ≤ raw
  unfolding jitter_delta
  delta-le b raw h = let m : raw * b.jitter_thousandths ≤ raw * 1000 = grind arith in omega arith

  -- The backoff raises an OverflowError exactly from attempt 1025 on. Otherwise, where `random.uniform`
  -- keeps to its range and the jitter ratio is at most 1, the delay is no longer than twice the longest
  -- one configured, and without jitter no longer than that.
  pub exponential_backoff-IsBounded :
      (b : Backoff) (attempt : ℕ)
      → b.jitter_thousandths ≤ 1000
      → ((low high : ℕ) → low ≤ high → (low ≤ uniform low high) × (uniform low high ≤ high))
      → IsBounded b attempt (exponential_backoff b attempt)
  unfolding exponential_backoff
  exponential_backoff-IsBounded b attempt j u =
      let raw = raw_delay b attempt in
      let delta = jitter_delta b raw in
      let r = raw-le-max b attempt in
      let d = delta-le b raw j in
      let (lo, hi) = u (raw - delta) (raw + delta) (omega arith) in
      if_intro (IsBounded b attempt) (is_too_large (attempt - 1)) _ _ (λ t. ground arith)
        (λ n.
          if_intro (λ (x : ℕ). IsBounded b attempt (some x)) (b.jitter_thousandths == 0) _ _
            (λ t. (ground arith, omega arith, inl r))
            (λ m. (ground arith, omega arith, inr (ground arith))))
