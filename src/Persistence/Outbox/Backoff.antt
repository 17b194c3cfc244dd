-- ===== src/Persistence/Outbox/Backoff.antt =====
-- The delays between attempts.
use native.Mathlib.Nat.{pow-suc}
use researchd_agent.Persistence.Outbox.{next_backoff_delay}
use researchd_agent.Prelude.{ℕ, zero, suc, ◌+◌, ◌^◌, ◌≤◌, min, ◌≡◌, arith}

pow_pos : (k : ℕ) → 1 ≤ 2 ^ k
pow_pos zero = omega arith
pow_pos (suc k) = rw pow-suc (omega (arith, pow_pos k))

at_most_six : (n : ℕ) → min (n + 6) 6 ≡ 6
at_most_six n = omega arith

pow_mono : (i j : ℕ) → i ≤ j → 2 ^ i ≤ 2 ^ j
pow_mono zero j h = omega (arith, pow_pos j)
pow_mono (suc i) zero h = absurd (omega arith)
pow_mono (suc i) (suc j) h =
    rw (pow-suc 2 i, pow-suc 2 j) (omega (arith, pow_mono i j (omega arith)))

-- Every delay lies between 5 and 300 seconds, more failures never shorten it, and from six attempts on it
-- is 300 seconds.
pub backoff_bounds :
    (m n : ℕ)
    → m ≤ n
    → (5 ≤ next_backoff_delay m)
      × (next_backoff_delay m ≤ next_backoff_delay n)
      × (next_backoff_delay n ≤ 300)
      × (next_backoff_delay (n + 6) ≡ 300)
unfolding next_backoff_delay
backoff_bounds m n h = (
  omega (arith, pow_pos (min m 6)),
  omega (arith, pow_mono (min m 6) (min n 6) (omega arith)),
  omega arith,
  rw (at_most_six n) (omega arith),
)
