-- ===== src/RateLimit.antt =====
-- internal/ratelimit/fixed_window.go: the quota of one credential in one wall-clock minute. The answer
-- of Redis's INCR is an argument, `none` where it fails; EXPIRE only frees the key of a past minute.
-- A limit is not negative.
use enterprise_integration_s.Common.{
  ℕ, zero, suc, ◌+◌, ◌-◌, ◌≡◌, min, Bool, true, Option, none, some, arith, if◌then◌else◌, leb,
}

-- `Allow`
unfoldable pub allow : Option ℕ → ℕ → Bool × ℕ
allow none limit = (true, limit)
allow (some n) limit = (leb n limit, limit - n)

-- How many of the first k requests of a minute pass, where INCR counts them from 1.
abbrev pub passing : ℕ → ℕ → ℕ
passing limit zero = 0
passing limit (suc k) = passing limit k + (if (allow (some (suc k)) limit).0 then 1 else 0)

passing-min : (limit k : ℕ) → passing limit k ≡ min k limit
unfolding allow
passing-min limit zero = ground arith
passing-min limit (suc k) = ground (arith, passing-min limit k)

-- Of the first k requests of a minute exactly the first limit pass, and what the k-th is told to remain
-- is the limit less the requests that have passed.
pub allow-passing :
    (limit k : ℕ)
    → (passing limit k ≡ min k limit) × ((allow (some k) limit).1 + passing limit k ≡ limit)
unfolding allow
allow-passing limit k = (passing-min limit k, ground (arith, passing-min limit k))
