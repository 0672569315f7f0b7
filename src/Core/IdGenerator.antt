-- ===== src/Core/IdGenerator.antt =====
-- core/src/id_generator.rs.
use jsonrpc_client_rs.Base.{ℕ, suc, zero, ◌+◌, ◌%◌, ◌<◌, ◌≡◌, ◌≢◌, ◌↔◌, ap, refl, arith}
use jsonrpc_client_rs.Core.Types.{RequestId, num}

-- 2 ^ 64.
abbrev pub u64_mod : ℕ
u64_mod = 18446744073709551616

pub record IdGenerator : Type 0 where
  pub next_id : ℕ

unfoldable pub new : IdGenerator
new = record { next_id = 1 }

-- The counter is a `u64`, which wraps.
unfoldable pub next_int : IdGenerator → ℕ × IdGenerator
next_int g = (g.next_id, record g { next_id = (g.next_id + 1) % u64_mod })

unfoldable pub next : IdGenerator → RequestId × IdGenerator
next g = (num g.next_id, record g { next_id = (g.next_id + 1) % u64_mod })

-- The state after a number of calls of `next`.
unfoldable pub after_calls : ℕ → IdGenerator → IdGenerator
after_calls zero g = g
after_calls (suc n) g = (next (after_calls n g)).1

after_calls-next_id : (n : ℕ) → n < u64_mod → (after_calls n new).next_id ≡ (n + 1) % u64_mod
unfolding after_calls new next
after_calls-next_id zero h = omega arith
after_calls-next_id (suc n) h = omega (arith, after_calls-next_id n (omega arith))

num_injective : (a b : ℕ) → num a ≡ num b → a ≡ b
num_injective a b h = ground arith

-- Two calls of next on one new generator, among its first 2 ^ 64 calls, give different ids.
pub next_distinct :
    (m n : ℕ) → m < n → n < u64_mod → (next (after_calls m new)).0 ≢ (next (after_calls n new)).0
unfolding next
next_distinct m n h k e = absurd (
    omega
      (arith, after_calls-next_id m (omega arith), after_calls-next_id n k, num_injective _ _ e))

after_calls_wraps : (n : ℕ) → (after_calls n new).next_id ≡ (n + 1) % u64_mod
unfolding after_calls new next
after_calls_wraps zero = refl
after_calls_wraps (suc n) = omega (arith, after_calls_wraps n)

-- The id of the call number n, counted from 0, and the bound of the counter.
pub next_issues :
    (n : ℕ)
    → ((next (after_calls n new)).0 ≡ num ((n + 1) % u64_mod))
      × ((after_calls n new).next_id < u64_mod)
unfolding next
next_issues n = (ap num (after_calls_wraps n), omega (arith, after_calls_wraps n))

-- The ids that a new generator gives after m and after n calls are equal exactly if m and n are
-- congruent modulo 2 ^ 64.
pub next_repeats :
    (m n : ℕ)
    → ((next (after_calls m new)).0 ≡ (next (after_calls n new)).0) ↔ (m % u64_mod ≡ n % u64_mod)
unfolding next
next_repeats m n = (
  λ e. omega (arith, after_calls_wraps m, after_calls_wraps n, num_injective _ _ e),
  λ e. ap num (omega (arith, e, after_calls_wraps m, after_calls_wraps n)),
)
