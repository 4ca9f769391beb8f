-- ===== src/Base/Table.antt =====
-- Facts about every byte, checked by evaluation.
use rubberos.Base.{ℕ, zero, suc, ◌<◌, ◌≡◌, Bool, true, false, arith, if◌then◌else◌}

-- the test succeeds on every number under the limit
unfoldable pub every_under : ℕ → (ℕ → Bool) → Bool
every_under zero test = true
every_under (suc limit) test = if test limit then every_under limit test else false

pub every_under_at :
    (limit : ℕ) (test : ℕ → Bool) (value : ℕ)
    → every_under limit test ≡ true
    → value < limit
    → test value ≡ true
unfolding every_under
every_under_at zero test value table small = absurd (omega arith)
every_under_at (suc limit) test value table small =
    let below = every_under_at limit test value in ground arith
