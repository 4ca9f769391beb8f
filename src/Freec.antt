-- ===== src/Freec.antt =====
-- libfreec: the rounding division of libfreec/include/freec/stdlib.h; the memory functions are the
-- child module.
pub mod Memory
pub mod Sort
use rubberos.Base.{ℕ, ◌+◌, ◌/◌, ◌%◌, ◌==◌, if◌then◌else◌}

-- szdiv_ceil and uptrdiv_ceil
unfoldable pub div_ceil : ℕ → ℕ → ℕ
div_ceil x y = x / y + (if x % y == 0 then 0 else 1)
