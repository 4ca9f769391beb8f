-- ===== src/Buddy/Invariant.antt =====
-- What holds of a buddy allocator between two calls.
use rubberos.Base.{ℕ, ◌+◌, ◌*◌, ◌≤◌, ◌≡◌, length}
use rubberos.Buddy.{unit, Buddy}
use rubberos.Buddy.Free.{Apart}
use rubberos.Buddy.Levels.{Shape, free_of, weight}

-- The invariant: each level has its bitmap, no free block lies within another, and the free units
-- and the used bytes make up the whole. At most 19 levels, so that 4096 << level is an `int`.
pub record IsValid (buddy : Buddy) : Type 0 where
  pub all_levels : length buddy.bitmaps ≡ buddy.bitmaps_len
  pub few_levels : buddy.bitmaps_len ≤ 19
  pub shape : Shape buddy.units buddy.bitmaps
  pub apart : Apart (free_of buddy.bitmaps)
  pub conserved : unit * weight buddy.bitmaps + buddy.used ≡ unit * buddy.units

abbrev pub data_addr : Buddy → ℕ
data_addr buddy = buddy.start_addr + buddy.data_offset

-- only the bitmaps and the used bytes differ
abbrev pub SameLayout : Buddy → Buddy → Type 0
SameLayout buddy buddy' = buddy' ≡ record buddy { used = buddy'.used; bitmaps = buddy'.bitmaps }
