-- ===== src/Buddy/Dealloc.antt =====
-- buddy_dealloc: of a block that is handed out it keeps the invariant, and takes its bytes back.

use rubberos.Base.{
  ℕ, zero, suc, ◌+◌, ◌-◌, ◌*◌, ◌/◌, ◌%◌, ◌^◌, ◌≤◌, ◌<◌, ◌≡◌, ◌≢◌, refl, some, arith, ◌∙◌,
}
use rubberos.Freec.{div_ceil}
use rubberos.Buddy.{unit, Buddy, int_shift, bitmap_index_for_size, release, dealloc}
use rubberos.Buddy.Free.{Held}
use rubberos.Buddy.Invariant.{IsValid, data_addr, SameLayout}
use rubberos.Buddy.Size.{pow-size, div_ceil_bounds}
use rubberos.Buddy.Levels.{size, size_pos, blocks, free_of}
use rubberos.Buddy.Merge.{merge_loop_lem}

-- The blocks of a level lie within the units.
pub blocks-size :
    (units level block : ℕ) → block < blocks units level → (block + 1) * size level ≤ units
unfolding blocks size
blocks-size units zero block h = omega arith
blocks-size units (suc level) block h = omega (arith, blocks-size (units / 2) level block h)

pub div_ceil-add :
    (addr len : ℕ)
    → addr % unit ≡ 0
    → div_ceil (addr + len) unit * unit ≡ addr + div_ceil len unit * unit
unfolding div_ceil
div_ceil-add addr len h = ground arith

pub mul-div_self : (block len : ℕ) → 0 < len → block * len / len ≡ block
mul-div_self block len h = grind arith

-- The data area is whole units, from an address that is a multiple of the unit.
pub record IsAligned (buddy : Buddy) : Type 0 where
  pub start : data_addr buddy % unit ≡ 0
  pub whole : buddy.total_len - buddy.data_offset ≡ unit * buddy.units

-- what a block of `fit` that comes back does to the allocator
pub record Returned (fit : ℕ) (buddy buddy' : Buddy) : Type 0 where
  pub layout : SameLayout buddy buddy'
  pub valid : IsValid buddy'
  pub used_eq : buddy'.used + unit * size fit ≡ buddy.used

module _ (buddy : Buddy) (v : IsValid buddy) (a : IsAligned buddy) (fit block : ℕ)
    (held : Held (free_of buddy.bitmaps) fit block) (r : block < blocks buddy.units fit)
    (lt : fit < buddy.bitmaps_len) (in_use : unit * size fit ≤ buddy.used) where
  release_lem :
      (buddy' : Buddy) × (release buddy fit block (unit * 2 ^ fit) ≡ some buddy')
      × Returned fit buddy buddy'
  unfolding release
  release_lem =
      let (after, found, merged) =
        merge_loop_lem buddy.units (buddy.bitmaps_len - fit - 1) fit block buddy.bitmaps
          (omega (arith, v.all_levels)) v.shape v.apart held r in
      (
        record buddy { bitmaps = after; used = buddy.used - unit * 2 ^ fit },
        rw (found, release),
        record {
          layout = refl;
          valid = record {
            all_levels = merged.len ∙ v.all_levels;
            few_levels = v.few_levels;
            shape = merged.shape;
            apart = merged.apart;
            conserved = omega (arith, v.conserved, merged.weighs, pow-size fit);
          };
          used_eq = omega (arith, pow-size fit);
        },
      )

  start_block :
      (addr : ℕ)
      → addr / unit * unit ≡ addr
      → addr ≡ data_addr buddy + block * (unit * size fit)
      → (addr / unit * unit - data_addr buddy) / (unit * 2 ^ fit) ≡ block
  start_block addr base e =
      let offset : addr / unit * unit - data_addr buddy ≡ block * (unit * size fit) = omega arith in
      rw (offset, pow-size) (mul-div_self block (unit * size fit) (omega (arith, size_pos fit)))

  -- A block that is handed out, given back at its address under the length that was asked for, is
  -- taken back: no assertion fails, the invariant holds, and its bytes are no longer used.
  pub dealloc_lem :
      (addr len : ℕ)
      → addr ≡ data_addr buddy + block * (unit * size fit)
      → len ≢ 0
      → bitmap_index_for_size (div_ceil len unit * unit) ≡ some fit
      → div_ceil len unit * unit ≤ unit * size fit
      → (buddy' : Buddy) × (dealloc buddy addr len ≡ some buddy') × Returned fit buddy buddy'
  unfolding dealloc
  dealloc_lem addr len e nz index fits =
      let (buddy', found, returned) = release_lem in
      let aligned : addr % unit ≡ 0 = omega (arith, a.start) in
      let base : addr / unit * unit ≡ addr = omega arith in
      let end : div_ceil (addr + len) unit * unit ≡ addr + div_ceil len unit * unit =
        div_ceil-add addr len aligned in
      let span : div_ceil (addr + len) unit * unit - addr / unit * unit ≡ div_ceil len unit * unit =
        omega arith in
      let room : (block + 1) * size fit ≤ buddy.units = blocks-size buddy.units fit block r in
      let inside : (block + 1) * (unit * size fit) ≤ unit * buddy.units = omega (arith, room) in
      let low : len ≤ div_ceil len unit * unit = (div_ceil_bounds len).0 in
      let shift : int_shift fit ≡ some (unit * 2 ^ fit) = ground (arith, v.few_levels) in
      let start : (addr / unit * unit - data_addr buddy) / (unit * 2 ^ fit) ≡ block =
        start_block addr base e in
      let index' : bitmap_index_for_size (div_ceil (addr + len) unit * unit - addr / unit * unit)
          ≡ some fit =
        rw span index in
      (
        buddy',
        ground (arith, found, index', shift, start, inside, low, base, end, size_pos fit),
        returned,
      )
