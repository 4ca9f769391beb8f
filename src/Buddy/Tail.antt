-- ===== src/Buddy/Tail.antt =====
-- buddy_dealloc on the tail of a block.
use rubberos.Base.{
  ℕ, zero, suc, ◌+◌, ◌-◌, ◌*◌, ◌/◌, ◌%◌, ◌^◌, ◌≤◌, ◌<◌, ◌≡◌, refl, ap, sym, ◌∙◌, inl, inr, some,
  arith, ltb, leb, Bool-cases, true, false, ◌&&◌, ◌==◌,
}
use rubberos.Freec.{div_ceil}
use rubberos.Buddy.{unit, Buddy, dealloc, release, bitmap_index_for_size, int_shift}
use rubberos.Buddy.Levels.{size, blocks, size_pos}
use rubberos.Buddy.Size.{pow-size, bitmap_index_for_size_lem}
use rubberos.Buddy.Invariant.{IsValid, data_addr}
use rubberos.Buddy.Dealloc.{IsAligned, blocks-size}

size_double : (low d : ℕ) → 2 * size low ≤ size (low + suc d)
unfolding size
size_double low zero = let e : low + suc zero ≡ suc low = omega arith in omega (arith, ap size e)
size_double low (suc d) =
    let e : low + suc (suc d) ≡ suc (low + suc d) = omega arith in
    omega (arith, ap size e, size_double low d)

size_gap : (low high : ℕ) → low < high → 2 * size low ≤ size high
size_gap low high lt =
    let e : low + suc (high - low - 1) ≡ high = omega arith in
    omega (arith, size_double low (high - low - 1), ap size e)

-- More than half of a block has the level of the block.
bitmap_index_for_size-half :
    (len fit : ℕ)
    → len ≤ 2 ^ 63
    → len ≤ unit * size fit
    → unit * size fit < 2 * len
    → bitmap_index_for_size len ≡ some fit
bitmap_index_for_size-half len fit small le half =
    let (other, found, holds, least) = bitmap_index_for_size_lem len small in
    elim (Bool-cases (ltb other fit)) [
      | inl lower ↦ absurd (ground (arith, lower, size_gap other fit (ground arith)))
      | inr not_lower ↦ elim (Bool-cases (ltb fit other)) [
        | inl higher ↦ absurd (ground (arith, higher, least, size_gap fit other (ground arith)))
        | inr not_higher ↦ let same : other ≡ fit = ground arith in rw (← same) found
      ]
    ]

div_ceil-aligned : (x : ℕ) → x % unit ≡ 0 → div_ceil x unit * unit ≡ x
unfolding div_ceil
div_ceil-aligned x h = ground arith

mul-div_lt : (block len from : ℕ) → from < len → (block * len + from) / len ≡ block
mul-div_lt block len from h = grind arith

module _ (buddy : Buddy) (v : IsValid buddy) (a : IsAligned buddy) (fit block : ℕ)
    (r : block < blocks buddy.units fit) (lt : fit < buddy.bitmaps_len) where
  block_start :
      (from : ℕ)
      → from < unit * size fit
      → (data_addr buddy + block * (unit * size fit) + from - data_addr buddy) / (unit * 2 ^ fit)
        ≡ block
  block_start from inside =
      let offset : data_addr buddy + block * (unit * size fit) + from - data_addr buddy
          ≡ block * (unit * size fit) + from =
        omega arith in
      rw (offset, pow-size) (mul-div_lt block (unit * size fit) from inside)

  dealloc-release :
      (from : ℕ)
      → from % unit ≡ 0
      → from < unit * size fit
      → bitmap_index_for_size (unit * size fit - from) ≡ some fit
      → dealloc buddy (data_addr buddy + block * (unit * size fit) + from) (unit * size fit - from)
        ≡ release buddy fit block (unit * 2 ^ fit)
  unfolding dealloc
  dealloc-release from whole inside index =
      let start = data_addr buddy + block * (unit * size fit) in
      let aligned : (start + from) / unit * unit ≡ start + from = omega (arith, a.start) in
      let end : div_ceil (start + from + (unit * size fit - from)) unit * unit
          ≡ start + unit * size fit =
        div_ceil-aligned (start + from + (unit * size fit - from)) (omega (arith, a.start))
        ∙ omega arith in
      let span : start + unit * size fit - (start + from) ≡ unit * size fit - from = omega arith in
      let room : (block + 1) * size fit ≤ buddy.units = blocks-size buddy.units fit block r in
      let inside' : (block + 1) * (unit * size fit) ≤ unit * buddy.units = omega (arith, room) in
      let shift : int_shift fit ≡ some (unit * 2 ^ fit) = ground (arith, v.few_levels) in
      let some_left : (unit * size fit - from == 0) ≡ false = ground arith in
      let guard : (leb (data_addr buddy) (start + from)
            && ltb (start + from) (data_addr buddy + (buddy.total_len - buddy.data_offset))
            && ltb (data_addr buddy) (start + unit * size fit)
            && leb (start + unit * size fit)
                (data_addr buddy + (buddy.total_len - buddy.data_offset)))
          ≡ true =
        ground (arith, inside', a.whole) in
      let fits : ltb fit buddy.bitmaps_len ≡ true = ground arith in
      rw
        (aligned, end, some_left, guard, span, index, fits, shift, aligned, block_start from inside)
        refl

  -- Giving back more than half of a block, at its end, gives back the whole block.
  pub dealloc_tail :
      (from : ℕ)
      → from % unit ≡ 0
      → 2 * from < unit * size fit
      → unit * size fit ≤ 2 ^ 62
      → dealloc buddy (data_addr buddy + block * (unit * size fit) + from) (unit * size fit - from)
        ≡ dealloc buddy (data_addr buddy + block * (unit * size fit)) (unit * size fit)
  dealloc_tail from whole short small =
      let start = data_addr buddy + block * (unit * size fit) in
      let none_before : start + 0 ≡ start = omega arith in
      let all : unit * size fit - 0 ≡ unit * size fit = omega arith in
      let tail_index =
        bitmap_index_for_size-half (unit * size fit - from) fit (omega arith) (omega arith)
          (omega arith) in
      let index =
        bitmap_index_for_size-half (unit * size fit - 0) fit (omega arith) (omega arith)
          (omega (arith, size_pos fit)) in
      let block_given = dealloc-release 0 refl (omega arith) index in
      dealloc-release from whole (omega arith) tail_index
      ∙ sym (rw (none_before, all) at block_given)
