-- ===== src/Buddy/Alloc.antt =====
-- buddy_alloc_slice: it keeps the invariant, and hands out a free block of the right size.
use mathlib.Core.Path.{subst}
use rubberos.Base.{
  ℕ, zero, suc, ◌+◌, ◌-◌, ◌*◌, ◌^◌, ◌≤◌, ◌<◌, ◌≡◌, ◌≢◌, refl, true, false, some, List, arith, leb,
  ◌==◌, Bool-cases, inl, inr, ◌⊎◌, length, set, ap, ◌∙◌, sym, length-set,
}
use rubberos.Freec.{div_ceil}
use rubberos.Buddy.{
  unit, Buddy, Slice, null_slice, bitmap_at, bitmap_index_for_size, split_loop, take_block,
  alloc_loop, alloc_slice,
}
use rubberos.Buddy.Bits.{Bitmap, is_empty, set_1, set_0}
use rubberos.Buddy.Bits.First.{get_first_1_lem}
use rubberos.Buddy.Free.{Apart, Held, Apart-drop, Held-drop, half-clear, split}
use rubberos.Buddy.Invariant.{IsValid, data_addr, SameLayout}
use rubberos.Buddy.Size.{pow-size, block_start, div_ceil_bounds, bitmap_index_for_size_lem}
use rubberos.Buddy.Levels.{
  size, blocks, blocks-suc, Shape, Shape-at, free_of, weight, Shape-given_back, Shape-taken,
  free_of-given_back, free_of-taken, weight-given_back, weight-taken,
}

-- Block `block` of level `fit` is handed out: it is in range, neither it nor a block above or
-- within it is free afterwards, and its bytes are counted as used.
pub record Takes (fit block : ℕ) (buddy buddy' : Buddy) (s : Slice) : Type 0 where
  pub layout : SameLayout buddy buddy'
  pub valid : IsValid buddy'
  pub ptr_eq : s.ptr ≡ data_addr buddy + block * (unit * size fit)
  pub len_eq : s.len ≡ unit * size fit
  pub used_eq : buddy'.used ≡ buddy.used + unit * size fit
  pub room : block < blocks buddy.units fit
  pub held : Held (free_of buddy'.bitmaps) fit block

-- What the split loop leaves of the bitmaps, with block `block` of level `fit` in hand.
pub record IsSplit (units fit block whole : ℕ) (before after : List Bitmap) : Type 0 where
  pub len : length after ≡ length before
  pub shape : Shape units after
  pub apart : Apart (free_of after)
  pub held : Held (free_of after) fit block
  pub room : block < blocks units fit
  pub weighs : weight after + size fit ≡ weight before + whole

module _ (units : ℕ) where
  IsSplit-step :
      (bitmaps : List Bitmap) (h c : ℕ)
      → suc h < length bitmaps
      → Shape units bitmaps
      → Apart (free_of bitmaps)
      → Held (free_of bitmaps) (suc h) c
      → c < blocks units (suc h)
      → IsSplit units h
          (c * 2)
          (size (suc h))
          bitmaps
          (set bitmaps h (set_1 (bitmap_at bitmaps h) (c * 2 + 1)))
  unfolding size
  IsSplit-step bitmaps h c l s apart held r =
      let r' : c * 2 + 1 < blocks units h = omega (arith, blocks-suc units h) in
      let l' : h < length bitmaps = omega arith in
      let e = free_of-given_back units bitmaps s h (c * 2 + 1) l' r' in
      let (apart', held') = split (free_of bitmaps) apart h c held in
      let clear : free_of bitmaps h (c * 2 + 1) ≡ false =
        half-clear (free_of bitmaps) apart h c held in
      record {
        len = length-set bitmaps h _;
        shape = Shape-given_back units bitmaps s h (c * 2 + 1) l' r';
        apart = subst Apart (sym e) apart';
        held = subst (λ f. Held f h (c * 2)) (sym e) held';
        room = omega arith;
        weighs = omega (arith, weight-given_back units bitmaps s h (c * 2 + 1) l' r' clear);
      }

  split_loop_lem :
      (n fit block whole : ℕ) (bitmaps : List Bitmap)
      → fit + n < length bitmaps
      → Shape units bitmaps
      → Apart (free_of bitmaps)
      → Held (free_of bitmaps) (fit + n) block
      → block < blocks units (fit + n)
      → whole ≡ size (fit + n)
      → IsSplit units fit (block * size n) whole bitmaps (split_loop n fit block bitmaps)
  unfolding split_loop size
  split_loop_lem zero fit block whole bitmaps l s apart held r e =
      let base : fit + 0 ≡ fit = omega arith in
      let same : block * 1 ≡ block = omega arith in
      rw same (record {
        len = refl;
        shape = s;
        apart = apart;
        held = subst (λ k. Held (free_of bitmaps) k block) base held;
        room = omega (arith, ap (blocks units) base);
        weighs = omega (arith, ap size base);
      })
  split_loop_lem (suc n) fit block whole bitmaps l s apart held r e =
      let base : fit + suc n ≡ suc (fit + n) = omega arith in
      let step =
        IsSplit-step bitmaps (fit + n) block (omega arith) s apart
          (subst (λ k. Held (free_of bitmaps) k block) base held)
          (omega (arith, ap (blocks units) base)) in
      let rest : IsSplit units fit (block * 2 * size n) (size (fit + n))
          (set bitmaps (fit + n) (set_1 (bitmap_at bitmaps (fit + n)) (block * 2 + 1)))
          (split_loop n fit (block * 2)
            (set bitmaps (fit + n) (set_1 (bitmap_at bitmaps (fit + n)) (block * 2 + 1)))) =
        split_loop_lem n fit (block * 2) (size (fit + n))
          (set bitmaps (fit + n) (set_1 (bitmap_at bitmaps (fit + n)) (block * 2 + 1)))
          (omega (arith, step.len)) step.shape step.apart step.held step.room refl in
      let same : block * 2 * size n ≡ block * (2 * size n) = omega arith in
      rw (← same) (record {
        len = rest.len ∙ step.len;
        shape = rest.shape;
        apart = rest.apart;
        held = rest.held;
        room = rest.room;
        weighs = omega (arith, rest.weighs, step.weighs, ap size base);
      })

module _ (buddy : Buddy) (v : IsValid buddy) (fit idx : ℕ) (le : fit ≤ idx)
    (lt : idx < buddy.bitmaps_len) where
  -- A level with a free block serves the request.
  take_block_lem :
      is_empty (bitmap_at buddy.bitmaps idx) ≡ false
      → (buddy' : Buddy) × (s : Slice) × (block : ℕ) × (take_block buddy fit idx ≡ some (buddy', s))
        × Takes fit block buddy buddy' s
  unfolding take_block is_empty
  take_block_lem some_free =
      let bitmaps = buddy.bitmaps in
      let units = buddy.units in
      let l : idx < length bitmaps = omega (arith, v.all_levels) in
      let level = Shape-at units idx bitmaps v.shape l in
      let (block, found, free, inside, least) =
        get_first_1_lem (bitmap_at bitmaps idx) level.well (ground arith) in
      let r = level.in_range block free in
      let bitmaps₁ = set bitmaps idx (set_0 (bitmap_at bitmaps idx) block) in
      let e = free_of-taken units bitmaps v.shape idx block l r in
      let up_to : fit + (idx - fit) ≡ idx = omega arith in
      let parts : IsSplit units fit (block * size (idx - fit)) (size idx) bitmaps₁
          (split_loop (idx - fit) fit block bitmaps₁) =
        split_loop_lem units (idx - fit) fit block (size idx) bitmaps₁
          (omega (arith, length-set bitmaps idx (set_0 (bitmap_at bitmaps idx) block)))
          (Shape-taken units bitmaps v.shape idx block l r)
          (subst Apart (sym e) (Apart-drop (free_of bitmaps) v.apart idx block))
          (subst (λ k. Held (free_of bitmaps₁) k block) (sym up_to)
            (subst (λ f. Held f idx block) (sym e)
              (Held-drop (free_of bitmaps) v.apart idx block free)))
          (omega (arith, ap (blocks units) up_to)) (ap size (sym up_to)) in
      (
        record buddy {
          used = buddy.used + unit * 2 ^ fit;
          bitmaps = split_loop (idx - fit) fit block bitmaps₁;
        },
        record { ptr = data_addr buddy + block * (unit * 2 ^ idx); len = unit * 2 ^ fit },
        block * size (idx - fit),
        ground (arith, found, v.few_levels),
        record {
          layout = refl;
          valid = record {
            all_levels = parts.len ∙ length-set bitmaps idx _ ∙ v.all_levels;
            few_levels = v.few_levels;
            shape = parts.shape;
            apart = parts.apart;
            conserved = omega (
              arith,
              v.conserved,
              parts.weighs,
              pow-size fit,
              weight-taken units bitmaps v.shape idx block l r free,
            );
          };
          ptr_eq = ap (λ n. data_addr buddy + n) (block_start fit (idx - fit) idx block up_to);
          len_eq = omega (arith, pow-size fit);
          used_eq = omega (arith, pow-size fit);
          room = parts.room;
          held = parts.held;
        },
      )

-- The null slice, when no level from `idx` on has a free block, or a block of level `fit`.
abbrev pub Served : Buddy → ℕ → ℕ → Buddy × Slice → Type 0
Served buddy fit idx (buddy', s) =
    (s ≡ null_slice)
      × (buddy' ≡ buddy)
      × ((k : ℕ) → idx ≤ k → k < buddy.bitmaps_len → (bitmap_at buddy.bitmaps k).count ≡ 0)
    ⊎ ((block : ℕ) × Takes fit block buddy buddy' s)

module _ (buddy : Buddy) (v : IsValid buddy) where
  widen :
      (fit idx : ℕ) (r : Buddy × Slice)
      → is_empty (bitmap_at buddy.bitmaps idx) ≡ true
      → Served buddy fit (idx + 1) r
      → Served buddy fit idx r
  unfolding is_empty
  widen fit idx r empty (inr takes) = inr takes
  widen fit idx r empty (inl (null, unchanged, counts)) =
      let zero : (bitmap_at buddy.bitmaps idx).count ≡ 0 = ground arith in
      inl (
        null,
        unchanged,
        λ k lo hi. elim (Bool-cases (k == idx)) [
          | inl e ↦ let same : k ≡ idx = ground arith in rw same zero
          | inr e ↦ counts k (ground arith) hi
        ],
      )

  alloc_loop_lem :
      (n fit idx : ℕ)
      → fit ≤ idx
      → idx + n ≡ buddy.bitmaps_len
      → (r : Buddy × Slice) × (alloc_loop n buddy fit idx ≡ some r) × Served buddy fit idx r
  unfolding alloc_loop
  alloc_loop_lem zero fit idx le e =
      ((buddy, null_slice), refl, inl (refl, refl, λ k lo hi. absurd (omega arith)))
  alloc_loop_lem (suc n) fit idx le e = elim (Bool-cases (is_empty (bitmap_at buddy.bitmaps idx))) [
    | inl empty ↦
        let (r, found, served) = alloc_loop_lem n fit (idx + 1) (omega arith) (omega arith) in
        (r, rw empty found, widen fit idx r empty served)
    | inr some_free ↦
        let (buddy', s, block, found, takes) =
          take_block_lem buddy v fit idx le (omega arith) some_free in
        ((buddy', s), rw some_free found, inr (block, takes))
  ]

  -- A request to a valid allocator for one byte to 2^62 bytes never fails an assertion. It is served
  -- from a level whose blocks hold the request, level 0 or blocks of less than twice the request and a
  -- unit; or no such level has a free block, the answer is the null slice and nothing has changed.
  pub alloc_slice_lem :
      (len : ℕ)
      → len ≢ 0
      → len ≤ 2 ^ 62
      → (r : Buddy × Slice) × (fit : ℕ) × (alloc_slice buddy len ≡ some r)
        × (bitmap_index_for_size (div_ceil len unit * unit) ≡ some fit)
        × Served buddy fit fit r
        × (len ≤ unit * size fit)
        × ((fit ≡ 0) ⊎ (unit * size fit < 2 * (len + unit)))
  unfolding alloc_slice
  alloc_slice_lem len nz small =
      let (fit, fits, holds, least) =
        bitmap_index_for_size_lem (div_ceil len unit * unit)
          (ground (arith, div_ceil_bounds len)) in
      elim (Bool-cases (leb buddy.bitmaps_len fit)) [
        | inl large ↦ (
          (buddy, null_slice),
          fit,
          ground (arith, fits),
          fits,
          inl (refl, refl, λ k lo hi. absurd (ground arith)),
          ground (arith, div_ceil_bounds len),
          ground (arith, least, div_ceil_bounds len),
        )
        | inr inside ↦
            let (r, found, served) =
              alloc_loop_lem (buddy.bitmaps_len - fit) fit fit (omega arith) (ground arith) in
            (
              r,
              fit,
              ground (arith, fits, found),
              fits,
              served,
              ground (arith, div_ceil_bounds len),
              ground (arith, least, div_ceil_bounds len),
            )
      ]
