-- ===== src/Buddy/Merge.antt =====
-- buddy_dealloc: what its loop, which merges a block with its free buddy, does to the bitmaps.
use mathlib.Core.Path.{subst, fun_ext}
use rubberos.Base.{
  ℕ, zero, suc, ◌+◌, ◌*◌, ◌/◌, ◌<◌, ◌≡◌, ◌≢◌, true, not, ◌&&◌, some, List, arith, ◌==◌, Bool-cases,
  inl, inr, length, set, ap, ◌∙◌, sym, length-set,
}
use rubberos.Buddy.{bitmap_at, buddy_index, merge_loop}
use rubberos.Buddy.Bits.{Bitmap, get_bit, set_1, set_0}
use rubberos.Buddy.Free.{drop, Apart, Held, Apart-drop, Apart-put, merge}
use rubberos.Buddy.Bits.Laws.{get_bit-set_1, get_bit-set_0, count-set_1, count-set_0}
use rubberos.Buddy.Levels.{
  IsLevel, IsLevel-set_1, IsLevel-set_0, inside, bitmap_at-set, weight-set, Shape-set, size, blocks,
  blocks-suc, Shape, Shape-at, free_of, weight, Shape-given_back, free_of-given_back,
  weight-given_back,
}

-- What the merge loop leaves of the bitmaps.
pub record IsMerged (units whole : ℕ) (before after : List Bitmap) : Type 0 where
  pub len : length after ≡ length before
  pub shape : Shape units after
  pub apart : Apart (free_of after)
  pub weighs : weight after ≡ weight before + whole

module _ (units : ℕ) (bitmaps : List Bitmap) (h c : ℕ) (l : h < length bitmaps)
    (s : Shape units bitmaps) (apart : Apart (free_of bitmaps)) (held : Held (free_of bitmaps) h c)
    (r : c < blocks units h) where
  -- The block in hand is given back as it is.
  give_back : IsMerged units (size h) bitmaps (set bitmaps h (set_1 (bitmap_at bitmaps h) c))
  give_back = record {
    len = length-set bitmaps h _;
    shape = Shape-given_back units bitmaps s h c l r;
    apart =
        subst Apart (sym (free_of-given_back units bitmaps s h c l r))
          (Apart-put (free_of bitmaps) apart h c held);
    weighs = weight-given_back units bitmaps s h c l r held.clear;
  }

  abbrev other : ℕ
  other = buddy_index c

  merged_level : Bitmap
  merged_level = set_0 (set_0 (set_1 (bitmap_at bitmaps h) c) other) c

  freed_other : get_bit (set_1 (bitmap_at bitmaps h) c) other ≡ free_of bitmaps h other
  freed_other =
      let level = Shape-at units h bitmaps s l in
      ground (
        arith,
        get_bit-set_1 (bitmap_at bitmaps h) c level.well (inside (blocks units h) _ level c r)
            other,
      )

  module _ (free : free_of bitmaps h other ≡ true) where
    other_in_range : other < blocks units h
    other_in_range = (Shape-at units h bitmaps s l).in_range other free

    merged_IsLevel : IsLevel (blocks units h) merged_level
    unfolding merged_level
    merged_IsLevel =
        let level = Shape-at units h bitmaps s l in
        IsLevel-set_0 (blocks units h) _
          (IsLevel-set_0 (blocks units h) _ (IsLevel-set_1 (blocks units h) _ level c r) other
            other_in_range)
          c r

    get_bit-merged : (j : ℕ) → get_bit merged_level j ≡ (not (j == other) && free_of bitmaps h j)
    unfolding merged_level
    get_bit-merged j =
        let n = blocks units h in
        let bm₀ = bitmap_at bitmaps h in
        let level₀ = Shape-at units h bitmaps s l in
        let level₁ = IsLevel-set_1 n bm₀ level₀ c r in
        let level₂ = IsLevel-set_0 n (set_1 bm₀ c) level₁ other other_in_range in
        let laws₁ = get_bit-set_1 bm₀ c level₀.well (inside n bm₀ level₀ c r) j in
        let laws₂ =
          get_bit-set_0 (set_1 bm₀ c) other level₁.well (inside n _ level₁ other other_in_range)
            j in
        let laws₃ =
          get_bit-set_0 (set_0 (set_1 bm₀ c) other) c level₂.well (inside n _ level₂ c r) j in
        let clear = held.clear in ground (arith, laws₁, laws₂, laws₃, clear)

    count-merged : merged_level.count + 1 ≡ (bitmap_at bitmaps h).count
    unfolding merged_level
    count-merged =
        let n = blocks units h in
        let bm₀ = bitmap_at bitmaps h in
        let level₀ = Shape-at units h bitmaps s l in
        let level₁ = IsLevel-set_1 n bm₀ level₀ c r in
        let in₁ = inside n _ level₁ other other_in_range in
        let level₂ = IsLevel-set_0 n (set_1 bm₀ c) level₁ other other_in_range in
        let hit : get_bit (set_1 bm₀ c) other ≡ true = freed_other ∙ free in
        let mine : get_bit (set_0 (set_1 bm₀ c) other) c ≡ true = ground (
          arith,
          get_bit-set_1 bm₀ c level₀.well (inside n bm₀ level₀ c r) c,
          get_bit-set_0 (set_1 bm₀ c) other level₁.well in₁ c,
          apart_buddies,
        ) in
        omega (
          arith,
          count-set_1 bm₀ c held.clear,
          count-set_0 (set_1 bm₀ c) other level₁.well in₁ hit,
          count-set_0 (set_0 (set_1 bm₀ c) other) c level₂.well (inside n _ level₂ c r) mine,
        )
      where
        apart_buddies : c ≢ buddy_index c
        apart_buddies = ground arith

    after_merge : List Bitmap
    after_merge = set bitmaps h merged_level

    Shape-merged : Shape units after_merge
    unfolding after_merge
    Shape-merged = Shape-set units h bitmaps merged_level s merged_IsLevel

    free_of-merged : free_of after_merge ≡ drop (free_of bitmaps) h other
    unfolding after_merge
    free_of-merged =
        fun_ext λ k.
          fun_ext λ j. ground (arith, bitmap_at-set bitmaps h k merged_level l, get_bit-merged j)

    weight-merged : weight after_merge + size h ≡ weight bitmaps
    unfolding after_merge
    weight-merged =
        omega (arith, weight-set bitmaps h merged_level l, ap (λ (t : ℕ). size h * t) count-merged)

    Apart-merged : Apart (free_of after_merge)
    Apart-merged = subst Apart (sym free_of-merged) (Apart-drop (free_of bitmaps) apart h other)

    Held-merged : Held (free_of after_merge) (h + 1) (c / 2)
    Held-merged =
        let e : suc h ≡ h + 1 = omega arith in
        subst (λ k. Held (free_of after_merge) k (c / 2)) e
          (subst (λ f. Held f (suc h) (c / 2)) (sym free_of-merged)
            (merge (free_of bitmaps) apart h c held free))

    room-merged : c / 2 < blocks units (h + 1)
    room-merged =
        let e : h + 1 ≡ suc h = omega arith in
        let r' = other_in_range in ground (arith, ap (blocks units) e, blocks-suc units h, r')

size-suc : (level : ℕ) → size (level + 1) ≡ 2 * size level
unfolding size
size-suc level = let e : level + 1 ≡ suc level = omega arith in ap size e

module _ (units : ℕ) where
  pub merge_loop_lem :
      (n current block : ℕ) (bitmaps : List Bitmap)
      → current + n + 1 ≡ length bitmaps
      → Shape units bitmaps
      → Apart (free_of bitmaps)
      → Held (free_of bitmaps) current block
      → block < blocks units current
      → (after : List Bitmap) × (merge_loop n current block bitmaps ≡ some after)
        × IsMerged units (size current) bitmaps after
  unfolding merge_loop after_merge merged_level
  merge_loop_lem zero current block bitmaps e s apart held r = (
    set bitmaps current (set_1 (bitmap_at bitmaps current) block),
    rw held.clear,
    give_back units bitmaps current block (omega arith) s apart held r,
  )
  merge_loop_lem (suc n) current block bitmaps e s apart held r =
      let l : current < length bitmaps = omega arith in
      let same = freed_other units bitmaps current block l s apart held r in
      elim (Bool-cases (free_of bitmaps current (buddy_index block))) [
        | inr alone ↦ (
          set bitmaps current (set_1 (bitmap_at bitmaps current) block),
          ground (arith, held.clear, same, alone),
          give_back units bitmaps current block l s apart held r,
        )
        | inl both ↦
            let joined = after_merge units bitmaps current block l s apart held r both in
            let (after, found, merged) =
              merge_loop_lem n (current + 1) (block / 2) joined
                (omega (
                  arith,
                  length-set bitmaps current
                      (merged_level units bitmaps current block l s apart held r),
                ))
                (Shape-merged units bitmaps current block l s apart held r both)
                (Apart-merged units bitmaps current block l s apart held r both)
                (Held-merged units bitmaps current block l s apart held r both)
                (room-merged units bitmaps current block l s apart held r both) in
            (
              after,
              rw (held.clear, same, both) found,
              record {
                len = merged.len ∙ length-set bitmaps current _;
                shape = merged.shape;
                apart = merged.apart;
                weighs = omega (
                  arith,
                  merged.weighs,
                  weight-merged units bitmaps current block l s apart held r both,
                  size-suc current,
                );
              },
            )
      ]
