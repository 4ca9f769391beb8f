-- ===== src/Buddy/Free.antt =====
-- The free blocks of a buddy allocator as a set of pairs of a level and an index, and the four
-- steps that the operations make with a block in hand. No free block lies within another.
use rubberos.Base.{
  ℕ, zero, suc, ◌+◌, ◌*◌, ◌/◌, ◌≡◌, refl, Bool, true, false, not, ◌&&◌, ◌||◌, arith, ◌==◌,
  Bool-cases, inl, inr,
}
use rubberos.Buddy.{buddy_index}

abbrev pub Free : Type 0
Free = ℕ → ℕ → Bool

-- the block that holds block `i`, `d` levels up
unfoldable pub up : ℕ → ℕ → ℕ
up zero i = i
up (suc d) i = up d (i / 2)

up-suc : (d i : ℕ) → up (suc d) i ≡ up d i / 2
unfolding up
up-suc zero i = refl
up-suc (suc d) i = up-suc d (i / 2)

abbrev pub put : Free → ℕ → ℕ → Free
put f l i k j = k == l && j == i || f k j

abbrev pub drop : Free → ℕ → ℕ → Free
drop f l i k j = not (k == l && j == i) && f k j

-- No block above a free block is free.
abbrev pub Apart : Free → Type 0
Apart f = (l d i : ℕ) → f l i ≡ true → f (l + suc d) (up (suc d) i) ≡ false

-- Block `c` of level `h` is in hand: neither it, nor one above or within it, is free.
pub record Held (f : Free) (h c : ℕ) : Type 0 where
  pub clear : f h c ≡ false
  pub above : (d : ℕ) → f (h + suc d) (up (suc d) c) ≡ false
  pub within : (k d i : ℕ) → k + suc d ≡ h → up (suc d) i ≡ c → f k i ≡ false

module _ (f : Free) (apart : Apart f) where
  pub Apart-drop : (l i : ℕ) → Apart (drop f l i)
  Apart-drop l i k d j e = ground (arith, apart k d j)

  -- A free block is taken.
  pub Held-drop : (l i : ℕ) → f l i ≡ true → Held (drop f l i) l i
  Held-drop l i e = record {
    clear = ground arith;
    above = λ d. ground (arith, apart l d i e);
    within = λ k d j level inside. elim (Bool-cases (f k j)) [
      | inl free ↦
          let clash : f (k + suc d) (up (suc d) j) ≡ false = apart k d j free in
          ground (arith, clash)
      | inr out ↦ ground arith
    ];
  }

  module _ (h c : ℕ) where
    -- The block in hand is given back.
    pub Apart-put : Held f h c → Apart (put f h c)
    Apart-put held l d i e = ground (arith, apart l d i, held.above d, held.within l d i)

    -- what is free neither above nor at a half of the block in hand
    half_above : Held f (suc h) c → (x d : ℕ) → x / 2 ≡ c → f (h + suc d) (up (suc d) x) ≡ false
    unfolding up
    half_above held x zero e = ground (arith, held.clear)
    half_above held x (suc d) e = ground (arith, held.above d)

    half_within :
        Held f (suc h) c
        → (x k d i : ℕ) → x / 2 ≡ c
        → k + suc d ≡ h
        → up (suc d) i ≡ x
        → f k i ≡ false
    half_within held x k d i half level inside =
        held.within k (suc d) i (omega arith) (ground (arith, up-suc (suc d) i))

    pub half-clear : Held f (suc h) c → f h (c * 2 + 1) ≡ false
    unfolding up
    half-clear held = ground (arith, held.within h 0 (c * 2 + 1))

    Apart-split : Held f (suc h) c → Apart (put f h (c * 2 + 1))
    Apart-split held l d i e =
        ground
          (arith, apart l d i, half_above held (c * 2 + 1) d, half_within held (c * 2 + 1) l d i)

    -- The upper half of the block in hand is given back, and the lower half stays in hand.
    pub split :
        Held f (suc h) c → Apart (put f h (c * 2 + 1)) × Held (put f h (c * 2 + 1)) h (c * 2)
    unfolding up
    split held = (
      Apart-split held,
      record {
        clear = ground (arith, held.within h 0 (c * 2));
        above = λ d. ground (arith, half_above held (c * 2) d);
        within = λ k d i level inside. ground (arith, half_within held (c * 2) k d i);
      },
    )

    merge_within :
        Held f h c
        → f h (buddy_index c) ≡ true
        → (k d i : ℕ) → k + suc d ≡ suc h
        → up (suc d) i ≡ c / 2
        → f k i ≡ true
        → drop f h (buddy_index c) k i ≡ false
    unfolding up
    merge_within held free k zero i level inside e = ground (arith, held.clear)
    merge_within held free k (suc d) i level inside e =
        ground (arith, apart k d i e, held.within k d i, up-suc (suc d) i)

    -- The buddy of the block in hand is free, and is taken too: their union is in hand.
    pub merge :
        Held f h c → f h (buddy_index c) ≡ true → Held (drop f h (buddy_index c)) (suc h) (c / 2)
    unfolding up
    merge held free = record {
      clear = ground (arith, held.above 0);
      above = λ d. ground (arith, held.above (suc d));
      within = λ k d i level inside. elim (Bool-cases (f k i)) [
        | inl some_free ↦ merge_within held free k d i level inside some_free
        | inr out ↦ ground arith
      ];
    }
