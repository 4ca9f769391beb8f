-- ===== src/RbTree/Hook.antt =====
-- libcoll/src/rbtree.c: what a rotation does to the parents, and to the pointer from above.
use rubberos.Base.{ℕ, ◌≡◌, inl, inr, not, ◌&&◌, ◌==◌, if◌then◌else◌, arith, Bool-cases}
use rubberos.RbTree.{RbTree, hang}

-- The node `top` is now above `n` and hangs where `n` hung, and `inner` hangs below `n`, unless it is
-- NULL. No other parent changes, and no key.
pub record IsHooked (t t' : RbTree) (n top inner : ℕ) : Type 0 where
  pub parents :
      (x : ℕ)
      → t'.parent x ≡ (
          if x == top
          then t.parent n
          else if x == n
          then top
          else if not (inner == 0) && (x == inner)
          then n
          else t.parent x)
  pub root : t'.root ≡ (if t.parent n == 0 then top else t.root)
  pub left_above :
      t'.left (t.parent n)
      ≡ (if not (t.parent n == 0) && (t.left (t.parent n) == n) then top else t.left (t.parent n))
  pub right_above : t'.right (t.parent n) ≡ (
      if not (t.parent n == 0) && not (t.left (t.parent n) == n) then top else t.right (t.parent n))
  pub keys : t'.key ≡ t.key

-- `hang` after the three other steps of a rotation, on a tree `t₃` that has them.
pub hang-IsHooked :
    (t t₃ : RbTree) (n top inner : ℕ)
    → ((x : ℕ)
        → t₃.parent x ≡ (
            if x == top
            then t.parent n
            else if x == n
            then top
            else if not (inner == 0) && (x == inner)
            then n
            else t.parent x))
    → t₃.root ≡ t.root
    → t₃.left (t.parent n) ≡ t.left (t.parent n)
    → t₃.right (t.parent n) ≡ t.right (t.parent n)
    → t₃.key ≡ t.key
    → IsHooked t (hang t₃ (t.parent n) n top) n top inner
unfolding hang
hang-IsHooked t t₃ n top inner parents root left right keys =
    let p = t.parent n in
    elim (Bool-cases (p == 0)) [
      | inl none_above ↦ rw none_above (record {
        parents = parents;
        root = ground arith;
        left_above = ground arith;
        right_above = ground arith;
        keys = keys;
      })
      | inr above ↦ elim (Bool-cases (t₃.left p == n)) [
        | inl on_left ↦
            rw (above, on_left)
              (record {
                parents = parents;
                root = ground arith;
                left_above = ground arith;
                right_above = ground arith;
                keys = keys;
              })
        | inr on_right ↦
            rw (above, on_right)
              (record {
                parents = parents;
                root = ground arith;
                left_above = ground arith;
                right_above = ground arith;
                keys = keys;
              })
      ]
    ]
