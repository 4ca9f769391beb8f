-- ===== src/RbTree/Neighbours.antt =====
-- libcoll/src/rbtree.c: the neighbours of a key in a tree are those in the subtree on its side.
use rubberos.Base.{ℕ, ◌≢◌, ap, inl, inr, arith}
use rubberos.Base.Int.{ℤ, ◌<ℤ◌, pos_part, neg_part}
use rubberos.RbTree.{RbTree}
use rubberos.RbTree.Shape.{Shape, leaf, node, IsAt, IsSearch, IsLower, IsUpper, IsPlace}

pub lt_ne : (m n : ℤ) → m <ℤ n → m ≢ n
lt_ne m n lt e = absurd (omega (arith, ap pos_part e, ap neg_part e))

pub gt_ne : (m n : ℤ) → n <ℤ m → m ≢ n
gt_ne m n lt e = absurd (omega (arith, ap pos_part e, ap neg_part e))

-- What is known of a subtree is known of the tree, when the key is on its side.
module _ (t : RbTree) (key : ℤ) (l r : Shape) (a : ℕ) (ordered : IsSearch t (node l a r)) where
  pub IsLower-right :
      (x other : ℕ) → t.key a <ℤ key → IsLower t key a r x → IsLower t key other (node l a r) x
  IsLower-right x other below (inl (here, above)) = inr (
    inl here,
    rw here below,
    λ b h lt. elim h [
      | inl e ↦ rw (e, here) (omega arith)
      | inr (inl in_l) ↦ rw here (omega (arith, ordered.0 b in_l))
      | inr (inr in_r) ↦ absurd (omega (arith, above b in_r, lt))
    ],
  )
  IsLower-right x other below (inr (in_r, lt, most)) = inr (
    inr (inr in_r),
    lt,
    λ b h lt'. elim h [
      | inl e ↦ rw e (omega (arith, ordered.1 x in_r))
      | inr (inl in_l) ↦ omega (arith, ordered.0 b in_l, ordered.1 x in_r)
      | inr (inr in_r') ↦ most b in_r' lt'
    ],
  )

  pub IsUpper-right :
      (x other : ℕ) → t.key a <ℤ key → IsUpper t key other r x → IsUpper t key other (node l a r) x
  IsUpper-right x other below (inl (here, all_below)) = inl (
    here,
    λ b h. elim h [
      | inl e ↦ rw e below
      | inr (inl in_l) ↦ omega (arith, ordered.0 b in_l)
      | inr (inr in_r) ↦ all_below b in_r
    ],
  )
  IsUpper-right x other below (inr (in_r, gt, most)) = inr (
    inr (inr in_r),
    gt,
    λ b h lt'. elim h [
      | inl e ↦ absurd (omega (arith, rw e at lt'))
      | inr (inl in_l) ↦ absurd (omega (arith, ordered.0 b in_l, lt'))
      | inr (inr in_r') ↦ most b in_r' lt'
    ],
  )

  pub IsUpper-left :
      (x other : ℕ) → key <ℤ t.key a → IsUpper t key a l x → IsUpper t key other (node l a r) x
  IsUpper-left x other above (inl (here, all_below)) = inr (
    inl here,
    rw here above,
    λ b h lt. elim h [
      | inl e ↦ rw (e, here) (omega arith)
      | inr (inl in_l) ↦ absurd (omega (arith, all_below b in_l, lt))
      | inr (inr in_r) ↦ rw here (omega (arith, ordered.1 b in_r))
    ],
  )
  IsUpper-left x other above (inr (in_l, gt, most)) = inr (
    inr (inl in_l),
    gt,
    λ b h lt'. elim h [
      | inl e ↦ rw e (omega (arith, ordered.0 x in_l))
      | inr (inl in_l') ↦ most b in_l' lt'
      | inr (inr in_r) ↦ omega (arith, ordered.1 b in_r, ordered.0 x in_l)
    ],
  )

  pub IsLower-left :
      (x other : ℕ) → key <ℤ t.key a → IsLower t key other l x → IsLower t key other (node l a r) x
  IsLower-left x other above (inl (here, all_above)) = inl (
    here,
    λ b h. elim h [
      | inl e ↦ rw e above
      | inr (inl in_l) ↦ all_above b in_l
      | inr (inr in_r) ↦ omega (arith, ordered.1 b in_r)
    ],
  )
  IsLower-left x other above (inr (in_l, lt, most)) = inr (
    inr (inl in_l),
    lt,
    λ b h lt'. elim h [
      | inl e ↦ absurd (omega (arith, rw e at lt'))
      | inr (inl in_l') ↦ most b in_l' lt'
      | inr (inr in_r) ↦ absurd (omega (arith, ordered.1 b in_r, lt'))
    ],
  )

pub IsPlace-right :
    (t : RbTree) (key : ℤ) (l r : Shape) (a x : ℕ)
    → t.key a <ℤ key
    → IsAt t (t.right a) r
    → IsPlace t key a r x
    → IsPlace t key 0 (node l a r) x
IsPlace-right t key l leaf a x below empty here = (inl here, inr (rw here below, rw here empty))
IsPlace-right t key l (node _ _ _) a x below fields (h, side) = (inr (inr h), side)

pub IsPlace-left :
    (t : RbTree) (key : ℤ) (l r : Shape) (a x : ℕ)
    → key <ℤ t.key a
    → IsAt t (t.left a) l
    → IsPlace t key a l x
    → IsPlace t key 0 (node l a r) x
IsPlace-left t key leaf r a x above empty here = (inl here, inl (rw here above, rw here empty))
IsPlace-left t key (node _ _ _) r a x above fields (h, side) = (inr (inl h), side)
