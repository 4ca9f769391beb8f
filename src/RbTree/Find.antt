-- ===== src/RbTree/Find.antt =====
-- libcoll/src/rbtree.c: rbtree_find on a search tree.
use rubberos.Base.{ℕ, zero, suc, ◌<◌, ◌≡◌, refl, inl, inr, false, some, ◌==◌, arith, Bool-cases}
use rubberos.Base.Int.{ℤ, ltb_ℤ, ◌<ℤ◌, eq_of_parts}
use rubberos.RbTree.{RbTree, FindResult, find_loop, rbtree_find}
use rubberos.RbTree.Shape.{Shape, leaf, node, depth, IsAt, IsSearch, IsFound}
use rubberos.RbTree.Neighbours.{
  lt_ne, gt_ne, IsLower-right, IsLower-left, IsUpper-right, IsUpper-left, IsPlace-right,
  IsPlace-left,
}

module _ (t : RbTree) (key : ℤ) (l r : Shape) (a lower upper before : ℕ)
    (ordered : IsSearch t (node l a r)) where
  IsFound-right :
      (found : FindResult)
      → t.key a <ℤ key
      → IsAt t (t.right a) r
      → IsFound t key a upper a r found
      → IsFound t key lower upper before (node l a r) found
  IsFound-right found lt fields (inl (h, same, nowhere, e)) = inl (inr (inr h), same, nowhere, e)
  IsFound-right found lt fields (inr (absent, is_lower, is_upper, place)) = inr (
    λ b h. elim h [
      | inl e ↦ rw e (lt_ne (t.key a) key lt)
      | inr (inl in_l) ↦ lt_ne (t.key b) key (omega (arith, ordered.0 b in_l))
      | inr (inr in_r) ↦ absent b in_r
    ],
    IsLower-right t key l r a ordered found.lower lower lt is_lower,
    IsUpper-right t key l r a ordered found.upper upper lt is_upper,
    IsPlace-right t key l r a found.to_insert lt fields place,
  )

  IsFound-left :
      (found : FindResult)
      → key <ℤ t.key a
      → IsAt t (t.left a) l
      → IsFound t key lower a a l found
      → IsFound t key lower upper before (node l a r) found
  IsFound-left found gt fields (inl (h, same, nowhere, e)) = inl (inr (inl h), same, nowhere, e)
  IsFound-left found gt fields (inr (absent, is_lower, is_upper, place)) = inr (
    λ b h. elim h [
      | inl e ↦ rw e (gt_ne (t.key a) key gt)
      | inr (inl in_l) ↦ absent b in_l
      | inr (inr in_r) ↦ gt_ne (t.key b) key (omega (arith, ordered.1 b in_r))
    ],
    IsLower-left t key l r a ordered found.lower lower gt is_lower,
    IsUpper-left t key l r a ordered found.upper upper gt is_upper,
    IsPlace-left t key l r a found.to_insert gt fields place,
  )

find_loop_lem :
    (fuel : ℕ) (t : RbTree) (key : ℤ) (lower upper before at : ℕ) (s : Shape)
    → depth s < fuel
    → IsAt t at s
    → IsSearch t s
    → (r : FindResult) × (find_loop fuel t key lower upper before at ≡ some r)
      × IsFound t key lower upper before s r
unfolding find_loop depth
find_loop_lem zero t key lower upper before at s enough fields ordered = absurd (omega arith)
find_loop_lem (suc fuel) t key lower upper before at leaf enough fields ordered = (
  record { lower = lower; upper = upper; to_insert = before },
  rw fields refl,
  inr (λ b h. absurd h, inl (refl, λ b h. absurd h), inl (refl, λ b h. absurd h), refl),
)
find_loop_lem (suc fuel) t key lower upper before at (node l a r) enough fields ordered =
    let real : (a == 0) ≡ false = ground (arith, fields.1) in
    elim (Bool-cases (ltb_ℤ (t.key a) key)) [
      | inl below ↦
          let (found, run, spec) =
            find_loop_lem fuel t key a upper a (t.right a) r (omega arith) fields.3 ordered.3 in
          (
            found,
            rw (fields.0, real, below) run,
            IsFound-right t key l r a lower upper before ordered found (ground (arith, below))
                fields.3 spec,
          )
      | inr not_below ↦ elim (Bool-cases (ltb_ℤ key (t.key a))) [
        | inl above ↦
            let (found, run, spec) =
              find_loop_lem fuel t key lower a a (t.left a) l (omega arith) fields.2 ordered.2 in
            (
              found,
              rw (fields.0, real, not_below, above) run,
              IsFound-left t key l r a lower upper before ordered found (ground (arith, above))
                  fields.2 spec,
            )
        | inr not_above ↦ (
          record { lower = a; upper = a; to_insert = 0 },
          rw (fields.0, real, not_below, not_above) refl,
          inl (
            inl refl,
            refl,
            refl,
            eq_of_parts (t.key a) key (ground (arith, not_below, not_above)),
          ),
        )
      ]
    ]

-- On a search tree, with more fuel than the tree has nodes, rbtree_find ends. It gives the node with
-- the key as lower and as upper, and no place, if there is one. Otherwise it gives the nodes with
-- the greatest key below and the least key above, each of them NULL if there is none, and as the
-- place a node with no child on the key's side, which is NULL only for the empty tree.
pub rbtree_find_lem :
    (fuel : ℕ) (t : RbTree) (key : ℤ) (s : Shape)
    → depth s < fuel
    → IsAt t t.root s
    → IsSearch t s
    → (r : FindResult) × (rbtree_find fuel t key ≡ some r) × IsFound t key 0 0 0 s r
unfolding rbtree_find
rbtree_find_lem fuel t key s enough fields ordered =
    find_loop_lem fuel t key 0 0 0 t.root s enough fields ordered
