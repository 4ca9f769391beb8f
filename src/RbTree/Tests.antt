-- ===== src/RbTree/Tests.antt =====
-- Trees on the nodes 100 to 103, whose keys are 0 to 3.
use rubberos.Base.{
  ℕ, ◌-◌, ◌≡◌, refl, inl, inr, false, Option, some, ◌==◌, if◌then◌else◌, ◌>>=◌, arith,
}
use rubberos.Base.Int.{pos}
use rubberos.RbTree.{
  RbTree, FindResult, find_loop, rbtree_find, get_min_node, rotate_left, rotate_right, hang,
  get_sibling, is_red, is_blk_or_nil,
}
use rubberos.RbTree.Balance.{
  insertion_balancing, turn_outside, turn_grand, rbtree_insert, rbtree_remove, remove_loop,
  remove_outer, replace_node, removal_balancing, children_black, lift_red_sibling, turn_sibling,
  turn_parent,
}
use rubberos.RbTree.Hook.{IsHooked}
use rubberos.RbTree.Rotate.Right.{rotate_right-rotate_left}
use rubberos.RbTree.Shape.{Holds, Shape, leaf, node, depth, IsAt, IsSearch, IsFound}
use rubberos.RbTree.Find.{rbtree_find_lem}

abbrev no_nodes : RbTree
no_nodes = record {
  root = 0;
  parent = λ a. 0;
  left = λ a. 0;
  right = λ a. 0;
  red = λ a. false;
  key = λ a. pos (a - 100);
}

-- 102 is the root, 101 and 103 are below it, and 100 is below 101.
built : Option RbTree
unfolding rbtree_insert rbtree_find find_loop insertion_balancing turn_outside turn_grand
    rotate_left rotate_right hang get_sibling is_red is_blk_or_nil
built = do
  t₁ ← rbtree_insert 10 no_nodes 102
  t₂ ← rbtree_insert 10 t₁ 101
  t₃ ← rbtree_insert 10 t₂ 103
  rbtree_insert 10 t₃ 100

removed : Option RbTree
unfolding rbtree_remove remove_loop remove_outer replace_node removal_balancing children_black
    lift_red_sibling turn_sibling turn_parent rotate_left rotate_right hang get_sibling is_red
    is_blk_or_nil get_min_node
removed = do t ← built; rbtree_remove 10 t 102

-- the root that is left when the root was removed, and what is found under the keys 2 and 3
remains : Option (ℕ × ℕ × ℕ)
unfolding rbtree_find find_loop
remains = do
  t ← removed
  two ← rbtree_find 10 t (pos 2)
  three ← rbtree_find 10 t (pos 3)
  some (t.root, two.lower, three.upper)

-- The removed node is still found under its key, and the node with the key 3 is lost.
remains_run : remains ≡ some (101, 102, 0)
unfolding remains removed built
remains_run = refl

abbrev sample : RbTree
sample = record no_nodes {
  root = 102;
  left = λ a. if a == 102 then 101 else 0;
  right = λ a. if a == 102 then 103 else 0;
}

abbrev shape : Shape
shape = node (node leaf 101 leaf) 102 (node leaf 103 leaf)

sample-IsAt : IsAt sample 102 shape
sample-IsAt = omega arith

sample-IsSearch : IsSearch sample shape
sample-IsSearch = (
  λ b h. elim h [
    | inl e ↦ rw e (omega arith)
    | inr (inl h') ↦ absurd h'
    | inr (inr h') ↦ absurd h'
  ],
  λ b h. elim h [
    | inl e ↦ rw e (omega arith)
    | inr (inl h') ↦ absurd h'
    | inr (inr h') ↦ absurd h'
  ],
  (λ b h. absurd h, λ b h. absurd h, tt, tt),
  (λ b h. absurd h, λ b h. absurd h, tt, tt),
)

rbtree_find_lem_example :
    (r : FindResult) × (rbtree_find 10 sample (pos 5) ≡ some r)
    × IsFound sample (pos 5) 0 0 0 shape r
unfolding depth
rbtree_find_lem_example =
    rbtree_find_lem 10 sample (pos 5) shape (omega arith) sample-IsAt sample-IsSearch

sample_outside : ¬ (Holds 0 shape)
sample_outside h = ground arith

rotate_right-rotate_left_example :
    (t' : RbTree) × (t'' : RbTree) × ((rotate_left sample 102 ≡ some t')
      × IsAt t' 103 (node (node (node leaf 101 leaf) 102 leaf) 103 leaf)
      × IsSearch t' (node (node (node leaf 101 leaf) 102 leaf) 103 leaf)
      × IsHooked sample t' 102 103 0)
    × ((rotate_right t' 103 ≡ some t'')
        × IsAt t'' 102 shape
        × IsSearch t'' shape
        × IsHooked t' t'' 103 102 (t'.right 102))
rotate_right-rotate_left_example =
    rotate_right-rotate_left sample (node leaf 101 leaf) leaf leaf 102 103 sample-IsAt
      sample-IsSearch sample_outside
