-- ===== src/RbTree/Balance.antt =====
-- libcoll/src/rbtree.c: rbtree_insert and rbtree_remove with their balancing.
use rubberos.Base.{
  ℕ, zero, suc, Bool, true, false, ◌&&◌, not, Option, none, some, ◌==◌, if◌then◌else◌, ◌>>=◌,
}
use rubberos.Base.Int.{ltb_ℤ}
use rubberos.RbTree.{
  RbTree, set_parent, set_left, set_right, set_red, non_null, is_blk_or_nil, is_red, get_sibling,
  rbtree_find, get_min_node, rotate_left, rotate_right,
}

-- Cases 4 and 5, with a grandparent: the outer node of the two reds is turned to the outside, and
-- then the grandparent is turned down.
unfoldable pub turn_outside : RbTree → ℕ → ℕ → ℕ → Option (RbTree × ℕ)
turn_outside t node parent grand =
    let inner_left = (t.right parent == node) && (t.left grand == parent) in
    let inner_right = (t.left parent == node) && (t.right grand == parent) in
    let left = rotate_left t parent >>= λ t'. some (t', parent) in
    let right = rotate_right t parent >>= λ t'. some (t', parent) in
    if inner_left then left else if inner_right then right else some (t, node)

unfoldable pub turn_grand : RbTree → ℕ → Option RbTree
turn_grand t node = do
  parent ← non_null (t.parent node)
  grand ← non_null (t.parent parent)
  let t' = set_red (set_red t parent false) grand true
  if t'.left parent == node then rotate_right t' grand else rotate_left t' grand

unfoldable pub insertion_balancing : ℕ → RbTree → ℕ → Option RbTree
insertion_balancing zero t node = none
insertion_balancing (suc fuel) t node =
    let parent = t.parent node in
    let t₁ = set_red t node true in
    let grand = t₁.parent parent in
    let uncle = get_sibling t₁ parent in
    let recoloured = set_red (set_red (set_red t₁ parent false) uncle false) grand true in
    let up = insertion_balancing fuel recoloured grand in
    let turned : Option RbTree = do
      g ← non_null grand
      (t₂, lower) ← turn_outside t₁ node parent g
      turn_grand t₂ lower
    in if parent == 0
      then some (set_red t node false)
      else if not (t₁.red parent)
      then some t₁
      else if is_red t₁ uncle
      then up
      else turned

unfoldable pub rbtree_insert : ℕ → RbTree → ℕ → Option RbTree
rbtree_insert fuel t node =
    let single =
      record (set_red (set_right (set_left (set_parent t node 0) node 0) node 0) node false) {
        root = node;
      } in
    let deeper : Option RbTree = do
      r ← rbtree_find fuel t (t.key node)
      let at = r.to_insert
      let t₁ = set_right (set_left (set_parent t node at) node 0) node 0
      let t₂ = if ltb_ℤ (t.key node) (t.key at) then set_left t₁ at node else set_right t₁ at node
      let balanced = insertion_balancing fuel t₂ node
      if at == 0 then some t else balanced
    in if t.root == 0 then some single else deeper

-- The children of a sibling are black.
unfoldable pub children_black : RbTree → ℕ → Bool
children_black t node = is_blk_or_nil t (t.left node) && is_blk_or_nil t (t.right node)

-- Case 2: the tree, and the new sibling.
unfoldable pub lift_red_sibling : RbTree → ℕ → ℕ → Option (RbTree × ℕ)
lift_red_sibling t sibling parent =
    let t₁ = set_red (set_red t sibling false) parent true in
    let from_right = rotate_left t₁ parent >>= λ t₂. some (t₂, t₁.left sibling) in
    let from_left = rotate_right t₁ parent >>= λ t₂. some (t₂, t₁.right sibling) in
    if not (t.red sibling)
    then some (t, sibling)
    else if sibling == t₁.right parent
    then from_right
    else from_left

-- Case 5: the tree, and the new sibling.
unfoldable pub turn_sibling : RbTree → ℕ → ℕ → Option (RbTree × ℕ)
turn_sibling t sibling parent =
    let red_t = set_red t sibling true in
    let right_case : Option (RbTree × ℕ) =
      rotate_right (set_red red_t (t.left sibling) false) sibling >>= λ t₂.
      some (t₂, t₂.parent sibling) in
    let left_case : Option (RbTree × ℕ) =
      rotate_left (set_red red_t (t.right sibling) false) sibling >>= λ t₂.
      some (t₂, t₂.parent sibling) in
    if (sibling == t.right parent) && is_red t (t.left sibling) && is_blk_or_nil t (t.right sibling)
    then right_case
    else if (sibling == t.left parent)
        && is_red t (t.right sibling)
        && is_blk_or_nil t (t.left sibling)
    then left_case
    else some (t, sibling)

-- Case 6.
unfoldable pub turn_parent : RbTree → ℕ → ℕ → Option RbTree
turn_parent t sibling parent =
    let t₁ = set_red (set_red t sibling (t.red parent)) parent false in
    let from_right =
      non_null (t₁.right sibling) >>= λ child. rotate_left (set_red t₁ child false) parent in
    let from_left =
      non_null (t₁.left sibling) >>= λ child. rotate_right (set_red t₁ child false) parent in
    if sibling == t₁.right parent then from_right else from_left

unfoldable pub removal_balancing : ℕ → RbTree → ℕ → Option RbTree
removal_balancing zero t sibling = none
removal_balancing (suc fuel) t sibling =
    let balanced : Option RbTree = do
      parent ← non_null (t.parent sibling)
      (t₁, s) ← lift_red_sibling t sibling parent
      sibling' ← non_null s
      let black = children_black t₁ sibling'
      let reddened = set_red t₁ sibling' true
      let up = removal_balancing fuel reddened (get_sibling reddened parent)
      let turned = turn_sibling t₁ sibling' parent >>= λ (t₂, s₂). turn_parent t₂ s₂ parent
      let settled = if t₁.red parent && black then some (set_red reddened parent false) else turned
      if not (t₁.red parent) && black then up else settled
    in if sibling == 0 then some t else balanced

-- The second half of rbtree_remove, for a node with a child missing.
unfoldable pub remove_outer : ℕ → RbTree → ℕ → Option RbTree
remove_outer fuel t node =
    let parent = t.parent node in
    let child = if t.left node == 0 then t.right node else t.left node in
    let on_left = t.left parent == node in
    let sibling = if parent == 0 then 0 else if on_left then t.right parent else t.left parent in
    let t₁ =
      if parent == 0
      then record t { root = child }
      else if on_left
      then set_left t parent child
      else set_right t parent child in
    let balanced = removal_balancing fuel t₁ sibling in
    if not (child == 0)
    then some (set_red (set_parent t₁ child parent) child false)
    else if t₁.red node
    then some t₁
    else balanced

-- The first half of rbtree_remove from the removal of the successor on, with the parent that the node
-- had before.
unfoldable pub replace_node : RbTree → ℕ → ℕ → ℕ → RbTree
replace_node t node parent successor =
    let t₁ =
      if parent == 0
      then t
      else if t.left parent == node
      then set_left t parent successor
      else set_right t parent successor in
    let t₂ = set_parent t₁ successor parent in
    let t₃ = set_left t₂ successor (t₂.left node) in
    let t₄ = set_right t₃ successor (t₃.right node) in
    let t₅ = set_red t₄ successor (t₄.red node) in
    let t₆ = if t₅.left successor == 0 then t₅ else set_parent t₅ (t₅.left successor) successor in
    let t₇ = if t₆.right successor == 0 then t₆ else set_parent t₆ (t₆.right successor) successor in
    if t₇.root == node then record t₇ { root = successor } else t₇

-- `depth` counts the calls of rbtree_remove within each other: the successor has no left child.
unfoldable pub remove_loop : ℕ → ℕ → RbTree → ℕ → Option RbTree
remove_loop zero fuel t node = none
remove_loop (suc depth) fuel t node =
    let inner : Option RbTree = do
      successor ← get_min_node fuel t (t.right node)
      t₁ ← remove_loop depth fuel t successor
      some (replace_node t₁ node (t.parent node) successor)
    in let outer = remove_outer fuel t node in
      if not (t.left node == 0) && not (t.right node == 0) then inner else outer

unfoldable pub rbtree_remove : ℕ → RbTree → ℕ → Option RbTree
rbtree_remove fuel t node = remove_loop 2 fuel t node
