-- ===== src/RbTree.antt =====
-- libcoll/src/rbtree.c: the red-black tree, whose nodes the caller owns. A node is an address, and the
-- tree has the fields of all nodes; the address 0 is NULL. `none` is a failed assertion, an access
-- through NULL, or fuel that has run out.
pub mod Balance
pub mod Shape
pub mod Neighbours
pub mod Find
pub mod Hook
pub mod Rotate
mod Tests
use rubberos.Base.{
  ℕ, zero, suc, Bool, true, false, ◌&&◌, ◌||◌, not, Option, none, some, ◌==◌, if◌then◌else◌, ◌>>=◌,
}
use rubberos.Base.Int.{ℤ, ltb_ℤ}

-- struct rbtree_find_result
pub record FindResult : Type 0 where
  pub lower : ℕ
  pub upper : ℕ
  pub to_insert : ℕ

-- struct rbtree, and struct rbtree_node by address
pub record RbTree : Type 0 where
  pub root : ℕ
  pub parent : ℕ → ℕ
  pub left : ℕ → ℕ
  pub right : ℕ → ℕ
  pub red : ℕ → Bool  -- `color == RED`
  pub key : ℕ → ℤ

module _ {ℓ} {A : Type ℓ} where
  -- `map[at] = value`
  abbrev pub put_at : (ℕ → A) → ℕ → A → ℕ → A
  put_at map at value a = if a == at then value else map a

abbrev pub set_parent : RbTree → ℕ → ℕ → RbTree
set_parent t node to = record t { parent = put_at t.parent node to }

abbrev pub set_left : RbTree → ℕ → ℕ → RbTree
set_left t node to = record t { left = put_at t.left node to }

abbrev pub set_right : RbTree → ℕ → ℕ → RbTree
set_right t node to = record t { right = put_at t.right node to }

abbrev pub set_red : RbTree → ℕ → Bool → RbTree
set_red t node to = record t { red = put_at t.red node to }

-- `assert(node != NULL)`, and an access to the node
abbrev pub non_null : ℕ → Option ℕ
non_null node = if node == 0 then none else some node

pub is_blk_or_nil : RbTree → ℕ → Bool
is_blk_or_nil t node = (node == 0) || not (t.red node)

pub is_red : RbTree → ℕ → Bool
is_red t node = not (node == 0) && t.red node

pub get_sibling : RbTree → ℕ → ℕ
get_sibling t node =
    let parent = t.parent node in
    if parent == 0 then 0 else if node == t.left parent then t.right parent else t.left parent

pub rbtree_init : RbTree → RbTree
rbtree_init t = record t { root = 0 }

-- The loop of rbtree_find: `node` is the node before `next`.
pub find_loop : ℕ → RbTree → ℤ → ℕ → ℕ → ℕ → ℕ → Option FindResult
find_loop zero t key lower upper node next = none
find_loop (suc fuel) t key lower upper node next =
    let right = find_loop fuel t key next upper next (t.right next) in
    let left = find_loop fuel t key lower next next (t.left next) in
    if next == 0
    then some (record { lower = lower; upper = upper; to_insert = node })
    else if ltb_ℤ (t.key next) key
    then right
    else if ltb_ℤ key (t.key next)
    then left
    else some (record { lower = next; upper = next; to_insert = 0 })

pub rbtree_find : ℕ → RbTree → ℤ → Option FindResult
rbtree_find fuel t key = find_loop fuel t key 0 0 0 t.root

pub get_min_node : ℕ → RbTree → ℕ → Option ℕ
get_min_node zero t node = none
get_min_node (suc fuel) t node =
    let rest = get_min_node fuel t (t.left node) in if t.left node == 0 then some node else rest

pub rbtree_first : ℕ → RbTree → Option ℕ
rbtree_first fuel t = if t.root == 0 then some 0 else get_min_node fuel t t.root

-- The loop of rbtree_next.
pub next_loop : ℕ → RbTree → ℕ → Option ℕ
next_loop zero t node = none
next_loop (suc fuel) t node =
    let parent = t.parent node in
    let rest = next_loop fuel t parent in
    if parent == 0 then some 0 else if t.left parent == node then some parent else rest

pub rbtree_next : ℕ → RbTree → ℕ → Option ℕ
rbtree_next fuel t node =
    if t.right node == 0 then next_loop fuel t node else get_min_node fuel t (t.right node)

-- `if (parent != NULL) ... else tree->root = to`, where `node` hangs below its parent
pub hang : RbTree → ℕ → ℕ → ℕ → RbTree
hang t parent node to =
    if parent == 0
    then record t { root = to }
    else if t.left parent == node
    then set_left t parent to
    else set_right t parent to

pub rotate_left : RbTree → ℕ → Option RbTree
rotate_left t node = do
  let parent = t.parent node
  right ← non_null (t.right node)
  let t₁ = if t.left right == 0 then t else set_parent t (t.left right) node
  let t₂ = set_parent (set_right t₁ node (t₁.left right)) node right
  let t₃ = set_parent (set_left t₂ right node) right parent
  some (hang t₃ parent node right)

pub rotate_right : RbTree → ℕ → Option RbTree
rotate_right t node = do
  let parent = t.parent node
  left ← non_null (t.left node)
  let t₁ = if t.right left == 0 then t else set_parent t (t.right left) node
  let t₂ = set_parent (set_left t₁ node (t₁.right left)) node left
  let t₃ = set_parent (set_right t₂ left node) left parent
  some (hang t₃ parent node left)
