-- ===== src/RbTree/Shape.antt =====
-- libcoll/src/rbtree.c: the tree that the fields of the nodes make up, and its order. What a search
-- for a key can find in it.
use rubberos.Base.{ℕ, suc, ◌+◌, ◌≡◌, ◌≢◌, ◌⊎◌}
use rubberos.Base.Int.{ℤ, ◌<ℤ◌, ◌≤ℤ◌}
use rubberos.RbTree.{RbTree, FindResult}

-- the nodes of a tree
pub data Shape : Type 0 where
  leaf : Shape
  node : Shape → ℕ → Shape → Shape

abbrev pub Holds : ℕ → Shape → Type 0
Holds x leaf = ⊥
Holds x (node l a r) = (x ≡ a) ⊎ Holds x l ⊎ Holds x r

unfoldable pub depth : Shape → ℕ
depth leaf = 0
depth (node l a r) = suc (depth l + depth r)

-- The fields below `at` are those of the nodes.
abbrev pub IsAt : RbTree → ℕ → Shape → Type 0
IsAt t at leaf = at ≡ 0
IsAt t at (node l a r) = (at ≡ a) × (a ≢ 0) × IsAt t (t.left a) l × IsAt t (t.right a) r

abbrev pub IsSearch : RbTree → Shape → Type 0
IsSearch t leaf = Unit
IsSearch t (node l a r) =
    ((b : ℕ) → Holds b l → t.key b <ℤ t.key a)
    × ((b : ℕ) → Holds b r → t.key a <ℤ t.key b)
    × IsSearch t l
    × IsSearch t r

-- The node with the greatest key below `key`, or `other` if there is none.
abbrev pub IsLower : RbTree → ℤ → ℕ → Shape → ℕ → Type 0
IsLower t key other s x =
    ((x ≡ other) × ((b : ℕ) → Holds b s → key <ℤ t.key b))
    ⊎ (Holds x s × (t.key x <ℤ key) × ((b : ℕ) → Holds b s → t.key b <ℤ key → t.key b ≤ℤ t.key x))

-- The node with the least key above `key`, or `other` if there is none.
abbrev pub IsUpper : RbTree → ℤ → ℕ → Shape → ℕ → Type 0
IsUpper t key other s x =
    ((x ≡ other) × ((b : ℕ) → Holds b s → t.key b <ℤ key))
    ⊎ (Holds x s × (key <ℤ t.key x) × ((b : ℕ) → Holds b s → key <ℤ t.key b → t.key x ≤ℤ t.key b))

-- The place for a new node: a node of the tree with no child on the key's side, or `other` if the
-- tree is empty.
abbrev pub IsPlace : RbTree → ℤ → ℕ → Shape → ℕ → Type 0
IsPlace t key other leaf x = x ≡ other
IsPlace t key other (node l a r) x =
    Holds x (node l a r)
    × (((key <ℤ t.key x) × (t.left x ≡ 0)) ⊎ ((t.key x <ℤ key) × (t.right x ≡ 0)))

-- The key is found, or the neighbours of its place are.
abbrev pub IsFound : RbTree → ℤ → ℕ → ℕ → ℕ → Shape → FindResult → Type 0
IsFound t key lower upper before s r =
    (Holds r.lower s × (r.upper ≡ r.lower) × (r.to_insert ≡ 0) × (t.key r.lower ≡ key))
    ⊎ (((b : ℕ) → Holds b s → t.key b ≢ key)
        × IsLower t key lower s r.lower
        × IsUpper t key upper s r.upper
        × IsPlace t key before s r.to_insert)
