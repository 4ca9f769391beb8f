-- ===== src/RbTree/Rotate/Right.antt =====
-- libcoll/src/rbtree.c: rotate_right, and how it takes rotate_left back.
use mathlib.Core.Path.{subst}
use rubberos.Base.{
  ℕ, ◌≡◌, ◌≢◌, refl, sym, inl, inr, false, not, ◌&&◌, some, ◌==◌, if◌then◌else◌, arith, Bool-cases,
}
use rubberos.RbTree.{
  RbTree, put_at, set_parent, set_left, set_right, hang, rotate_left, rotate_right,
}
use rubberos.RbTree.Hook.{IsHooked, hang-IsHooked}
use rubberos.RbTree.Shape.{Shape, node, Holds, IsAt, IsSearch}
use rubberos.RbTree.Rotate.{
  IsAt-moved, hang_lem, hang-key, key_ne, IsSearch-key, rotate_left-IsSearch,
}

-- The end of rotate_right, from the tree on in which the inner child has its new parent.
abbrev turned_right : RbTree → ℕ → ℕ → ℕ → RbTree
turned_right t n l p =
    hang (set_parent (set_right (set_parent (set_left t n (t.right l)) n l) l n) l p) p n l

-- What a rotation to the right does to the children, with `n` above and `l` below to the left.
record IsTurnedRight (t : RbTree) (n l : ℕ) (t' : RbTree) : Type 0 where
  left_then : (x : ℕ) → x ≢ t.parent n → t'.left x ≡ (if x == n then t.right l else t.left x)
  right_then : (x : ℕ) → x ≢ t.parent n → t'.right x ≡ (if x == l then n else t.right x)
  key_same : t'.key ≡ t.key
  hooked : l ≢ t.parent n → n ≢ t.parent n → IsHooked t t' n l (t.right l)

turned_right-IsTurnedRight :
    (t : RbTree) (parents : ℕ → ℕ) (n l : ℕ)
    → ((x : ℕ) → parents x ≡ (if not (t.right l == 0) && (x == t.right l) then n else t.parent x))
    → IsTurnedRight t n l (turned_right (record t { parent = parents }) n l (t.parent n))
turned_right-IsTurnedRight t parents n l inner =
    let p = t.parent n in
    let t₃ =
      set_parent
        (set_right (set_parent (set_left (record t { parent = parents }) n (t.right l)) n l) l n) l
        p in
    record {
      left_then = λ x ne. (hang_lem t₃ p n l x ne).0;
      right_then = λ x ne. (hang_lem t₃ p n l x ne).1;
      key_same = hang-key t₃ p n l;
      hooked = λ lp np.
          hang-IsHooked t t₃ n l (t.right l) (λ x. rw (inner x) refl) refl (ground arith)
            (ground arith) refl;
    }

rotate_right-IsTurnedRight :
    (t : RbTree) (n l : ℕ)
    → t.left n ≡ l
    → l ≢ 0
    → (t' : RbTree) × (rotate_right t n ≡ some t') × IsTurnedRight t n l t'
unfolding rotate_right
rotate_right-IsTurnedRight t n l left real =
    let there : (l == 0) ≡ false = ground arith in
    elim (Bool-cases (t.right l == 0)) [
      | inl empty ↦ (
        turned_right t n l (t.parent n),
        rw (left, there, empty) refl,
        turned_right-IsTurnedRight t t.parent n l (λ x. rw empty refl),
      )
      | inr inner ↦ (
        turned_right (set_parent t (t.right l) n) n l (t.parent n),
        rw (left, there, inner) refl,
        turned_right-IsTurnedRight t (put_at t.parent (t.right l) n) n l (λ x. rw inner refl),
      )
    ]

-- The order does not change when the tree is turned.
IsSearch-turned :
    (t : RbTree) (c m r : Shape) (l n : ℕ)
    → IsSearch t (node (node c l m) n r)
    → IsSearch t (node c l (node m n r))
IsSearch-turned t c m r l n ordered = (
  ordered.2.0,
  λ b h. elim h [
    | inl e ↦ rw e (ordered.0 l (inl refl))
    | inr (inl in_m) ↦ ordered.2.1 b in_m
    | inr (inr in_r) ↦ omega (arith, ordered.0 l (inl refl), ordered.1 b in_r)
  ],
  ordered.2.2,
  (λ b h. ordered.0 b (inr (inr h)), ordered.1, ordered.2.3, ordered.3),
)

-- In a search tree whose root `n` has the left child `l`, and hangs below a node outside of it or
-- below none, rotate_right succeeds; the tree then has the root `l` with `n` as its right child, the
-- same subtrees in the same order, is a search tree, and hangs where it hung;
-- the parents are those of this tree, and no other parent changes.
pub rotate_right-IsSearch :
    (t : RbTree) (c m r : Shape) (l n : ℕ)
    → IsAt t n (node (node c l m) n r)
    → IsSearch t (node (node c l m) n r)
    → ¬ (Holds (t.parent n) (node (node c l m) n r))
    → (t' : RbTree) × (rotate_right t n ≡ some t')
      × IsAt t' l (node c l (node m n r))
      × IsSearch t' (node c l (node m n r))
      × IsHooked t t' n l (t.right l)
rotate_right-IsSearch t c m r l n fields ordered outside =
    let (t', run, turned) = rotate_right-IsTurnedRight t n l fields.2.0 fields.2.1 in
    let p_n : n ≢ t.parent n = λ e. outside (inl (sym e)) in
    let p_l : l ≢ t.parent n = λ e. outside (inr (inl (inl (sym e)))) in
    let l_n : l ≢ n = key_ne t l n (ordered.0 l (inl refl)) in
    let whole = node (node c l m) n r in
    let kept : (x : ℕ)
        → Holds x whole
        → x ≢ n
        → x ≢ l
        → (t'.left x ≡ t.left x) × (t'.right x ≡ t.right x) =
      λ x h xn xl.
        let xp : x ≢ t.parent n = λ e. outside (subst (λ z. Holds z whole) e h) in
        (ground (arith, turned.left_then x xp), ground (arith, turned.right_then x xp)) in
    let left_n : t'.left n ≡ t.right l = ground (arith, turned.left_then n p_n) in
    let right_n : t'.right n ≡ t.right n = ground (arith, turned.right_then n p_n) in
    let left_l : t'.left l ≡ t.left l = ground (arith, turned.left_then l p_l) in
    (
      t',
      run,
      (
        refl,
        fields.2.1,
        IsAt-moved t t' (t.left l) (t'.left l) c left_l
            (λ x h.
              kept x (inr (inl (inr (inl h)))) (key_ne t x n (ordered.0 x (inr (inl h))))
                (key_ne t x l (ordered.2.0 x h)))
            fields.2.2,
        (
          ground (arith, turned.right_then l p_l),
          fields.1,
          IsAt-moved t t' (t.right l) (t'.left n) m left_n
              (λ x h.
                kept x (inr (inl (inr (inr h)))) (key_ne t x n (ordered.0 x (inr (inr h))))
                  (λ e. key_ne t l x (ordered.2.1 x h) (sym e)))
              fields.2.3,
          IsAt-moved t t' (t.right n) (t'.right n) r right_n
              (λ x h.
                kept x (inr (inr h)) (λ e. key_ne t n x (ordered.1 x h) (sym e))
                  (λ e.
                    key_ne t l x (omega (arith, ordered.0 l (inl refl), ordered.1 x h)) (sym e)))
              fields.3,
        ),
      ),
      IsSearch-key t t' (node c l (node m n r)) turned.key_same
          (IsSearch-turned t c m r l n ordered),
      turned.hooked p_l p_n,
    )

Holds-turned :
    (l m c : Shape) (n r x : ℕ) → Holds x (node (node l n m) r c) → Holds x (node l n (node m r c))
Holds-turned l m c n r x (inl e) = inr (inr (inl e))
Holds-turned l m c n r x (inr (inl (inl e))) = inl e
Holds-turned l m c n r x (inr (inl (inr (inl h)))) = inr (inl h)
Holds-turned l m c n r x (inr (inl (inr (inr h)))) = inr (inr (inr (inl h)))
Holds-turned l m c n r x (inr (inr h)) = inr (inr (inr (inr h)))

-- In a search tree whose root `n` has the right child `r`, and hangs below a node outside of it or
-- below none, rotate_left of `n` succeeds and leaves the search tree with the root `r` whose left
-- child is `n`; rotate_right of `r` then succeeds and leaves the search tree of the start. Both have
-- the same subtrees in the same order. Both times the new root hangs where the old one hung, as the
-- root of the whole or as the same child of the same parent, the old root has the new one as its
-- parent, the root of the subtree in the middle has its new parent, and no other parent changes.
pub rotate_right-rotate_left :
    (t : RbTree) (l m c : Shape) (n r : ℕ)
    → IsAt t n (node l n (node m r c))
    → IsSearch t (node l n (node m r c))
    → ¬ (Holds (t.parent n) (node l n (node m r c)))
    → (t' : RbTree) × (t'' : RbTree) × ((rotate_left t n ≡ some t')
        × IsAt t' r (node (node l n m) r c)
        × IsSearch t' (node (node l n m) r c)
        × IsHooked t t' n r (t.left r))
      × ((rotate_right t' r ≡ some t'')
          × IsAt t'' n (node l n (node m r c))
          × IsSearch t'' (node l n (node m r c))
          × IsHooked t' t'' r n (t'.right n))
rotate_right-rotate_left t l m c n r fields ordered outside =
    let (t', run, at, search, hooked) = rotate_left-IsSearch t l m c n r fields ordered outside in
    let up : t'.parent r ≡ t.parent n = ground (arith, hooked.parents r) in
    let (t'', run', at', search', hooked') = rotate_right-IsSearch t' l m c n r at search (λ h.
      outside (
        Holds-turned l m c n r (t.parent n) (subst (λ z. Holds z (node (node l n m) r c)) up h))) in
    (t', t'', (run, at, search, hooked), (run', at', search', hooked'))
