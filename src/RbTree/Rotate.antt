-- ===== src/RbTree/Rotate.antt =====
-- libcoll/src/rbtree.c: the rotations of a search tree, of which this file has rotate_left.
pub mod Right
use mathlib.Core.Path.{subst}
use rubberos.Base.{
  ℕ, ◌≡◌, ◌≢◌, refl, sym, ◌∙◌, ap, inl, inr, false, not, ◌&&◌, some, ◌==◌, if◌then◌else◌, arith,
  Bool-cases,
}
use rubberos.Base.Int.{◌<ℤ◌, pos_part, neg_part}
use rubberos.RbTree.{RbTree, put_at, set_parent, set_left, set_right, hang, rotate_left}
use rubberos.RbTree.Hook.{IsHooked, hang-IsHooked}
use rubberos.RbTree.Shape.{Shape, leaf, node, Holds, IsAt, IsSearch}

-- A tree whose own nodes keep their children stays where it is.
IsAt-frame :
    (t t' : RbTree) (at : ℕ) (s : Shape)
    → ((x : ℕ) → Holds x s → (t'.left x ≡ t.left x) × (t'.right x ≡ t.right x))
    → IsAt t at s
    → IsAt t' at s
IsAt-frame t t' at leaf same fields = fields
IsAt-frame t t' at (node l a r) same fields =
    let here = same a (inl refl) in
    (
      fields.0,
      fields.1,
      rw here.0 (IsAt-frame t t' (t.left a) l (λ x h. same x (inr (inl h))) fields.2),
      rw here.1 (IsAt-frame t t' (t.right a) r (λ x h. same x (inr (inr h))) fields.3),
    )

pub IsAt-moved :
    (t t' : RbTree) (at at' : ℕ) (s : Shape)
    → at' ≡ at
    → ((x : ℕ) → Holds x s → (t'.left x ≡ t.left x) × (t'.right x ≡ t.right x))
    → IsAt t at s
    → IsAt t' at' s
IsAt-moved t t' at at' s e same fields =
    subst (λ z. IsAt t' z s) (sym e) (IsAt-frame t t' at s same fields)

pub hang_lem :
    (t : RbTree) (p n r x : ℕ)
    → x ≢ p
    → ((hang t p n r).left x ≡ t.left x) × ((hang t p n r).right x ≡ t.right x)
unfolding hang
hang_lem t p n r x ne = elim (Bool-cases (p == 0)) [
  | inl top ↦ rw top (refl, refl)
  | inr below ↦ elim (Bool-cases (t.left p == n)) [
    | inl on_left ↦ rw (below, on_left) (ground arith, refl)
    | inr on_right ↦ rw (below, on_right) (refl, ground arith)
  ]
]

pub hang-key : (t : RbTree) (p n r : ℕ) → (hang t p n r).key ≡ t.key
unfolding hang
hang-key t p n r = elim (Bool-cases (p == 0)) [
  | inl top ↦ rw top refl
  | inr below ↦ elim (Bool-cases (t.left p == n)) [
    | inl on_left ↦ rw (below, on_left) refl
    | inr on_right ↦ rw (below, on_right) refl
  ]
]

-- The end of rotate_left, from the tree on in which the inner child has its new parent.
abbrev turned_left : RbTree → ℕ → ℕ → ℕ → RbTree
turned_left t n r p =
    hang (set_parent (set_left (set_parent (set_right t n (t.left r)) n r) r n) r p) p n r

-- What a rotation to the left does to the children, with `n` above and `r` below to the right.
pub record IsTurnedLeft (t : RbTree) (n r : ℕ) (t' : RbTree) : Type 0 where
  pub left_then : (x : ℕ) → x ≢ t.parent n → t'.left x ≡ (if x == r then n else t.left x)
  pub right_then : (x : ℕ) → x ≢ t.parent n → t'.right x ≡ (if x == n then t.left r else t.right x)
  pub key_same : t'.key ≡ t.key
  pub hooked : r ≢ t.parent n → n ≢ t.parent n → IsHooked t t' n r (t.left r)

turned_left-IsTurnedLeft :
    (t : RbTree) (parents : ℕ → ℕ) (n r : ℕ)
    → ((x : ℕ) → parents x ≡ (if not (t.left r == 0) && (x == t.left r) then n else t.parent x))
    → IsTurnedLeft t n r (turned_left (record t { parent = parents }) n r (t.parent n))
turned_left-IsTurnedLeft t parents n r inner =
    let p = t.parent n in
    let t₃ =
      set_parent
        (set_left (set_parent (set_right (record t { parent = parents }) n (t.left r)) n r) r n) r
        p in
    record {
      left_then = λ x ne. (hang_lem t₃ p n r x ne).0;
      right_then = λ x ne. (hang_lem t₃ p n r x ne).1;
      key_same = hang-key t₃ p n r;
      hooked = λ rp np.
          hang-IsHooked t t₃ n r (t.left r) (λ x. rw (inner x) refl) refl (ground arith)
            (ground arith) refl;
    }

rotate_left-IsTurnedLeft :
    (t : RbTree) (n r : ℕ)
    → t.right n ≡ r
    → r ≢ 0
    → (t' : RbTree) × (rotate_left t n ≡ some t') × IsTurnedLeft t n r t'
unfolding rotate_left
rotate_left-IsTurnedLeft t n r right real =
    let there : (r == 0) ≡ false = ground arith in
    elim (Bool-cases (t.left r == 0)) [
      | inl empty ↦ (
        turned_left t n r (t.parent n),
        rw (right, there, empty) refl,
        turned_left-IsTurnedLeft t t.parent n r (λ x. rw empty refl),
      )
      | inr inner ↦ (
        turned_left (set_parent t (t.left r) n) n r (t.parent n),
        rw (right, there, inner) refl,
        turned_left-IsTurnedLeft t (put_at t.parent (t.left r) n) n r (λ x. rw inner refl),
      )
    ]

pub key_ne : (t : RbTree) (a b : ℕ) → t.key a <ℤ t.key b → a ≢ b
key_ne t a b lt e =
    absurd (omega (arith, ap (λ x. pos_part (t.key x)) e, ap (λ x. neg_part (t.key x)) e))

pub IsSearch-key : (t t' : RbTree) (s : Shape) → t'.key ≡ t.key → IsSearch t s → IsSearch t' s
IsSearch-key t t' leaf same ordered = tt
IsSearch-key t t' (node l a r) same ordered = (
  λ b h. rw same (ordered.0 b h),
  λ b h. rw same (ordered.1 b h),
  IsSearch-key t t' l same ordered.2,
  IsSearch-key t t' r same ordered.3,
)

-- The order does not change when the tree is turned.
IsSearch-turned :
    (t : RbTree) (l m c : Shape) (n r : ℕ)
    → IsSearch t (node l n (node m r c))
    → IsSearch t (node (node l n m) r c)
IsSearch-turned t l m c n r ordered = (
  λ b h. elim h [
    | inl e ↦ rw e (ordered.1 r (inl refl))
    | inr (inl in_l) ↦ omega (arith, ordered.0 b in_l, ordered.1 r (inl refl))
    | inr (inr in_m) ↦ ordered.3.0 b in_m
  ],
  ordered.3.1,
  (ordered.0, λ b h. ordered.1 b (inr (inl h)), ordered.2, ordered.3.2),
  ordered.3.3,
)

-- In a search tree whose root `n` has the right child `r`, and hangs below a node outside of it or
-- below none, rotate_left succeeds; the tree then has the root `r` with `n` as its left child, the
-- same subtrees in the same order, is a search tree, and hangs where it hung;
-- the parents are those of this tree, and no other parent changes.
pub rotate_left-IsSearch :
    (t : RbTree) (l m c : Shape) (n r : ℕ)
    → IsAt t n (node l n (node m r c))
    → IsSearch t (node l n (node m r c))
    → ¬ (Holds (t.parent n) (node l n (node m r c)))
    → (t' : RbTree) × (rotate_left t n ≡ some t')
      × IsAt t' r (node (node l n m) r c)
      × IsSearch t' (node (node l n m) r c)
      × IsHooked t t' n r (t.left r)
rotate_left-IsSearch t l m c n r fields ordered outside =
    let (t', run, turned) = rotate_left-IsTurnedLeft t n r fields.3.0 fields.3.1 in
    let p_n : n ≢ t.parent n = λ e. outside (inl (sym e)) in
    let p_r : r ≢ t.parent n = λ e. outside (inr (inr (inl (sym e)))) in
    let n_r : n ≢ r = key_ne t n r (ordered.1 r (inl refl)) in
    let whole = node l n (node m r c) in
    let kept : (x : ℕ)
        → Holds x whole
        → x ≢ n
        → x ≢ r
        → (t'.left x ≡ t.left x) × (t'.right x ≡ t.right x) =
      λ x h xn xr.
        let xp : x ≢ t.parent n = λ e. outside (subst (λ z. Holds z whole) e h) in
        (ground (arith, turned.left_then x xp), ground (arith, turned.right_then x xp)) in
    let left_n : t'.left n ≡ t.left n = ground (arith, turned.left_then n p_n) in
    let right_n : t'.right n ≡ t.left r = ground (arith, turned.right_then n p_n) in
    let right_r : t'.right r ≡ t.right r = ground (arith, turned.right_then r p_r) in
    (
      t',
      run,
      (
        refl,
        fields.3.1,
        (
          ground (arith, turned.left_then r p_r),
          fields.1,
          IsAt-moved t t' (t.left n) (t'.left n) l left_n
              (λ x h.
                kept x (inr (inl h)) (key_ne t x n (ordered.0 x h))
                  (key_ne t x r (omega (arith, ordered.0 x h, ordered.1 r (inl refl)))))
              fields.2,
          IsAt-moved t t' (t.left r) (t'.right n) m right_n
              (λ x h.
                kept x (inr (inr (inr (inl h))))
                  (λ e. key_ne t n x (ordered.1 x (inr (inl h))) (sym e))
                  (key_ne t x r (ordered.3.0 x h)))
              fields.3.2,
        ),
        IsAt-moved t t' (t.right r) (t'.right r) c right_r
            (λ x h.
              kept x (inr (inr (inr (inr h))))
                (λ e. key_ne t n x (ordered.1 x (inr (inr h))) (sym e))
                (λ e. key_ne t r x (ordered.3.1 x h) (sym e)))
            fields.3.3,
      ),
      IsSearch-key t t' (node (node l n m) r c) turned.key_same
          (IsSearch-turned t l m c n r ordered),
      turned.hooked p_r p_n,
    )
