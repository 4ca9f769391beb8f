-- ===== src/Freec/Memory/Laws.antt =====
-- What the memory functions do to the memory as a whole.
use rubberos.Base.{
  ℕ, zero, suc, ◌+◌, ◌-◌, ◌%◌, ◌≤◌, ◌<◌, ◌≡◌, refl, ◌⊎◌, inl, inr, Bool, true, false, not, ◌&&◌,
  Option, none, some, arith, ltb, leb, ◌==◌, if◌then◌else◌, ap, sym, ◌∙◌, Bool-cases,
}
use rubberos.Freec.Memory.{
  Memory, write, copy_up, copy_down, memcpy, memmove, fill_up, memset, find, memchr, memchr_not,
}

-- the address `x` lies in the `count` bytes at `d`
abbrev pub within : ℕ → ℕ → ℕ → Bool
within d count x = leb d x && ltb x (d + count)

copy_up_lem :
    (count d s : ℕ) (m : Memory) (x : ℕ)
    → (d ≤ s) ⊎ (s + count ≤ d)
    → copy_up count d s m x ≡ (if within d count x then m (s + (x - d)) else m x)
unfolding copy_up
copy_up_lem zero d s m x h = let out : within d 0 x ≡ false = ground arith in rw out refl
copy_up_lem (suc count) d s m x h =
    let rest =
      copy_up_lem count (d + 1) (s + 1) (write m d (m s)) x
        (elim h [ inl up ↦ inl (omega arith) | inr apart ↦ inr (omega arith) ]) in
    elim (Bool-cases (x == d)) [
      | inl here ↦ let start : s + (x - d) ≡ s = ground arith in ground (arith, rest, ap m start)
      | inr other ↦ elim (Bool-cases (within (d + 1) count x)) [
        | inl in_rest ↦
            let place : s + 1 + (x - (d + 1)) ≡ s + (x - d) = ground arith in
            ground (arith, rest, ap m place)
        | inr out ↦ ground (arith, rest)
      ]
    ]

copy_down_lem :
    (count d s : ℕ) (m : Memory) (x : ℕ)
    → s < d
    → copy_down count d s m x ≡ (if within d count x then m (s + (x - d)) else m x)
unfolding copy_down
copy_down_lem zero d s m x h = let out : within d 0 x ≡ false = ground arith in rw out refl
copy_down_lem (suc count) d s m x h =
    let rest = copy_down_lem count d s (write m (d + count) (m (s + count))) x h in
    elim (Bool-cases (x == d + count)) [
      | inl here ↦
          let place : s + count ≡ s + (x - d) = ground arith in ground (arith, rest, ap m place)
      | inr other ↦ ground (arith, rest)
    ]

-- Whether or not the ranges overlap, and whichever comes first, memmove leaves in the range at `dest`
-- the bytes that were in the range at `src`, and changes no other byte.
pub memmove_lem :
    (m : Memory) (dest src count x : ℕ)
    → memmove m dest src count x ≡ (if within dest count x then m (src + (x - dest)) else m x)
unfolding memmove
memmove_lem m dest src count x = elim (Bool-cases (leb dest src)) [
  | inl up ↦ rw up (copy_up_lem count dest src m x (inl (ground arith)))
  | inr down ↦ rw down (copy_down_lem count dest src m x (ground arith))
]

fill_up_lem :
    (count d byte : ℕ) (m : Memory) (x : ℕ)
    → fill_up count d byte m x ≡ (if within d count x then byte else m x)
unfolding fill_up
fill_up_lem zero d byte m x = let out : within d 0 x ≡ false = ground arith in rw out refl
fill_up_lem (suc count) d byte m x =
    let rest = fill_up_lem count (d + 1) byte (write m d byte) x in ground (arith, rest)

-- The answer is the address of the first of the bytes that passes the test, or none does.
abbrev pub IsFirst : (ℕ → Bool) → Memory → ℕ → ℕ → Option ℕ → Type 0
IsFirst test m p count found =
    (found ≡ none) × ((i : ℕ) → i < count → test (m (p + i)) ≡ false)
    ⊎ ((i : ℕ) × (found ≡ some (p + i))
        × (i < count)
        × (test (m (p + i)) ≡ true)
        × ((j : ℕ) → j < i → test (m (p + j)) ≡ false))

misses :
    (test : ℕ → Bool) (p : ℕ) (m : Memory) (bound count : ℕ)
    → bound ≡ suc count
    → test (m (p + 0)) ≡ false
    → ((i : ℕ) → i < count → test (m (p + 1 + i)) ≡ false)
    → (i : ℕ) → i < bound
    → test (m (p + i)) ≡ false
misses test p m bound count e first rest zero h = first
misses test p m bound count e first rest (suc i) h =
    let next : p + suc i ≡ p + 1 + i = omega arith in
    ap (λ a. test (m a)) next ∙ rest i (omega arith)

find_lem :
    (test : ℕ → Bool) (count p : ℕ) (m : Memory) → IsFirst test m p count (find test count p m)
unfolding find
find_lem test zero p m = inl (refl, λ i h. absurd (omega arith))
find_lem test (suc count) p m =
    let base : p + 0 ≡ p = omega arith in
    let next : (j : ℕ) → p + 1 + j ≡ p + suc j = λ j. omega arith in
    elim (Bool-cases (test (m p))) [
      | inl hit ↦
          inr (0, rw (find, hit, base) refl, omega arith, rw base hit, λ j h. absurd (omega arith))
      | inr miss ↦
          let first : test (m (p + 0)) ≡ false = rw base miss in
          elim (find_lem test count (p + 1) m) [
            | inl (nothing, missed) ↦
                inl (rw (find, miss) nothing, misses test p m (suc count) count refl first missed)
            | inr (i, found, inside, hits, missed) ↦ inr (
              suc i,
              rw (find, miss) (found ∙ ap (λ a. some a) (next i)),
              omega arith,
              ap (λ a. test (m a)) (sym (next i)) ∙ hits,
              misses test p m (suc i) i refl first missed,
            )
          ]
    ]

-- memchr finds the first byte among `count` that is the character as a byte, and gives the null
-- pointer exactly where there is none; memchr_not so the first byte that is another.
pub memchr_lem :
    (m : Memory) (ptr ch count : ℕ)
    → IsFirst (λ byte. byte == ch % 256) m ptr count (memchr m ptr ch count)
      × IsFirst (λ byte. not (byte == ch % 256)) m ptr count (memchr_not m ptr ch count)
unfolding memchr memchr_not
memchr_lem m ptr ch count = (
  find_lem (λ byte. byte == ch % 256) count ptr m,
  find_lem (λ byte. not (byte == ch % 256)) count ptr m,
)

-- Filling a range, and copying between two that do not overlap: every byte of the range has its
-- value, and no other byte changes.
pub memset-memcpy :
    (m : Memory) (dest src ch count x : ℕ)
    → (dest + count ≤ src) ⊎ (src + count ≤ dest)
    → (memset m dest ch count x ≡ (if within dest count x then ch % 256 else m x))
      × (memcpy m dest src count x ≡ (if within dest count x then m (src + (x - dest)) else m x))
unfolding memset memcpy
memset-memcpy m dest src ch count x apart = (
  fill_up_lem count dest (ch % 256) m x,
  copy_up_lem count dest src m x
      (elim apart [ inl below ↦ inl (omega arith) | inr above ↦ inr above ]),
)

pub memset_lem :
    (m : Memory) (dest ch count x : ℕ)
    → memset m dest ch count x ≡ (if within dest count x then ch % 256 else m x)
unfolding memset
memset_lem m dest ch count x = fill_up_lem count dest (ch % 256) m x

pub memcpy_lem :
    (m : Memory) (dest src count x : ℕ)
    → (dest + count ≤ src) ⊎ (src + count ≤ dest)
    → memcpy m dest src count x ≡ (if within dest count x then m (src + (x - dest)) else m x)
memcpy_lem m dest src count x apart = (memset-memcpy m dest src 0 count x apart).1
