-- ===== src/ArrayList/Laws.antt =====
-- libcoll/src/arraylist.c: what insertion, removal and growth do to the contents.
use rubberos.Base.{
  ℕ, ◌+◌, ◌-◌, ◌%◌, ◌^◌, ◌≤◌, ◌<◌, ◌≡◌, ◌≢◌, refl, ap, ◌∙◌, ◌⊎◌, inl, inr, some, true, false, ltb,
  leb, ◌==◌, if◌then◌else◌, arith, Bool-cases,
}
use rubberos.Freec.Memory.{memcpy, memmove}
use rubberos.Freec.Memory.Laws.{memcpy_lem, memmove_lem}
use rubberos.Paging.{sub_64}
use rubberos.ArrayList.{
  ArrayList, TaggedPtr, null_ptr, reserve_without_copy, moved_bytes, opened_bytes, arraylist_insert,
  arraylist_remove,
}

-- the byte at the index
abbrev pub at : ArrayList → ℕ → ℕ
at list i = list.bytes (list.base + i)

pub record IsValid (list : ArrayList) : Type 0 where
  pub fits : list.size ≤ list.capacity
  pub real : list.base ≡ 0 → list.capacity ≡ 0
  pub in_memory : list.base + list.capacity < 2 ^ 64

-- The allocator gives memory of the length that was asked for, apart from the list's, and all of it
-- has an address.
pub record IsFresh (list : ArrayList) (len : ℕ) (given : TaggedPtr) : Type 0 where
  pub some_memory : given.ptr ≢ 0
  pub long : len ≤ given.len
  pub in_memory : given.ptr + given.len < 2 ^ 64
  pub apart : (given.ptr + given.len ≤ list.base) ⊎ (list.base + list.capacity ≤ given.ptr)

pub record IsInserted (list : ArrayList) (pos n : ℕ) (list' : ArrayList) : Type 0 where
  pub valid : IsValid list'
  pub size_eq : list'.size ≡ list.size + n
  pub before : (i : ℕ) → i < pos → at list' i ≡ at list i
  pub behind : (i : ℕ) → pos ≤ i → i < list.size → at list' (i + n) ≡ at list i

module _ (list : ArrayList) (pos n : ℕ) (le : pos ≤ list.size) where
  opened_bytes_lem :
      (i : ℕ)
      → (i < pos → opened_bytes list pos n (list.base + i) ≡ at list i)
        × (pos ≤ i → i < list.size → opened_bytes list pos n (list.base + (i + n)) ≡ at list i)
  unfolding opened_bytes
  opened_bytes_lem i =
      let start = list.base + pos in
      let move = λ (x : ℕ). memmove_lem list.bytes (start + n) start (list.size - pos) x in
      let back : pos ≤ i → start + (list.base + (i + n) - (start + n)) ≡ list.base + i =
        λ le'. omega arith in
      (
        λ lt. ground (arith, move (list.base + i)),
        λ from lt. ground (arith, move (list.base + (i + n)), ap list.bytes (back from)),
      )

  moved_bytes_lem :
      (given : TaggedPtr) (i : ℕ)
      → IsFresh list (list.size + n) given
      → list.size ≤ list.capacity
      → (i < pos
          → moved_bytes
              (record list { base = given.ptr; capacity = given.len })
              (record { ptr = list.base; len = list.capacity })
              pos
              n
              (given.ptr + i)
            ≡ at list i)
        × (pos ≤ i
            → i < list.size
            → moved_bytes
                (record list { base = given.ptr; capacity = given.len })
                (record { ptr = list.base; len = list.capacity })
                pos
                n
                (given.ptr + (i + n))
              ≡ at list i)
  unfolding moved_bytes
  moved_bytes_lem given i f fits =
      let m₁ = if ltb 0 pos then memcpy list.bytes given.ptr list.base pos else list.bytes in
      let first = λ (x : ℕ).
        memcpy_lem list.bytes given.ptr list.base pos x
          (elim f.apart [ inl low ↦ inl (omega (arith, f.long)) | inr high ↦ inr (omega arith) ]) in
      let second = λ (x : ℕ).
        memcpy_lem m₁ (given.ptr + pos + n) (list.base + pos) (list.size - pos) x
          (elim f.apart [ inl low ↦ inl (omega (arith, f.long)) | inr high ↦ inr (omega arith) ]) in
      let here : list.base + (given.ptr + i - given.ptr) ≡ list.base + i = omega arith in
      let back : pos ≤ i
          → list.base + pos + (given.ptr + (i + n) - (given.ptr + pos + n)) ≡ list.base + i =
        λ le'. omega arith in
      (
        λ lt. ground (arith, first (given.ptr + i), second (given.ptr + i), ap list.bytes here),
        λ from lt. ground (
          arith,
          f.apart,
          f.long,
          second (given.ptr + (i + n)),
          ap m₁ (back from),
          first (list.base + i),
        ),
      )

-- On a valid list, at a place in it, and with fresh memory to be had, arraylist_insert succeeds. It
-- gives the pointer to the place; the bytes before the place are as they were, the bytes behind it
-- have moved up by the length of the gap, the list is valid, and the old memory is given back if
-- and only if it was too small and there was any.
pub arraylist_insert_lem :
    (list : ArrayList) (pos n : ℕ) (given : TaggedPtr)
    → IsValid list
    → pos ≤ list.size
    → IsFresh list (list.size + n) given
    → (list' : ArrayList) × (freed : TaggedPtr) × (arraylist_insert list pos n given
        ≡ some (list', list'.base + pos, freed))
      × IsInserted list pos n list'
      × (freed ≡ (
          if leb (list.size + n) list.capacity
          then null_ptr
          else record { ptr = list.base; len = list.capacity }))
unfolding arraylist_insert reserve_without_copy
arraylist_insert_lem list pos n given v le f =
    let inside : leb pos list.size ≡ true = ground arith in
    let no_wrap : (list.size + n) % 2 ^ 64 ≡ list.size + n = omega (arith, f.long, f.in_memory) in
    elim (Bool-cases (leb (list.size + n) list.capacity)) [
      | inl room ↦
          let opened = opened_bytes_lem list pos n le in
          (
            record list { bytes = opened_bytes list pos n; size = list.size + n },
            null_ptr,
            rw (inside, no_wrap, room, no_wrap) refl,
            record {
              valid = record { fits = ground arith; real = v.real; in_memory = v.in_memory };
              size_eq = refl;
              before = λ i lt. (opened i).0 lt;
              behind = λ i from lt. (opened i).1 from lt;
            },
            rw room refl,
          )
      | inr full ↦
          let real : (given.ptr == 0) ≡ false = ground (arith, f.some_memory) in
          let list₁ = record list { base = given.ptr; capacity = given.len } in
          let old : TaggedPtr = record { ptr = list.base; len = list.capacity } in
          let valid : IsValid (record list₁ { size = list.size + n }) = record {
            fits = f.long;
            real = λ e. absurd (f.some_memory e);
            in_memory = f.in_memory;
          } in
          elim (Bool-cases (list.base == 0)) [
            | inl empty ↦
                let none_held : list.size ≡ 0 = ground (arith, v.fits, v.real) in
                (
                  record list₁ { bytes = opened_bytes list₁ pos n; size = list.size + n },
                  old,
                  rw (inside, no_wrap, full, real, empty, no_wrap) refl,
                  record {
                    valid = record { fits = f.long; real = valid.real; in_memory = f.in_memory };
                    size_eq = refl;
                    before = λ i lt. absurd (omega arith);
                    behind = λ i from lt. absurd (omega arith);
                  },
                  rw full refl,
                )
            | inr held ↦
                let moved = λ (i : ℕ). moved_bytes_lem list pos n le given i f v.fits in
                (
                  record list₁ { bytes = moved_bytes list₁ old pos n; size = list.size + n },
                  old,
                  rw (inside, no_wrap, full, real, held, no_wrap) refl,
                  record {
                    valid = record { fits = f.long; real = valid.real; in_memory = f.in_memory };
                    size_eq = refl;
                    before = λ i lt. (moved i).0 lt;
                    behind = λ i from lt. (moved i).1 from lt;
                  },
                  rw full refl,
                )
          ]
    ]

pub record IsRemoved (list : ArrayList) (pos n : ℕ) (list' : ArrayList) : Type 0 where
  pub valid : IsValid list'
  pub size_eq : list'.size + n ≡ list.size
  pub before : (i : ℕ) → i < pos → at list' i ≡ at list i
  pub behind : (i : ℕ) → pos ≤ i → i + n < list.size → at list' i ≡ at list (i + n)

pub arraylist_remove_lem :
    (list : ArrayList) (pos n : ℕ)
    → IsValid list
    → pos + n ≤ list.size
    → (list' : ArrayList) × (arraylist_remove list pos n ≡ some list') × IsRemoved list pos n list'
unfolding arraylist_remove
arraylist_remove_lem list pos n v le =
    let inside : leb (pos + n) list.size ≡ true = ground arith in
    let no_wrap : (pos + n) % 2 ^ 64 ≡ pos + n = omega (arith, v.fits, v.in_memory) in
    let from_pos : sub_64 list.size pos ≡ list.size - pos = ground arith in
    let from_end : sub_64 (list.size - pos) n ≡ list.size - pos - n = ground arith in
    let left : sub_64 list.size n ≡ list.size - n = ground arith in
    let start = list.base + pos in
    let move = λ (x : ℕ). memmove_lem list.bytes start (start + n) (list.size - pos - n) x in
    let from_above = λ (i : ℕ) (h : pos ≤ i).
      let e : start + n + (list.base + i - start) ≡ list.base + (i + n) = omega arith in e in
    (
      record list {
        bytes =
            if ltb (pos + n) list.size
            then memmove list.bytes start (start + n) (list.size - pos - n)
            else list.bytes;
        size = list.size - n;
      },
      rw (no_wrap, from_pos, from_end, left, inside) refl,
      record {
        valid = record { fits = omega (arith, v.fits); real = v.real; in_memory = v.in_memory };
        size_eq = omega arith;
        before = λ i lt. ground (arith, move (list.base + i));
        behind =
            λ i from lt. ground (arith, move (list.base + i), ap list.bytes (from_above i from));
      },
    )

-- On a valid list, at a place in it, and with fresh memory to be had, a gap that arraylist_insert
-- opens is closed again by arraylist_remove at the same place: the list then has its old length and
-- its old bytes, and is valid.
pub arraylist_remove-arraylist_insert :
    (list : ArrayList) (pos n : ℕ) (given : TaggedPtr)
    → IsValid list
    → pos ≤ list.size
    → IsFresh list (list.size + n) given
    → (list' list'' : ArrayList) × (freed : TaggedPtr) × (arraylist_insert list pos n given
        ≡ some (list', list'.base + pos, freed))
      × (arraylist_remove list' pos n ≡ some list'')
      × IsValid list''
      × (list''.size ≡ list.size)
      × ((i : ℕ) → i < list.size → at list'' i ≡ at list i)
arraylist_remove-arraylist_insert list pos n given v le f =
    let (list', freed, run, inserted, _) = arraylist_insert_lem list pos n given v le f in
    let (list'', run', removed) =
      arraylist_remove_lem list' pos n inserted.valid (omega (arith, inserted.size_eq)) in
    (
      list',
      list'',
      freed,
      run,
      run',
      removed.valid,
      omega (arith, inserted.size_eq, removed.size_eq),
      λ i lt. elim (Bool-cases (ltb i pos)) [
        | inl low ↦ removed.before i (ground arith) ∙ inserted.before i (ground arith)
        | inr high ↦
            removed.behind i (ground arith) (omega (arith, inserted.size_eq))
            ∙ inserted.behind i (ground arith) lt
      ],
    )
