-- ===== src/ArrayList.antt =====
-- libcoll/src/arraylist.c: a growing array of bytes. The bytes are those of Freec.Memory. The allocator
-- is called through function pointers: what its `alloc` gives, or its `shrink`, is an argument, and
-- the memory that its `dealloc` is called with is a part of the result, with 0 for no call. `none` is
-- a failed assertion.
pub mod Laws
mod Tests
use rubberos.Base.{
  ℕ, ◌+◌, ◌-◌, ◌*◌, ◌%◌, ◌^◌, Option, none, some, ltb, leb, ◌==◌, if◌then◌else◌, ◌>>=◌,
}
use rubberos.Freec.Memory.{Memory, memcpy, memmove}
use rubberos.Paging.{sub_64}

-- struct arraylist, with the memory
pub record ArrayList : Type 0 where
  pub base : ℕ  -- the field `data`
  pub capacity : ℕ
  pub size : ℕ
  pub bytes : Memory

-- struct tagged_ptr
pub record TaggedPtr : Type 0 where
  pub ptr : ℕ
  pub len : ℕ

abbrev pub null_ptr : TaggedPtr
null_ptr = record { ptr = 0; len = 0 }

pub arraylist_init : Memory → ℕ → TaggedPtr → Option ArrayList
arraylist_init m initial_capacity given =
    if initial_capacity == 0
    then some (record { base = 0; capacity = 0; size = 0; bytes = m })
    else if given.ptr == 0
    then none
    else some (record { base = given.ptr; capacity = given.len; size = 0; bytes = m })

-- the list, and the old memory
pub reserve_without_copy : ArrayList → ℕ → TaggedPtr → Option (ArrayList × TaggedPtr)
reserve_without_copy list new_capacity given =
    let old : TaggedPtr = record { ptr = list.base; len = list.capacity } in
    if leb new_capacity list.capacity
    then some (list, null_ptr)
    else if given.ptr == 0
    then none
    else some (record list { base = given.ptr; capacity = given.len }, old)

pub arraylist_reserve : ArrayList → ℕ → TaggedPtr → Option (ArrayList × TaggedPtr)
arraylist_reserve list new_capacity given = do
  (list₁, old) ← reserve_without_copy list new_capacity given
  let copied = record list₁ { bytes = memcpy list₁.bytes list₁.base old.ptr list₁.size }
  let list₂ = if ltb 0 list₁.size then copied else list₁
  if old.ptr == 0 then some (list₁, null_ptr) else some (list₂, old)

abbrev pub capacity_for_size : ℕ → ℕ → ℕ
capacity_for_size new_size old_capacity =
    if ltb (old_capacity * 2) new_size then new_size else old_capacity * 2

pub arraylist_resize : ArrayList → ℕ → TaggedPtr → Option (ArrayList × TaggedPtr)
arraylist_resize list new_size given = do
  let grown = arraylist_reserve list (capacity_for_size new_size list.capacity) given
  (list₁, freed) ← if ltb list.capacity new_size then grown else some (list, null_ptr)
  some (record list₁ { size = new_size }, freed)

-- `shrunk` is the capacity that the allocator's `shrink` gives.
pub arraylist_shrink_to : ArrayList → ℕ → ℕ → ArrayList × TaggedPtr
arraylist_shrink_to list new_size shrunk =
    let smaller = record list {
      capacity = shrunk;
      size = if ltb new_size list.size then new_size else list.size;
    } in
    if new_size == 0
    then if list.base == 0 then (list, null_ptr) else (
      record list { base = 0; capacity = 0; size = 0 },
      record { ptr = list.base; len = list.capacity },
    )
    else if ltb new_size list.capacity
    then (smaller, null_ptr)
    else (list, null_ptr)

pub arraylist_push_back : ArrayList → ℕ → TaggedPtr → Option (ArrayList × ℕ × TaggedPtr)
arraylist_push_back list data_size given = do
  (list₁, freed) ← arraylist_resize list ((list.size + data_size) % 2 ^ 64) given
  some (list₁, list₁.base + list.size, freed)

pub arraylist_pop_back : ArrayList → ℕ → Option ArrayList
arraylist_pop_back list data_size =
    if leb data_size list.size then some (record list { size = list.size - data_size }) else none

-- The bytes after the list has got new memory.
pub moved_bytes : ArrayList → TaggedPtr → ℕ → ℕ → Memory
moved_bytes list old pos data_size =
    let inserted = list.base + pos in
    let m₁ = if ltb 0 pos then memcpy list.bytes list.base old.ptr pos else list.bytes in
    if ltb pos list.size
    then memcpy m₁ (inserted + data_size) (old.ptr + pos) (list.size - pos)
    else m₁

-- The bytes where the memory is large enough.
pub opened_bytes : ArrayList → ℕ → ℕ → Memory
opened_bytes list pos data_size =
    let inserted = list.base + pos in
    if ltb pos list.size
    then memmove list.bytes (inserted + data_size) inserted (list.size - pos)
    else list.bytes

-- the list, the pointer to what was inserted, and the memory that is given back
pub arraylist_insert : ArrayList → ℕ → ℕ → TaggedPtr → Option (ArrayList × ℕ × TaggedPtr)
arraylist_insert list pos data_size given = do
  (list₁, old) ←
      if leb pos list.size
      then reserve_without_copy list ((list.size + data_size) % 2 ^ 64) given
      else none
  let bytes' =
      if old.ptr == 0 then opened_bytes list₁ pos data_size else moved_bytes list₁ old pos data_size
  some (
    record list₁ { bytes = bytes'; size = (list₁.size + data_size) % 2 ^ 64 },
    list₁.base + pos,
    old,
  )

pub arraylist_remove : ArrayList → ℕ → ℕ → Option ArrayList
arraylist_remove list pos data_size =
    let end = (pos + data_size) % 2 ^ 64 in
    let closed =
      memmove list.bytes (list.base + pos) (list.base + pos + data_size)
        (sub_64 (sub_64 list.size pos) data_size) in
    if leb end list.size
    then some (record list {
      bytes = if ltb end list.size then closed else list.bytes;
      size = sub_64 list.size data_size;
    })
    else none
