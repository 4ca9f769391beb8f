-- ===== src/ArrayList/Tests.antt =====
-- A list of three bytes in a memory of four, which must grow.
use rubberos.Base.{ℕ, ◌+◌, ◌<◌, ◌≡◌, ◌%◌, inr, some, leb, if◌then◌else◌, arith}
use rubberos.ArrayList.{ArrayList, TaggedPtr, null_ptr, arraylist_insert, arraylist_remove}
use rubberos.ArrayList.Laws.{
  at, IsValid, IsFresh, IsInserted, arraylist_insert_lem, arraylist_remove-arraylist_insert,
}

abbrev three : ArrayList
three = record { base = 0x1000; capacity = 4; size = 3; bytes = λ a. a % 256 }

abbrev page : TaggedPtr
page = record { ptr = 0x8000; len = 4096 }

three-IsValid : IsValid three
three-IsValid = record {
  fits = omega arith;
  real = λ e. absurd (omega (arith, e));
  in_memory = omega arith;
}

page-IsFresh : IsFresh three 5 page
page-IsFresh = record {
  some_memory = omega arith;
  long = omega arith;
  in_memory = omega arith;
  apart = inr (omega arith);
}

arraylist_insert_lem_example :
    (list' : ArrayList) × (freed : TaggedPtr) × (arraylist_insert three 1 2 page
      ≡ some (list', list'.base + 1, freed))
    × IsInserted three 1 2 list'
    × (freed ≡ (if leb (3 + 2) 4 then null_ptr else record { ptr = 0x1000; len = 4 }))
arraylist_insert_lem_example =
    arraylist_insert_lem three 1 2 page three-IsValid (omega arith) page-IsFresh

arraylist_remove-arraylist_insert_example :
    (list' list'' : ArrayList) × (freed : TaggedPtr) × (arraylist_insert three 1 2 page
      ≡ some (list', list'.base + 1, freed))
    × (arraylist_remove list' 1 2 ≡ some list'')
    × IsValid list''
    × (list''.size ≡ 3)
    × ((i : ℕ) → i < 3 → at list'' i ≡ at three i)
arraylist_remove-arraylist_insert_example =
    arraylist_remove-arraylist_insert three 1 2 page three-IsValid (omega arith) page-IsFresh
