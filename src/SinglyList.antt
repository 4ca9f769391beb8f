-- ===== src/SinglyList.antt =====
-- libcoll/src/singlylist.c and struct singlylist_link of libcoll/include/collections/singlylist.h. A
-- link is an address; the heap gives its pointer, and a list is the address of its dummy. The
-- address 0 is NULL; `none` is a failed assertion.
pub mod Laws
mod Tests
use rubberos.Base.{ℕ, Option, none, some, ◌==◌, if◌then◌else◌}

abbrev pub Nexts : Type 0
Nexts = ℕ → ℕ

abbrev pub set_link : Nexts → ℕ → ℕ → Nexts
set_link h link to a = if a == link then to else h a

pub singly_init : Nexts → ℕ → Nexts
singly_init h list = set_link h list 0

pub singly_head : Nexts → ℕ → ℕ
singly_head h list = h list

pub before_head : ℕ → ℕ
before_head list = list

pub link_after : Nexts → ℕ → ℕ → Nexts
link_after h link to_insert = let h₁ = set_link h to_insert (h link) in set_link h₁ link to_insert

pub remove_after : Nexts → ℕ → Option Nexts
remove_after h before = if h before == 0 then none else some (set_link h before (h (h before)))

pub singly_push_front : Nexts → ℕ → ℕ → Nexts
singly_push_front h list to_insert = link_after h list to_insert

-- the heap and the link that the call returns
pub singly_pop_front : Nexts → ℕ → Option (Nexts × ℕ)
singly_pop_front h list =
    let removed = h list in
    if removed == 0
    then some (h, 0)
    else elim (remove_after h list) [ none ↦ none | some h' ↦ some (h', removed) ]
