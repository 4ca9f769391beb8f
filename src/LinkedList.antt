-- ===== src/LinkedList.antt =====
-- libcoll/src/linkedlist.c and struct linkedlist_link of libcoll/include/collections/linkedlist.h: a
-- circular list through a dummy link. A link is an address; the heap gives its two pointers, and a
-- list is the address of its dummy. The address 0 is NULL.
pub mod Laws
mod Tests
use rubberos.Base.{ℕ, Bool, ◌&&◌, ◌==◌, if◌then◌else◌}

pub record Links : Type 0 where
  pub prev : ℕ → ℕ
  pub next : ℕ → ℕ

abbrev pub set_prev : Links → ℕ → ℕ → Links
set_prev h link to = record h { prev = λ a. if a == link then to else h.prev a }

abbrev pub set_next : Links → ℕ → ℕ → Links
set_next h link to = record h { next = λ a. if a == link then to else h.next a }

pub list_init : Links → ℕ → Links
list_init h list = set_next (set_prev h list list) list list

pub is_nil : ℕ → ℕ → Bool
is_nil list link = link == list

unfoldable pub list_is_empty : Links → ℕ → Bool
list_is_empty h list = h.prev list == list && h.prev list == h.next list

unfoldable pub head : Links → ℕ → ℕ
head h list = h.next list

pub tail : Links → ℕ → ℕ
tail h list = h.prev list

pub insert_before : Links → ℕ → ℕ → Links
insert_before h link to_insert =
    let h₁ = set_next h (h.prev link) to_insert in
    let h₂ = set_prev h₁ to_insert (h₁.prev link) in
    let h₃ = set_next h₂ to_insert link in set_prev h₃ link to_insert

pub insert_after : Links → ℕ → ℕ → Links
insert_after h link to_insert =
    let h₁ = set_prev h (h.next link) to_insert in
    let h₂ = set_next h₁ to_insert (h₁.next link) in
    let h₃ = set_prev h₂ to_insert link in set_next h₃ link to_insert

pub remove : Links → ℕ → Links
remove h link =
    let h₁ = set_next h (h.prev link) (h.next link) in set_prev h₁ (h₁.next link) (h₁.prev link)

pub push_front : Links → ℕ → ℕ → Links
push_front h list to_insert = insert_before h (h.next list) to_insert

pub push_back : Links → ℕ → ℕ → Links
push_back h list to_insert = insert_after h (h.prev list) to_insert

pub pop_front : Links → ℕ → Links × ℕ
pop_front h list =
    let removed = h.next list in
    if removed == h.prev list then (h, 0) else (remove h (h.next list), removed)

pub pop_back : Links → ℕ → Links × ℕ
pop_back h list =
    let removed = h.prev list in
    if removed == h.next list then (h, 0) else (remove h (h.prev list), removed)
