-- ===== src/SinglyList/Tests.antt =====
-- The instance of the theorem on the singly linked list, on a list of one link.
use rubberos.Base.{◌==◌, if◌then◌else◌}
use rubberos.SinglyList.{Nexts}

-- the dummy at 1, and the link 2
abbrev one : Nexts
one a = if a == 1 then 2 else 0
