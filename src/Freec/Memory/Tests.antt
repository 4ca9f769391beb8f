-- ===== src/Freec/Memory/Tests.antt =====
-- Instances of the theorems on the memory functions.
use rubberos.Base.{◌+◌, ◌-◌, ◌%◌, ◌≡◌, if◌then◌else◌}
use rubberos.Freec.Memory.{Memory, memmove}
use rubberos.Freec.Memory.Laws.{within, memmove_lem}

-- every byte is its address
abbrev counting : Memory
counting x = x % 256

memmove_lem_example :
    memmove counting 3 0 10 5 ≡ (if within 3 10 5 then counting (0 + (5 - 3)) else counting 5)
memmove_lem_example = memmove_lem counting 3 0 10 5
