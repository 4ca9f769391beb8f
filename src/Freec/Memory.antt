-- ===== src/Freec/Memory.antt =====
-- libfreec/src/string.c: the functions on bytes. The memory is a function from addresses to bytes,
-- and a pointer that runs through an object is an address. A byte is a number below 256. The
-- pointer that memchr returns is an address, and `none` is its null pointer.
pub mod Laws
mod Tests
use rubberos.Base.{
  ℕ, zero, suc, ◌+◌, ◌-◌, ◌%◌, Bool, not, ◌&&◌, Option, none, some, ltb, leb, ◌==◌, if◌then◌else◌,
}

abbrev pub Memory : Type 0
Memory = ℕ → ℕ

abbrev pub write : Memory → ℕ → ℕ → Memory
write m addr byte x = if x == addr then byte else m x

-- `for (; count-- > 0; d++, s++) *d = *s;`
pub copy_up : ℕ → ℕ → ℕ → Memory → Memory
copy_up zero d s m = m
copy_up (suc count) d s m = copy_up count (d + 1) (s + 1) (write m d (m s))

-- `for (; count-- > 0; d--, s--) *d = *s;` from the last byte of the two ranges at `d` and `s` on
pub copy_down : ℕ → ℕ → ℕ → Memory → Memory
copy_down zero d s m = m
copy_down (suc count) d s m = copy_down count d s (write m (d + count) (m (s + count)))

pub memcpy : Memory → ℕ → ℕ → ℕ → Memory
memcpy m dest src count = copy_up count dest src m

pub memmove : Memory → ℕ → ℕ → ℕ → Memory
memmove m dest src count =
    if leb dest src then copy_up count dest src m else copy_down count dest src m

-- the loop of memset, on the byte `(unsigned char)ch`
unfoldable pub fill_up : ℕ → ℕ → ℕ → Memory → Memory
fill_up zero d byte m = m
fill_up (suc count) d byte m = fill_up count (d + 1) byte (write m d byte)

unfoldable pub memset : Memory → ℕ → ℕ → ℕ → Memory
memset m dest ch count = fill_up count dest (ch % 256) m

-- the loops of memchr and memchr_not, by their tests
unfoldable pub find : (ℕ → Bool) → ℕ → ℕ → Memory → Option ℕ
find test zero p m = none
find test (suc count) p m =
    let rest = find test count (p + 1) m in if test (m p) then some p else rest

pub memchr : Memory → ℕ → ℕ → ℕ → Option ℕ
memchr m ptr ch count = find (λ byte. byte == ch % 256) count ptr m

unfoldable pub memchr_not : Memory → ℕ → ℕ → ℕ → Option ℕ
memchr_not m ptr ch count = find (λ byte. not (byte == ch % 256)) count ptr m

-- `for (; l < strsz && str[l] != 0; l++) {}` with `n` rounds left
pub strnlen_loop : ℕ → ℕ → ℕ → ℕ → Memory → ℕ
strnlen_loop zero str strsz l m = l
strnlen_loop (suc n) str strsz l m =
    let rest = strnlen_loop n str strsz (l + 1) m in
    if ltb l strsz && not (m (str + l) == 0) then rest else l

pub strnlen : Memory → ℕ → ℕ → ℕ
strnlen m str strsz = strnlen_loop strsz str strsz 0 m

-- A null pointer is 0.
pub strnlen_s : Memory → ℕ → ℕ → ℕ
strnlen_s m str strsz = if str == 0 then 0 else strnlen_loop strsz str strsz 0 m
