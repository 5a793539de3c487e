-- ===== src/CString.antt =====
-- The string routines of student-distrib/lib.c: `strlen`, `strncmp`, `strcpy`, `strncpy`, `strrev`
-- and `itoa`, over byte memory. A loop that searches for a terminator runs through at most the
-- 2 ^ 32 addresses of the machine, and is `none` when it finds none.
pub mod Length
pub mod Compare
pub mod Bounded
pub mod Reverse
pub mod Digits
pub mod Numeral
use fireball_os.Base.{
  ℕ, zero, suc, ◌+◌, ◌-◌, ◌/◌, ◌%◌, ◌==◌, if◌then◌else◌, ltb, leb, Bool, true, false, not, ◌||◌,
  ◌&&◌, Option, none, some, ◌>>=◌, u32, sub32,
}
use fireball_os.Memory.{Mem, store}

strlen_loop : ℕ → Mem → ℕ → ℕ → Option ℕ
strlen_loop zero m s len = none
strlen_loop (suc f) m s len = elim (m (s + len) == 0) [
  | true ↦ some len
  | false ↦ strlen_loop f m s (len + 1)
]

unfoldable pub strlen : Mem → ℕ → Option ℕ
unfolding strlen_loop
strlen m s = strlen_loop u32 m s 0

-- an `int8_t` as an `int32_t`
abbrev pub sign_extend : ℕ → ℕ
sign_extend c = if ltb c 128 then c else c + 0xffff_ff00

-- `n - i` rounds are left
strncmp_loop : ℕ → Mem → ℕ → ℕ → ℕ → ℕ
strncmp_loop zero m s1 s2 i = 0
strncmp_loop (suc n) m s1 s2 i =
    let next = strncmp_loop n m s1 s2 (i + 1) in
    if not (m (s1 + i) == m (s2 + i)) || (m (s1 + i) == 0)
    then sub32 (sign_extend (m (s1 + i))) (sign_extend (m (s2 + i)))
    else next

unfoldable pub strncmp : Mem → (s1 s2 n : ℕ) → ℕ
unfolding strncmp_loop
strncmp m s1 s2 n = strncmp_loop n m s1 s2 0

strcpy_loop : ℕ → Mem → ℕ → ℕ → ℕ → Option Mem
strcpy_loop zero m dest src i = none
strcpy_loop (suc f) m dest src i = elim (m (src + i) == 0) [
  | true ↦ some (store m (dest + i) 0)
  | false ↦ strcpy_loop f (store m (dest + i) (m (src + i))) dest src (i + 1)
]

unfoldable pub strcpy : Mem → (dest src : ℕ) → Option Mem
unfolding strcpy_loop store
strcpy m dest src = strcpy_loop u32 m dest src 0

-- the second loop of `strncpy`, with `n - i` rounds left
strncpy_pad : ℕ → Mem → ℕ → ℕ → Mem
strncpy_pad zero m dest i = m
strncpy_pad (suc n) m dest i = strncpy_pad n (store m (dest + i) 0) dest (i + 1)

strncpy_loop : ℕ → Mem → ℕ → ℕ → ℕ → Mem
strncpy_loop zero m dest src i = m
strncpy_loop (suc n) m dest src i = elim (m (src + i) == 0) [
  | true ↦ strncpy_pad (suc n) m dest i
  | false ↦ strncpy_loop n (store m (dest + i) (m (src + i))) dest src (i + 1)
]

unfoldable pub strncpy : Mem → (dest src n : ℕ) → Mem
unfolding strncpy_loop strncpy_pad store
strncpy m dest src n = strncpy_loop n m dest src 0

unfoldable pub strrev_loop : ℕ → Mem → ℕ → ℕ → ℕ → Mem
strrev_loop zero m s beg end = m
strrev_loop (suc f) m s beg end = elim (ltb beg end) [
  | true ↦
      strrev_loop f (store (store m (s + end) (m (s + beg))) (s + beg) (m (s + end))) s (beg + 1)
        (end - 1)
  | false ↦ m
]

-- At length 0 `end` is -1 and the loop is not entered; `end - 1` is taken at `end > beg` only.
unfoldable pub strrev : Mem → ℕ → Option Mem
unfolding strrev_loop store strlen
strrev m s = strlen m s >>= λ n. some (strrev_loop n m s 0 (n - 1))

-- `lookup[i]`, the digits below ten and the capital letters, for the 37 bytes of the table
unfoldable pub lookup_digit : ℕ → ℕ
lookup_digit i = if ltb i 10 then 48 + i else if ltb i 36 then 55 + i else 0

-- Each round divides by the radix, so `newval` rounds and one more are enough. The result is the
-- address behind the last digit.
unfoldable pub itoa_loop : ℕ → Mem → (newval newbuf radix : ℕ) → Option (ℕ × Mem)
itoa_loop zero m newval newbuf radix = none
itoa_loop (suc f) m newval newbuf radix = elim (newval == 0) [
  | true ↦ some (newbuf, m)
  | false ↦
      itoa_loop f (store m newbuf (lookup_digit (newval % radix))) (newval / radix) (newbuf + 1)
        radix
]

unfoldable pub itoa : Mem → (value buf radix : ℕ) → Option Mem
unfolding itoa_loop strrev store lookup_digit
itoa m value buf radix =
    if value == 0
    then some (store (store m buf 48) (buf + 1) 0)
    else (itoa_loop (value + 1) m value buf radix >>= λ (newbuf, m').
        strrev (store m' newbuf 0) buf)
