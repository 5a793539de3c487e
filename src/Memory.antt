-- ===== src/Memory.antt =====
-- Byte memory, and the routines of student-distrib/lib.c that fill and copy it: `memset`,
-- `memset_word`, `memset_dword`, `memcpy` and `memmove`, with the loops of their assembly.
pub mod Copy
pub mod Fill
pub mod Move
use fireball_os.Base.{ℕ, zero, suc, ◌+◌, ◌*◌, ◌/◌, ◌%◌, ◌==◌, if◌then◌else◌, leb}

-- Addresses do not wrap: the objects that the kernel handles lie below 2 ^ 32.
abbrev pub Mem : Type 0
Mem = ℕ → ℕ

unfoldable pub store : Mem → ℕ → ℕ → Mem
store m p v a = if a == p then v else m a

-- a little-endian `uint32_t` in memory
unfoldable pub load32 : Mem → ℕ → ℕ
load32 m p = m p + 256 * m (p + 1) + 65536 * m (p + 2) + 16777216 * m (p + 3)

-- one `movsl`: the four bytes are read before any is written
unfoldable pub move32 : Mem → ℕ → ℕ → Mem
unfolding store
move32 m d s =
    store (store (store (store m d (m s)) (d + 1) (m (s + 1))) (d + 2) (m (s + 2))) (d + 3)
      (m (s + 3))

-- `.memcpy_bottom`, and the byte moves of `.memcpy_top`
unfoldable pub movsb : ℕ → Mem → ℕ → ℕ → Mem
unfolding store
movsb zero m d s = m
movsb (suc n) m d s = movsb n (store m d (m s)) (d + 1) (s + 1)

-- `rep movsl`
unfoldable pub movsl : ℕ → Mem → ℕ → ℕ → Mem
unfolding move32
movsl zero m d s = m
movsl (suc n) m d s = movsl n (move32 m d s) (d + 4) (s + 4)

-- `.memcpy_aligned` to `.memcpy_done`
unfoldable pub memcpy_aligned : ℕ → Mem → ℕ → ℕ → Mem
unfolding movsl movsb
memcpy_aligned n m d s = movsb (n % 4) (movsl (n / 4) m d s) (d + 4 * (n / 4)) (s + 4 * (n / 4))

unfoldable pub memcpy_top : ℕ → Mem → ℕ → ℕ → Mem
unfolding memcpy_aligned store
memcpy_top zero m d s = m
memcpy_top (suc n) m d s =
    let next = memcpy_top n (store m d (m s)) (d + 1) (s + 1) in
    if d % 4 == 0 then memcpy_aligned (suc n) m d s else next

unfoldable pub memcpy : Mem → (dest src n : ℕ) → Mem
unfolding memcpy_top
memcpy m dest src n = memcpy_top n m dest src

-- `memmove` with the direction flag set: from the last byte down
unfoldable pub movsb_down : ℕ → Mem → ℕ → ℕ → Mem
unfolding store
movsb_down zero m d s = m
movsb_down (suc n) m d s = movsb_down n (store m (d + n) (m (s + n))) d s

unfoldable pub memmove : Mem → (dest src n : ℕ) → Mem
unfolding movsb movsb_down
memmove m dest src n = if leb dest src then movsb n m dest src else movsb_down n m dest src

-- `stosb`, `stosw` and `stosl` of the low bytes of `eax`
unfoldable pub stosb : ℕ → Mem → ℕ → ℕ → Mem
unfolding store
stosb zero m d c = m
stosb (suc n) m d c = stosb n (store m d (c % 256)) (d + 1) c

unfoldable pub stosw : ℕ → Mem → ℕ → ℕ → Mem
unfolding store
stosw zero m d c = m
stosw (suc n) m d c = stosw n (store (store m d (c % 256)) (d + 1) (c / 256 % 256)) (d + 2) c

unfoldable pub store32 : Mem → ℕ → ℕ → Mem
unfolding store
store32 m d v =
    store (store (store (store m d (v % 256)) (d + 1) (v / 256 % 256)) (d + 2) (v / 65536 % 256))
      (d + 3) (v / 16777216 % 256)

unfoldable pub stosl : ℕ → Mem → ℕ → ℕ → Mem
unfolding store32
stosl zero m d c = m
stosl (suc n) m d c = stosl n (store32 m d c) (d + 4) c

-- `.memset_aligned` to `.memset_done`, with the byte `c` in each byte of `eax`
unfoldable pub memset_aligned : ℕ → Mem → ℕ → ℕ → Mem
unfolding stosl stosb
memset_aligned n m d eax = stosb (n % 4) (stosl (n / 4) m d eax) (d + 4 * (n / 4)) eax

unfoldable pub memset_top : ℕ → Mem → ℕ → ℕ → Mem
unfolding memset_aligned store
memset_top zero m d eax = m
memset_top (suc n) m d eax =
    let next = memset_top n (store m d (eax % 256)) (d + 1) eax in
    if d % 4 == 0 then memset_aligned (suc n) m d eax else next

unfoldable pub memset : Mem → (s c n : ℕ) → Mem
unfolding memset_top
memset m s c n = let b = c % 256 in memset_top n m s (b * 16777216 + b * 65536 + b * 256 + b)

unfoldable pub memset_word : Mem → (s c n : ℕ) → Mem
unfolding stosw
memset_word m s c n = stosw n m s c

unfoldable pub memset_dword : Mem → (s c n : ℕ) → Mem
unfolding stosl
memset_dword m s c n = stosl n m s c
