-- ===== src/Memory/Fill.antt =====
-- `memset` of student-distrib/lib.c, against a plain fill.
use fireball_os.Base.{
  ℕ, zero, suc, ◌+◌, ◌*◌, ◌/◌, ◌%◌, ◌≡◌, ◌∙◌, fun_ext, arith, if◌then◌else◌, Bool-cases, inl, inr,
  ◌==◌,
}
use fireball_os.Memory.{Mem, store, store32, stosb, stosl, memset_aligned, memset_top, memset}
use fireball_os.Memory.Copy.{within}

-- Memory with the byte `c` in the `n` addresses from `d` on.
abbrev pub filled : Mem → (d c n : ℕ) → Mem
filled m d c n a = if within d n a then c else m a

-- each byte of `eax` is `c`
record Repeats (eax c : ℕ) : Type 0 where
  byte0 : eax % 256 ≡ c
  byte1 : eax / 256 % 256 ≡ c
  byte2 : eax / 65536 % 256 ≡ c
  byte3 : eax / 16777216 % 256 ≡ c

module _ (eax c : ℕ) (r : Repeats eax c) where
  stosb-filled : (n : ℕ) (m : Mem) (d a : ℕ) → stosb n m d eax a ≡ filled m d c n a
  unfolding stosb store
  stosb-filled zero m d a = ground arith
  stosb-filled (suc n) m d a =
      stosb-filled n (store m d (eax % 256)) (d + 1) a ∙ ground (arith, r.byte0)

  stosl-filled : (n : ℕ) (m : Mem) (d a : ℕ) → stosl n m d eax a ≡ filled m d c (4 * n) a
  unfolding stosl store32 store
  stosl-filled zero m d a = ground arith
  stosl-filled (suc n) m d a =
      stosl-filled n (store32 m d eax) (d + 4) a
      ∙ ground (arith, r.byte0, r.byte1, r.byte2, r.byte3)

  memset_aligned-filled :
      (n : ℕ) (m : Mem) (d a : ℕ) → memset_aligned n m d eax a ≡ filled m d c n a
  unfolding memset_aligned
  memset_aligned-filled n m d a =
      stosb-filled (n % 4) (stosl (n / 4) m d eax) (d + 4 * (n / 4)) a
      ∙ ground (arith, stosl-filled (n / 4) m d a)

  memset_top-filled : (n : ℕ) (m : Mem) (d a : ℕ) → memset_top n m d eax a ≡ filled m d c n a
  unfolding memset_top
  memset_top-filled zero m d a = ground arith
  memset_top-filled (suc n) m d a = elim (Bool-cases (d % 4 == 0)) [
    | inl e ↦ rw e (memset_aligned-filled (suc n) m d a)
    | inr e ↦ rw e (
        memset_top-filled n (store m d (eax % 256)) (d + 1) a
        ∙ unfold store in ground (arith, r.byte0))
  ]

-- `memset` writes the low byte of `c` to each of the `n` bytes from `s` on and changes nothing
-- else.
pub memset-filled : (m : Mem) (s c n : ℕ) → memset m s c n ≡ filled m s (c % 256) n
unfolding memset
memset-filled m s c n =
    fun_ext (λ a. memset_top-filled (word (c % 256)) (c % 256) (omega arith) n m s a)
  where
    word : ℕ → ℕ
    word b = b * 16777216 + b * 65536 + b * 256 + b
