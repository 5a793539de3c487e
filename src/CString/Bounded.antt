-- ===== src/CString/Bounded.antt =====
-- `strncpy` of student-distrib/lib.c, against a copy with padding.
use fireball_os.Base.{
  ℕ, zero, suc, ◌+◌, ◌-◌, ◌≤◌, ◌<◌, ◌≡◌, ◌≢◌, ◌∙◌, ap, fun_ext, arith, ◌==◌, if◌then◌else◌,
  Bool-cases, inl, inr,
}
use native.Mathlib.Decide.{ℕ_discrete}
use fireball_os.Memory.{Mem, store}
use fireball_os.Memory.Copy.{within, Apart}
use fireball_os.CString.{strncpy, strncpy_loop, strncpy_pad}

-- Character `j` of the string at `s`, and zero behind its terminator.
unfoldable pub padded : Mem → ℕ → ℕ → ℕ
padded m s zero = m s
padded m s (suc j) = if m s == 0 then 0 else padded m (s + 1) j

padded-zero : (m : Mem) (s j : ℕ) → m s ≡ 0 → padded m s j ≡ 0
unfolding padded
padded-zero m s zero e = e
padded-zero m s (suc j) e = ground arith

padded_step : (m : Mem) (s j : ℕ) → m s ≢ 0 → 0 < j → padded m s j ≡ padded m (s + 1) (j - 1)
unfolding padded
padded_step m s zero e lt = absurd (omega arith)
padded_step m s (suc j) e lt = ground arith

-- It reads the string at `s` alone.
pub padded-same :
    (m m' : Mem) (s j : ℕ)
    → ((a : ℕ) → s ≤ a → a ≤ s + j → m' a ≡ m a)
    → padded m' s j ≡ padded m s j
unfolding padded
padded-same m m' s zero h = h s (omega arith) (omega arith)
padded-same m m' s (suc j) h =
    ground (arith, h s, padded-same m m' (s + 1) j (λ a lo hi. h a (omega arith) (omega arith)))

-- Memory after the string at `s` has been copied to the `n` bytes at `d`.
abbrev pub copied_string : Mem → (d s n : ℕ) → Mem
copied_string m d s n a = if within d n a then padded m s (a - d) else m a

strncpy_pad-zero :
    (n : ℕ) (m : Mem) (d i a : ℕ) → strncpy_pad n m d i a ≡ (if within (d + i) n a then 0 else m a)
unfolding strncpy_pad
strncpy_pad-zero zero m d i a = ground arith
strncpy_pad-zero (suc n) m d i a =
    strncpy_pad-zero n (store m (d + i) 0) d (i + 1) a ∙ unfold store in ground arith

copied_string-store :
    (m : Mem) (d s n a : ℕ)
    → Apart d s (suc n)
    → m s ≢ 0
    → copied_string (store m d (m s)) (d + 1) (s + 1) n a ≡ copied_string m d s (suc n) a
unfolding store
copied_string-store m d s n a h nz = elim (Bool-cases (within (d + 1) n a)) [
  | inl e ↦ ground (
    arith,
    padded_step m s (a - d) nz,
    padded-same m (store m d (m s)) (s + 1) (a - (d + 1)) (λ b lo hi. ground arith),
  )
  | inr e ↦ unfold padded in ground arith
]

strncpy_loop-copied :
    (n : ℕ) (m : Mem) (d s i a : ℕ)
    → Apart (d + i) (s + i) n
    → strncpy_loop n m d s i a ≡ copied_string m (d + i) (s + i) n a
unfolding strncpy_loop
strncpy_loop-copied zero m d s i a h = ground arith
strncpy_loop-copied (suc n) m d s i a h = elim (ℕ_discrete (m (s + i)) 0) [
  | yes e ↦ ground (arith, strncpy_pad-zero (suc n) m d i a, padded-zero m (s + i) (a - (d + i)) e)
  | no e ↦ ground (
    arith,
    strncpy_loop-copied n (store m (d + i) (m (s + i))) d s (i + 1) a,
    copied_string-store m (d + i) (s + i) n a h e,
  )
]

-- For areas that do not overlap, `strncpy` writes the source up to its terminator and zeros behind
-- it to the `n` bytes of the destination, and changes nothing else.
pub strncpy-copied : (m : Mem) (d s n : ℕ) → Apart d s n → strncpy m d s n ≡ copied_string m d s n
unfolding strncpy
strncpy-copied m d s n h = fun_ext (λ a.
    strncpy_loop-copied n m d s 0 a (omega arith)
    ∙ ap (λ k. copied_string m k (s + 0) n a) (omega arith)
    ∙ ap (λ k. copied_string m d k n a) (omega arith))
