-- ===== src/Memory/Copy.antt =====
-- What `memcpy` of student-distrib/lib.c does to memory, against its contract.
use fireball_os.Base.{
  ℕ, zero, suc, ◌+◌, ◌-◌, ◌*◌, ◌/◌, ◌%◌, ◌≤◌, ◌≡◌, ◌∙◌, ap, fun_ext, ◌⊎◌, ◌&&◌, Bool, arith, ltb,
  leb, if◌then◌else◌, Bool-cases, inl, inr, ◌==◌,
}
use fireball_os.Memory.{Mem, store, move32, movsb, movsl, memcpy_aligned, memcpy_top, memcpy}

-- whether `a` is one of the `n` addresses from `d` on
abbrev pub within : ℕ → ℕ → ℕ → Bool
within d n a = leb d a && ltb a (d + n)

-- Memory after the `n` bytes at `s` have been copied to `d`.
abbrev pub copied : Mem → (d s n : ℕ) → Mem
copied m d s n a = if within d n a then m (s + (a - d)) else m a

abbrev pub Apart : (d s n : ℕ) → Type 0
Apart d s n = (d + n ≤ s) ⊎ (s + n ≤ d)

copied-zero : (m : Mem) (d s a : ℕ) → copied m d s 0 a ≡ m a
copied-zero m d s a = ground arith

pub copied-store :
    (m : Mem) (d s n a : ℕ)
    → Apart d s (suc n)
    → copied (store m d (m s)) (d + 1) (s + 1) n a ≡ copied m d s (suc n) a
unfolding store
copied-store m d s n a h = ground arith

pub movsb-copied : (n : ℕ) (m : Mem) (d s a : ℕ) → Apart d s n → movsb n m d s a ≡ copied m d s n a
unfolding movsb
movsb-copied zero m d s a h = ground arith
movsb-copied (suc n) m d s a h =
    movsb-copied n (store m d (m s)) (d + 1) (s + 1) a (omega arith) ∙ copied-store m d s n a h

copied-move32 :
    (m : Mem) (d s n a : ℕ)
    → Apart d s (4 + n)
    → copied (move32 m d s) (d + 4) (s + 4) n a ≡ copied m d s (4 + n) a
unfolding move32 store
copied-move32 m d s n a h = ground arith

movsl-copied :
    (n : ℕ) (m : Mem) (d s a : ℕ) → Apart d s (4 * n) → movsl n m d s a ≡ copied m d s (4 * n) a
unfolding movsl
movsl-copied zero m d s a h = ground arith
movsl-copied (suc n) m d s a h =
    movsl-copied n (move32 m d s) (d + 4) (s + 4) a (omega arith)
    ∙ (copied-move32 m d s (4 * n) a (omega arith) ∙ ap (λ k. copied m d s k a) (omega arith))

-- Two copies in a row are one.
copied-copied :
    (m m' : Mem) (d s j n k a : ℕ)
    → Apart d s n
    → ((b : ℕ) → m' b ≡ copied m d s j b)
    → j + k ≡ n
    → copied m' (d + j) (s + j) k a ≡ copied m d s n a
copied-copied m m' d s j n k a h same e = ground (arith, same a, same (s + j + (a - (d + j))))

memcpy_aligned-copied :
    (n : ℕ) (m : Mem) (d s a : ℕ) → Apart d s n → memcpy_aligned n m d s a ≡ copied m d s n a
unfolding memcpy_aligned
memcpy_aligned-copied n m d s a h =
    movsb-copied (n % 4) (movsl (n / 4) m d s) (d + 4 * (n / 4)) (s + 4 * (n / 4)) a (omega arith)
    ∙ copied-copied m (movsl (n / 4) m d s) d s (4 * (n / 4)) n (n % 4) a h
        (λ b. movsl-copied (n / 4) m d s b (omega arith)) (omega arith)

memcpy_top-copied :
    (n : ℕ) (m : Mem) (d s a : ℕ) → Apart d s n → memcpy_top n m d s a ≡ copied m d s n a
unfolding memcpy_top
memcpy_top-copied zero m d s a h = ground arith
memcpy_top-copied (suc n) m d s a h = elim (Bool-cases (d % 4 == 0)) [
  | inl e ↦ rw e (memcpy_aligned-copied (suc n) m d s a h)
  | inr e ↦ rw e (
      memcpy_top-copied n (store m d (m s)) (d + 1) (s + 1) a (omega arith)
      ∙ copied-store m d s n a h)
]

-- The aligned, four-byte routine `memcpy` is the plain copy: when the two areas do not overlap,
-- memory afterwards holds the source bytes in the destination, in order, and is unchanged
-- everywhere else.
pub memcpy-copied : (m : Mem) (d s n : ℕ) → Apart d s n → memcpy m d s n ≡ copied m d s n
unfolding memcpy
memcpy-copied m d s n h = fun_ext (λ a. memcpy_top-copied n m d s a h)
