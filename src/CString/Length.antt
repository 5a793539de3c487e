-- ===== src/CString/Length.antt =====
-- `strlen` of student-distrib/lib.c, against the notion of a terminated string.
use fireball_os.Base.{ℕ, zero, suc, ◌+◌, ◌≤◌, ◌<◌, ◌≡◌, ◌≢◌, some, arith, u32}
use native.Mathlib.Decide.{ℕ_discrete}
use fireball_os.Memory.{Mem}
use fireball_os.CString.{strlen, strlen_loop}

-- the bytes at `s` are a string of `n` characters
pub record IsString (m : Mem) (s n : ℕ) : Type 0 where
  pub nonzero : (i : ℕ) → i < n → m (s + i) ≢ 0
  pub terminated : m (s + n) ≡ 0

strlen_loop-some :
    (f : ℕ) (m : Mem) (s len n : ℕ)
    → IsString m s n
    → len ≤ n
    → n < len + f
    → strlen_loop f m s len ≡ some n
unfolding strlen_loop
strlen_loop-some zero m s len n h le lt = absurd (omega arith)
strlen_loop-some (suc f) m s len n h le lt =
    ground (arith, h.nonzero len, h.terminated, strlen_loop-some f m s (len + 1) n h)

-- `strlen` of a terminated string below the end of the address space is its length.
pub strlen-some : (m : Mem) (s n : ℕ) → IsString m s n → n < u32 → strlen m s ≡ some n
unfolding strlen
strlen-some m s n h lt = strlen_loop-some u32 m s 0 n h (omega arith) (omega arith)

nonzero_step :
    (m : Mem) (s len : ℕ)
    → ((i : ℕ) → i < len → m (s + i) ≢ 0)
    → m (s + len) ≢ 0
    → (i : ℕ) → i < len + 1
    → m (s + i) ≢ 0
nonzero_step m s len h z i lt = ground (arith, h i)

strlen_loop-IsString :
    (f : ℕ) (m : Mem) (s len n : ℕ)
    → ((i : ℕ) → i < len → m (s + i) ≢ 0)
    → strlen_loop f m s len ≡ some n
    → IsString m s n
unfolding strlen_loop
strlen_loop-IsString zero m s len n h e = cc
strlen_loop-IsString (suc f) m s len n h e = elim (ℕ_discrete (m (s + len)) 0) [
  | yes z ↦
      let same : len ≡ n = ground arith in
      record { nonzero = rw same at h; terminated = rw same at z }
  | no z ↦ strlen_loop-IsString f m s (len + 1) n (nonzero_step m s len h z) (ground arith)
]

-- What `strlen` returns is the position of the first terminator.
pub strlen-IsString : (m : Mem) (s n : ℕ) → strlen m s ≡ some n → IsString m s n
unfolding strlen
strlen-IsString m s n e = strlen_loop-IsString u32 m s 0 n (λ i lt. absurd (omega arith)) e
