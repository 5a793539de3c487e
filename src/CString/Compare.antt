-- ===== src/CString/Compare.antt =====
-- `strncmp` as a test of equality.
use fireball_os.Base.{ℕ, zero, suc, ◌+◌, ◌≤◌, ◌<◌, ◌≡◌, ◌≢◌, ◌↔◌, arith, sub32}
use native.Mathlib.Decide.{ℕ_discrete}
use fireball_os.Memory.{Mem}
use fireball_os.CString.{strncmp, strncmp_loop, sign_extend}

-- The strings at `s1` and `s2` agree in each of their first `n` characters that no earlier
-- terminator hides.
abbrev pub SameString : Mem → (s1 s2 n : ℕ) → Type 0
SameString m s1 s2 n =
    (j : ℕ) → j < n → ((i : ℕ) → i < j → m (s1 + i) ≢ 0) → m (s1 + j) ≡ m (s2 + j)

-- memory holds bytes
abbrev pub IsBytes : Mem → Type 0
IsBytes m = (a : ℕ) → m a < 256

diff-ne_zero : (a b : ℕ) → a < 256 → b < 256 → a ≢ b → sub32 (sign_extend a) (sign_extend b) ≢ 0
diff-ne_zero a b ha hb h = ground arith

diff_self : (a : ℕ) → a < 256 → sub32 (sign_extend a) (sign_extend a) ≡ 0
diff_self a h = ground arith

-- from position `i` on
abbrev SameFrom : Mem → (s1 s2 i n : ℕ) → Type 0
SameFrom m s1 s2 i n =
    (j : ℕ)
    → i ≤ j
    → j < i + n
    → ((k : ℕ) → i ≤ k → k < j → m (s1 + k) ≢ 0)
    → m (s1 + j) ≡ m (s2 + j)

module _ (m : Mem) (bytes : IsBytes m) (s1 s2 : ℕ) where
  same_tail : (n i : ℕ) → m (s1 + i) ≢ 0 → SameFrom m s1 s2 i (suc n) → SameFrom m s1 s2 (i + 1) n
  same_tail n i nz h j lo hi before =
      h j (omega arith) (omega arith) λ k klo khi. ground (arith, before k)

  strncmp_loop-same : (n i : ℕ) → strncmp_loop n m s1 s2 i ≡ 0 → SameFrom m s1 s2 i n
  unfolding strncmp_loop
  strncmp_loop-same zero i e j lo hi before = absurd (omega arith)
  strncmp_loop-same (suc n) i e j lo hi before = ground (
    arith,
    bytes (s1 + i),
    bytes (s2 + i),
    diff-ne_zero (m (s1 + i)) (m (s2 + i)),
    before i,
    λ (p : strncmp_loop n m s1 s2 (i + 1) ≡ 0) (q : i + 1 ≤ j).
        strncmp_loop-same n (i + 1) p j q (omega arith) (λ k klo khi. before k (omega arith) khi),
  )

  same-strncmp_loop : (n i : ℕ) → SameFrom m s1 s2 i n → strncmp_loop n m s1 s2 i ≡ 0
  unfolding strncmp_loop
  same-strncmp_loop zero i h = ground arith
  same-strncmp_loop (suc n) i h = elim (ℕ_discrete (m (s1 + i)) 0) [
    | yes z ↦ ground (arith, diff_self (m (s1 + i)) (bytes (s1 + i)), here)
    | no z ↦ ground (arith, here, same-strncmp_loop n (i + 1) (same_tail n i z h))
  ]
    where
      here : m (s1 + i) ≡ m (s2 + i)
      here = h i (omega arith) (omega arith) (λ k lo hi. absurd (omega arith))

  -- In memory of bytes `strncmp` returns 0 exactly when the two strings agree up to their terminator or, failing
  -- that, in `n` characters.
  pub strncmp_iff : (n : ℕ) → (strncmp m s1 s2 n ≡ 0) ↔ SameString m s1 s2 n
  unfolding strncmp
  strncmp_iff n = (
    λ e j lt before. strncmp_loop-same n 0 e j (omega arith) (omega arith) (λ k lo hi. before k hi),
    λ h.
        same-strncmp_loop n 0
          (λ j lo hi before. h j (omega arith) (λ k lt. before k (omega arith) lt)),
  )
