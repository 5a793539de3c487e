-- ===== src/Process/Bitmap.antt =====
-- The bitmap of process numbers: number `i` is bit `7 - i` of a byte.
use Prim.Native.Nat.{bit_and, bit_or, bit_xor}
use fireball_os.Base.{
  ℕ, zero, suc, ◌+◌, ◌/◌, ◌%◌, ◌^◌, ◌≤◌, ◌<◌, ◌≡◌, refl, arith, ◌==◌, if◌then◌else◌, passes_below,
  passes-passes_below, same, ltb, ◌&&◌, Bool, true, false, none, some, ==_iff,
}
use native.Mathlib.Decide.{ℕ_discrete}
use fireball_os.Process.{find_pid, mask}

-- the mask of number `i`, and whether the number is taken
abbrev pub pid_bit : ℕ → ℕ
pid_bit i = mask / 2 ^ i

abbrev pub taken : ℕ → ℕ → Bool
taken bitmap i = bitmap / pid_bit i % 2 == 1

-- The three operations on a bit, checked at each byte.
abbrev bits_agree : ℕ → ℕ → Bool
bits_agree i o =
    same (bit_and (pid_bit i) o == 0) (if taken o i then false else true)
    && (if taken o i
        then bit_xor o (pid_bit i) % 256 + pid_bit i == o
        else bit_or o (pid_bit i) == o + pid_bit i)

bits_table : passes_below 7 (λ i. passes_below 256 (bits_agree i)) ≡ true
unfolding passes_below
bits_table = refl

bits_at : (i o : ℕ) → i < 7 → o < 256 → bits_agree i o ≡ true
bits_at i o hi ho =
    passes-passes_below 256 (bits_agree i) o
      (passes-passes_below 7 (λ j. passes_below 256 (bits_agree j)) i bits_table hi) ho

free-bit_and : (i o : ℕ) → i < 7 → o < 256 → taken o i ≡ false → (bit_and (pid_bit i) o == 0) ≡ true
free-bit_and i o hi ho e = ground (arith, bits_at i o hi ho)

taken-bit_and :
    (i o : ℕ) → i < 7 → o < 256 → taken o i ≡ true → (bit_and (pid_bit i) o == 0) ≡ false
taken-bit_and i o hi ho e = ground (arith, bits_at i o hi ho)

free-bit_or : (i o : ℕ) → i < 7 → o < 256 → taken o i ≡ false → bit_or o (pid_bit i) ≡ o + pid_bit i
free-bit_or i o hi ho e = ground (arith, bits_at i o hi ho)

taken-bit_xor :
    (i o : ℕ) → i < 7 → o < 256 → taken o i ≡ true → bit_xor o (pid_bit i) % 256 + pid_bit i ≡ o
taken-bit_xor i o hi ho e = ground (arith, bits_at i o hi ho)

shift_table : passes_below 7 (λ i. pid_bit i / 2 == pid_bit (i + 1)) ≡ true
unfolding passes_below
shift_table = refl

shift_at : (i : ℕ) → i < 7 → pid_bit i / 2 ≡ pid_bit (i + 1)
shift_at i lt =
    (==_iff _ _).0 (passes-passes_below 7 (λ j. pid_bit j / 2 == pid_bit (j + 1)) i shift_table lt)

module _ (o : ℕ) (byte : o < 256) where
  find_pid-from :
      (n i pid : ℕ)
      → i + n ≡ 7
      → i ≤ pid
      → pid < 7
      → taken o pid ≡ false
      → ((j : ℕ) → j < pid → taken o j ≡ true)
      → find_pid n o (pid_bit i) i ≡ some (pid, o + pid_bit pid)
  unfolding find_pid
  find_pid-from zero i pid e le lt free below = absurd (omega arith)
  find_pid-from (suc n) i pid e le lt free below = elim (ℕ_discrete i pid) [
    | yes here ↦ rw (here, free-bit_and pid o lt byte free, free-bit_or pid o lt byte free)
    | no later ↦
        rw (taken-bit_and i o (omega arith) byte (below i (omega arith)), shift_at i (omega arith))
          (find_pid-from n (i + 1) pid (omega arith) (omega arith) lt free below)
  ]

  find_pid-none_from :
      (n i : ℕ)
      → i + n ≡ 7
      → ((j : ℕ) → j < 7 → taken o j ≡ true)
      → find_pid n o (pid_bit i) i ≡ none
  unfolding find_pid
  find_pid-none_from zero i e full = refl
  find_pid-none_from (suc n) i e full =
      rw (taken-bit_and i o (omega arith) byte (full i (omega arith)), shift_at i (omega arith))
        (find_pid-none_from n (i + 1) (omega arith) full)

  -- In a bitmap of one byte the search finds the lowest of the seven process numbers that is free, and
  -- sets its bit and no other.
  pub find_pid-lowest :
      (pid : ℕ)
      → pid < 7
      → taken o pid ≡ false
      → ((j : ℕ) → j < pid → taken o j ≡ true)
      → find_pid 7 o mask 0 ≡ some (pid, o + pid_bit pid)
  find_pid-lowest pid lt free below =
      find_pid-from 7 0 pid (omega arith) (omega arith) lt free below

  -- With all seven numbers taken the search fails.
  pub find_pid-full : ((j : ℕ) → j < 7 → taken o j ≡ true) → find_pid 7 o mask 0 ≡ none
  find_pid-full full = find_pid-none_from 7 0 (omega arith) full

-- Setting the bit of a free number gives a byte in which that number is taken.
set_table :
    passes_below 7 (λ i.
      passes_below 256
        (λ o. if taken o i then true else (ltb (o + pid_bit i) 256 && taken (o + pid_bit i) i)))
    ≡ true
unfolding passes_below
set_table = refl

set_at :
    (i o : ℕ)
    → i < 7
    → o < 256
    → taken o i ≡ false
    → (o + pid_bit i < 256) × (taken (o + pid_bit i) i ≡ true)
set_at i o hi ho e = ground (
  arith,
  passes-passes_below 256
      (λ o. if taken o i then true else (ltb (o + pid_bit i) 256 && taken (o + pid_bit i) i)) o
      (passes-passes_below 7
        (λ i.
          passes_below 256
            (λ o. if taken o i then true else (ltb (o + pid_bit i) 256 && taken (o + pid_bit i) i)))
        i set_table hi)
      ho,
)

-- What `halt` does to the bit that `execute` set brings the old bitmap back.
pub bit_xor-set :
    (i o : ℕ) → i < 7 → o < 256 → taken o i ≡ false → bit_xor (o + pid_bit i) (pid_bit i) % 256 ≡ o
bit_xor-set i o hi ho e =
    let (byte, set) = set_at i o hi ho e in
    omega (arith, taken-bit_xor i (o + pid_bit i) hi byte set)
