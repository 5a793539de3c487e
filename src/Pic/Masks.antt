-- ===== src/Pic/Masks.antt =====
-- `enable_irq` and `disable_irq` of student-distrib/i8259.c, line by line.
use Prim.Native.Nat.{bit_and, bit_or}
use fireball_os.Base.{
  ℕ, ◌-◌, ◌/◌, ◌%◌, ◌^◌, ◌<◌, ◌≡◌, refl, ◌==◌, if◌then◌else◌, ltb, ◌&&◌, Bool, true, false,
  passes_below, passes-passes_below, arith, same,
}
use fireball_os.Pic.{Pics, enable_irq, disable_irq, all_but, only}

-- bit `n` of a byte
abbrev pub bit : ℕ → ℕ → Bool
bit byte n = byte / 2 ^ n % 2 == 1

-- whether the line is masked
abbrev pub masked : Pics → ℕ → Bool
masked p irq = if ltb irq 8 then bit p.master irq else bit p.slave (irq - 8)

pub record AreBytes (p : Pics) : Type 0 where
  pub master : p.master < 256
  pub slave : p.slave < 256

pub same_eq : (a b : Bool) → same a b ≡ true → a ≡ b
same_eq true b e = ground arith
same_eq false true e = cc
same_eq false false e = refl

-- both operations on one bit of a byte, as another bit sees them
abbrev bit_checked : ℕ → ℕ → ℕ → Bool
bit_checked i j x =
    same (bit (bit_and x (all_but i)) j) (if j == i then false else bit x j)
    && same (bit (bit_or x (only i)) j) (if j == i then true else bit x j)

bit_table : passes_below 8 (λ i. passes_below 8 (λ j. passes_below 256 (bit_checked i j))) ≡ true
unfolding passes_below
bit_table = refl

bit_at : (i j x : ℕ) → i < 8 → j < 8 → x < 256 → bit_checked i j x ≡ true
bit_at i j x hi hj hx =
    passes-passes_below 256 (bit_checked i j) x
      (passes-passes_below 8 (λ j. passes_below 256 (bit_checked i j)) j
        (passes-passes_below 8 (λ i. passes_below 8 (λ j. passes_below 256 (bit_checked i j))) i
          bit_table hi)
        hj)
      hx

bit-all_but :
    (i j x : ℕ)
    → i < 8
    → j < 8
    → x < 256
    → bit (bit_and x (all_but i)) j ≡ (if j == i then false else bit x j)
bit-all_but i j x hi hj hx = same_eq _ _ (ground (arith, bit_at i j x hi hj hx))

bit-only :
    (i j x : ℕ)
    → i < 8
    → j < 8
    → x < 256
    → bit (bit_or x (only i)) j ≡ (if j == i then true else bit x j)
bit-only i j x hi hj hx = same_eq _ _ (ground (arith, bit_at i j x hi hj hx))

-- With masks of one byte, for the sixteen lines, `enable_irq` unmasks the line that it is given, on the controller that
-- serves it, and leaves every other line as it was.
pub masked-enable_irq :
    (p : Pics) (irq j : ℕ)
    → AreBytes p
    → irq < 16
    → j < 16
    → masked (enable_irq p irq) j ≡ (if j == irq then false else masked p j)
unfolding enable_irq
masked-enable_irq p irq j bytes hi hj = ground (
  arith,
  bit-all_but irq j p.master,
  bit-all_but (irq - 8) (j - 8) p.slave,
  bytes.master,
  bytes.slave,
)

-- `disable_irq` masks the line and leaves every other line as it was.
pub masked-disable_irq :
    (p : Pics) (irq j : ℕ)
    → AreBytes p
    → irq < 16
    → j < 16
    → masked (disable_irq p irq) j ≡ (if j == irq then true else masked p j)
unfolding disable_irq
masked-disable_irq p irq j bytes hi hj =
    ground (
      arith,
      bit-only irq j p.master,
      bit-only (irq - 8) (j - 8) p.slave,
      bytes.master,
      bytes.slave,
    )
