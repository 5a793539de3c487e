-- ===== src/CString/Reverse.antt =====
-- `strrev` of student-distrib/lib.c, against a mirror image.
use fireball_os.Base.{
  ℕ, zero, suc, ◌+◌, ◌-◌, ◌*◌, ◌≤◌, ◌<◌, ◌≡◌, ◌∙◌, refl, ap, fun_ext, arith, if◌then◌else◌, leb,
  ltb, ◌&&◌, some, false, Bool-cases, inl, inr, u32,
}
use native.Mathlib.Decide.{dec_lt}
use fireball_os.Memory.{Mem, store}
use fireball_os.CString.{strrev, strrev_loop}
use fireball_os.CString.Length.{IsString, strlen-some}

-- memory with the bytes from `lo` to `hi` in reverse order
abbrev pub mirrored : Mem → (lo hi : ℕ) → Mem
mirrored m lo hi a = if leb lo a && leb a hi then m (lo + hi - a) else m a

strrev_loop-mirrored :
    (f : ℕ) (m : Mem) (s b e a : ℕ)
    → e < b + 2 * f
    → b ≤ e + 1
    → strrev_loop f m s b e a ≡ mirrored m (s + b) (s + e) a
unfolding strrev_loop store
strrev_loop-mirrored zero m s b e a enough near = ground arith
strrev_loop-mirrored (suc f) m s b e a enough near = elim (dec_lt b e) [
  | yes lt ↦ ground (
    arith,
    strrev_loop-mirrored f (store (store m (s + e) (m (s + b))) (s + b) (m (s + e))) s (b + 1)
        (e - 1) a,
  )
  | no ge ↦
      let off : ltb b e ≡ false = ground arith in
      elim (Bool-cases (leb (s + b) a && leb a (s + e))) [
        | inl inside ↦ rw (off, inside, strrev_loop) (ap m (ground (arith, inside)))
        | inr outside ↦ rw (off, outside, strrev_loop) refl
      ]
]

-- `strrev` of a string that ends turns its characters round, and changes nothing else.
pub strrev-mirrored :
    (m : Mem) (s n : ℕ)
    → IsString m s n
    → n < u32
    → 0 < n
    → strrev m s ≡ some (mirrored m s (s + (n - 1)))
unfolding strrev
strrev-mirrored m s n is small more =
    let start : s + 0 ≡ s = omega arith in
    rw (strlen-some m s n is small) (
      ap some (
        fun_ext (λ a.
          strrev_loop-mirrored n m s 0 (n - 1) a (omega arith) (omega arith)
          ∙ ap (λ lo. mirrored m lo (s + (n - 1)) a) start)))
