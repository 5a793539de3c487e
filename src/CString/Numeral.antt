-- ===== src/CString/Numeral.antt =====
-- `itoa` of student-distrib/lib.c, against the number that its digits stand for.
use fireball_os.Base.{
  ℕ, zero, suc, ◌+◌, ◌-◌, ◌≤◌, ◌<◌, ◌≡◌, ◌≢◌, ◌⊎◌, ◌∙◌, refl, sym, subst, inl, ap, arith, ◌==◌, leb,
  ◌&&◌, some, true, false, u32,
}
use native.Mathlib.Decide.{ℕ_discrete}
use fireball_os.Memory.{Mem, store}
use fireball_os.CString.{itoa}
use fireball_os.CString.Length.{IsString}
use fireball_os.CString.Reverse.{mirrored, strrev-mirrored}
use fireball_os.CString.Digits.{
  Written, IsDigit, low_first, high_first, low_first-same, high_first-mirrored, itoa_loop-Written,
}

-- What `itoa` leaves at `buf`: `k` characters and a terminator, that stand for the value. Each is a
-- digit of the radix, and the first is no `0`, but for the value 0.
pub record IsNumeral (m : Mem) (value buf radix k : ℕ) (m' : Mem) : Type 0 where
  pub is_string : IsString m' buf k
  pub number : high_first m' radix buf k ≡ value
  pub others : (a : ℕ) → (a < buf) ⊎ (buf + k < a) → m' a ≡ m a
  pub short : (0 < k) × (k ≤ value + 1)
  pub digits : (i : ℕ) → i < k → IsDigit radix (m' (buf + i))
  pub leading : 0 < value → m' buf ≢ 48

mirrored-IsNumeral :
    (m m1 : Mem) (value buf radix k : ℕ)
    → 0 < value
    → 0 < k
    → Written m value buf radix k m1
    → IsNumeral m value buf radix k (mirrored (store m1 (buf + k) 0) buf (buf + (k - 1)))
unfolding store
mirrored-IsNumeral m m1 value buf radix k more some_digit w =
    let start : buf + (k - k) ≡ buf = omega arith in
    let turned : (i : ℕ)
        → i < k
        → mirrored (store m1 (buf + k) 0) buf (buf + (k - 1)) (buf + i) ≡ m1 (buf + (k - 1 - i)) =
      λ i lt.
        let inside : (leb buf (buf + i) && leb (buf + i) (buf + (k - 1))) ≡ true = ground arith in
        let place : buf + (buf + (k - 1)) - (buf + i) ≡ buf + (k - 1 - i) = omega arith in
        let other : (buf + (k - 1 - i) == buf + k) ≡ false = ground arith in
        rw (inside, place, other) refl in
    record {
      is_string = record {
        nonzero = λ i lt z. w.nonzero (k - 1 - i) (omega arith) (sym (turned i lt) ∙ z);
        terminated = ground arith;
      };
      number =
          high_first-mirrored (store m1 (buf + k) 0) radix buf k k (omega arith)
          ∙ ap (λ at. low_first (store m1 (buf + k) 0) radix at k) start
          ∙ low_first-same m1 (store m1 (buf + k) 0) radix buf k (λ a le lt. ground arith)
          ∙ w.number;
      others = λ a h. ground (arith, w.others a, h);
      short = omega (arith, w.short);
      digits =
          λ i lt. subst (IsDigit radix) (sym (turned i lt)) (w.digits (k - 1 - i) (omega arith));
      leading = λ pos.
          let top : buf + (k - 1 - 0) ≡ buf + (k - 1) = omega arith in
          let here : buf + 0 ≡ buf = omega arith in
          subst (λ a. mirrored (store m1 (buf + k) 0) buf (buf + (k - 1)) a ≢ 48) here
            (λ z. w.leading some_digit (ap m1 (sym top) ∙ sym (turned 0 some_digit) ∙ z));
    }

zero-IsNumeral :
    (m : Mem) (value buf radix : ℕ)
    → value ≡ 0
    → 2 ≤ radix
    → IsNumeral m value buf radix 1 (store (store m buf 48) (buf + 1) 0)
unfolding store high_first
zero-IsNumeral m value buf radix e lo = record {
  is_string = record { nonzero = λ i lt. ground arith; terminated = ground arith };
  number = ground (arith, e);
  others = λ a h. ground (arith, h);
  short = omega arith;
  digits = λ i lt. inl (ground arith, ground arith, ground arith);
  leading = λ pos. absurd (omega (arith, e));
}

Written-pos :
    (m m1 : Mem) (value buf radix k : ℕ) → 0 < value → Written m value buf radix k m1 → 0 < k
unfolding low_first
Written-pos m m1 value buf radix zero more w = omega (arith, w.number)
Written-pos m m1 value buf radix (suc k) more w = omega arith

Written-IsString :
    (m m1 : Mem) (value buf radix k : ℕ)
    → Written m value buf radix k m1
    → IsString (store m1 (buf + k) 0) buf k
unfolding store
Written-IsString m m1 value buf radix k w = record {
  nonzero = λ i lt. ground (arith, w.nonzero i);
  terminated = ground arith;
}

-- `itoa` of a value that fits 32 bits, in a radix from 2 to 36, comes to an end and leaves a string at
-- `buf` whose characters are the digits of the value, the highest first and with no `0` in front of
-- them, each a digit of the radix (`A` and on above 9), with a terminator, and changes nothing else.
pub itoa-IsNumeral :
    (m : Mem) (value buf radix : ℕ)
    → value < u32
    → 2 ≤ radix
    → radix ≤ 36
    → (k : ℕ) × (m' : Mem) × (itoa m value buf radix ≡ some m') × IsNumeral m value buf radix k m'
unfolding itoa
itoa-IsNumeral m value buf radix small lo hi = elim (ℕ_discrete value 0) [
  | yes none_left ↦
      let off : (value == 0) ≡ true = ground (arith, none_left) in
      (
        1,
        store (store m buf 48) (buf + 1) 0,
        rw off refl,
        zero-IsNumeral m value buf radix none_left lo,
      )
  | no more ↦
      let on : (value == 0) ≡ false = ground (arith, more) in
      let (k, m1, e, w) = itoa_loop-Written (value + 1) m value buf radix (omega arith) lo hi in
      let positive : 0 < k = Written-pos m m1 value buf radix k (omega (arith, more)) w in
      let turned =
        strrev-mirrored (store m1 (buf + k) 0) buf k (Written-IsString m m1 value buf radix k w)
          (omega (arith, w.short)) positive in
      (
        k,
        mirrored (store m1 (buf + k) 0) buf (buf + (k - 1)),
        rw (on, e) turned,
        mirrored-IsNumeral m m1 value buf radix k (omega (arith, more)) positive w,
      )
]
