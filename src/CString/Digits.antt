-- ===== src/CString/Digits.antt =====
-- The loop of `itoa` of student-distrib/lib.c: the digits that it writes, the lowest first.
use fireball_os.Base.{
  ℕ, zero, suc, ◌+◌, ◌-◌, ◌*◌, ◌/◌, ◌%◌, ◌≤◌, ◌<◌, ◌≡◌, ◌≢◌, ◌∙◌, refl, sym, subst, ap, ap₂, inl,
  inr, arith, ◌==◌, if◌then◌else◌, leb, ltb, ◌&&◌, some, true, false, ◌⊎◌,
}
use native.Mathlib.Decide.{ℕ_discrete, dec_lt}
use fireball_os.Memory.{Mem, store}
use fireball_os.CString.{lookup_digit, itoa_loop}
use fireball_os.CString.Reverse.{mirrored}
use native.Mathlib.Nat.{mod-lt, mod-add-div, div-lt_self}

-- the digit that a character stands for
abbrev pub digit : ℕ → ℕ
digit c = if ltb c 58 then c - 48 else c - 55

digit-lookup_digit : (d : ℕ) → d < 36 → (digit (lookup_digit d) ≡ d) × (lookup_digit d ≢ 0)
unfolding lookup_digit
digit-lookup_digit d lt = (ground arith, ground arith)

-- `0` to `9` and `A` to `Z`, as many of them as the radix has digits
abbrev pub IsDigit : (radix c : ℕ) → Type 0
IsDigit radix c = ((48 ≤ c) × (c < 58) × (c < 48 + radix)) ⊎ ((65 ≤ c) × (c < 55 + radix))

lookup_digit-IsDigit : (radix d : ℕ) → d < radix → radix ≤ 36 → IsDigit radix (lookup_digit d)
unfolding lookup_digit
lookup_digit-IsDigit radix d lt hi = elim (dec_lt d 10) [
  | yes low ↦ inl (ground arith, ground arith, ground arith)
  | no high ↦ inr (ground (arith, high), ground (arith, high))
]

lookup_digit-nonzero : (d : ℕ) → 0 < d → d < 36 → lookup_digit d ≢ 48
unfolding lookup_digit
lookup_digit-nonzero d more lt = ground arith

-- the number that `n` characters stand for, the first digit being the lowest, and the highest
unfoldable pub low_first : Mem → (radix at n : ℕ) → ℕ
low_first m radix at zero = 0
low_first m radix at (suc n) = digit (m at) + radix * low_first m radix (at + 1) n

unfoldable pub high_first : Mem → (radix at n : ℕ) → ℕ
high_first m radix at zero = 0
high_first m radix at (suc n) = high_first m radix at n * radix + digit (m (at + n))

-- What the loop leaves: `k` digits of the value from `at` on.
pub record Written (m : Mem) (value at radix k : ℕ) (m' : Mem) : Type 0 where
  pub number : low_first m' radix at k ≡ value
  pub nonzero : (i : ℕ) → i < k → m' (at + i) ≢ 0
  pub others : (a : ℕ) → (a < at) ⊎ (at + k ≤ a) → m' a ≡ m a
  pub short : k ≤ value
  pub digits : (i : ℕ) → i < k → IsDigit radix (m' (at + i))
  pub leading : 0 < k → m' (at + (k - 1)) ≢ 48

Written-zero : (m : Mem) (value at radix : ℕ) → value ≡ 0 → Written m value at radix 0 m
unfolding low_first
Written-zero m value at radix e = record {
  number = sym e;
  nonzero = λ i lt. absurd (omega arith);
  others = λ a h. refl;
  short = omega arith;
  digits = λ i lt. absurd (omega arith);
  leading = λ lt. absurd (omega arith);
}

-- what holds at the first place and at the `k` places behind it
first_or_next :
    (P : ℕ → Type 0) (at k : ℕ)
    → P at
    → ((i : ℕ) → i < k → P (at + 1 + i))
    → (i : ℕ) → i < suc k
    → P (at + i)
first_or_next P at k first next i lt = elim (ℕ_discrete i 0) [
  | yes z ↦ let at_i : at ≡ at + i = omega (arith, z) in subst P at_i first
  | no nz ↦
      let at_i : at + 1 + (i - 1) ≡ at + i = omega (arith, nz) in
      subst P at_i (next (i - 1) (omega (arith, nz)))
]

Written-suc :
    (m m' : Mem) (value at radix k : ℕ)
    → 0 < value
    → 2 ≤ radix
    → radix ≤ 36
    → Written (store m at (lookup_digit (value % radix))) (value / radix) (at + 1) radix k m'
    → Written m value at radix (suc k) m'
unfolding low_first store
Written-suc m m' value at radix k more lo hi w =
    let under : value % radix < radix = mod-lt value {m = radix} (omega arith) in
    let below : value % radix < 36 = omega (arith, under) in
    let (reads, shown) = digit-lookup_digit (value % radix) below in
    let same : (at == at) ≡ true = ground arith in
    let first : m' at ≡ lookup_digit (value % radix) =
      w.others at (inl (omega arith)) ∙ rw same refl in
    record {
      number =
          ap₂ (λ d rest. digit d + radix * rest) first w.number
          ∙ ap (λ d. d + radix * (value / radix)) reads
          ∙ mod-add-div value radix;
      nonzero = first_or_next (λ a. m' a ≢ 0) at k (λ z. shown (sym first ∙ z)) w.nonzero;
      others = λ a h. ground (arith, w.others a, h);
      short = omega (arith, w.short, div-lt_self {n = value} {k = radix} more (omega arith));
      digits =
          first_or_next (λ a. IsDigit radix (m' a)) at k
            (subst (IsDigit radix) (sym first)
              (lookup_digit-IsDigit radix (value % radix) under hi))
            w.digits;
      leading = λ pos. elim (ℕ_discrete k 0) [
        | yes only ↦
            let here : at ≡ at + (suc k - 1) = omega (arith, only) in
            let top : low_first m' radix (at + 1) k ≡ 0 = rw only refl in
            let whole : value % radix + radix * 0 ≡ value =
              subst (λ q. value % radix + radix * q ≡ value) (sym w.number ∙ top)
                (mod-add-div value radix) in
            subst (λ a. m' a ≢ 48) here
              (λ z.
                lookup_digit-nonzero (value % radix) (omega (arith, whole)) below (sym first ∙ z))
        | no some_more ↦
            let at_k : at + 1 + (k - 1) ≡ at + (suc k - 1) = omega (arith, some_more) in
            subst (λ a. m' a ≢ 48) at_k (w.leading (omega (arith, some_more)))
      ];
    }

pub itoa_loop-Written :
    (f : ℕ) (m : Mem) (value at radix : ℕ)
    → value < f
    → 2 ≤ radix
    → radix ≤ 36
    → (k : ℕ) × (m' : Mem) × (itoa_loop f m value at radix ≡ some (at + k, m'))
      × Written m value at radix k m'
unfolding itoa_loop
itoa_loop-Written zero m value at radix enough lo hi = absurd (omega arith)
itoa_loop-Written (suc f) m value at radix enough lo hi = elim (ℕ_discrete value 0) [
  | yes done ↦
      let off : (value == 0) ≡ true = ground (arith, done) in
      let stays : at ≡ at + 0 = omega arith in
      (0, m, rw (off, itoa_loop) (ap (λ a. some (a, m)) stays), Written-zero m value at radix done)
  | no more ↦
      let positive : 0 < value = omega (arith, more) in
      let on : (value == 0) ≡ false = ground (arith, more) in
      let less = div-lt_self {n = value} {k = radix} positive (omega arith) in
      let (k, m', e, w) =
        itoa_loop-Written f (store m at (lookup_digit (value % radix))) (value / radix) (at + 1)
          radix (omega (arith, less)) lo hi in
      let moved : at + 1 + k ≡ at + suc k = omega arith in
      (
        suc k,
        m',
        rw (on, itoa_loop) (e ∙ ap (λ a. some (a, m')) moved),
        Written-suc m m' value at radix k positive lo hi w,
      )
]

pub low_first-same :
    (m m' : Mem) (radix at n : ℕ)
    → ((a : ℕ) → at ≤ a → a < at + n → m' a ≡ m a)
    → low_first m' radix at n ≡ low_first m radix at n
unfolding low_first
low_first-same m m' radix at zero h = refl
low_first-same m m' radix at (suc n) h =
    ap₂ (λ c rest. digit c + radix * rest) (h at (omega arith) (omega arith))
      (low_first-same m m' radix (at + 1) n (λ a le lt. h a (omega arith) (omega arith)))

-- the lowest digit first, turned round
pub high_first-mirrored :
    (m : Mem) (radix at n k : ℕ)
    → k ≤ n
    → high_first (mirrored m at (at + (n - 1))) radix at k ≡ low_first m radix (at + (n - k)) k
unfolding high_first low_first
high_first-mirrored m radix at n zero le = refl
high_first-mirrored m radix at n (suc k) le =
    let inside : (leb at (at + k) && leb (at + k) (at + (n - 1))) ≡ true = ground arith in
    let place : at + (at + (n - 1)) - (at + k) ≡ at + (n - suc k) = omega arith in
    let next : at + (n - k) ≡ at + (n - suc k) + 1 = omega arith in
    let last : mirrored m at (at + (n - 1)) (at + k) ≡ m (at + (n - suc k)) =
      rw inside (ap m place) in
    ap₂ (λ rest c. rest * radix + digit c) (high_first-mirrored m radix at n k (omega arith)) last
    ∙ ap (λ a. low_first m radix a k * radix + digit (m (at + (n - suc k)))) next
    ∙ grind arith
