-- ===== src/Rtc/Rate.antt =====
-- Which frequencies `rtc_write` accepts, and what it programs.
use Prim.Native.Nat.{bit_and, bit_or}
use fireball_os.Base.{
  ℕ, ◌+◌, ◌-◌, ◌*◌, ◌/◌, ◌^◌, ◌≤◌, ◌<◌, ◌≡◌, refl, ◌==◌, if◌then◌else◌, ltb, ◌||◌, ◌&&◌, Bool,
  Option, none, some, ◌>>=◌, ret_success, true, false, passes_below, passes-passes_below, ==_iff,
  arith,
}
use fireball_os.Memory.{Mem, load32}
use fireball_os.Rtc.{
  Clock, rate_loop, rtc_write, set_rate, high_16_bit, lowest_freq, highest_freq, first_4_bits,
}

-- the powers of two from 2 to 1024, with their exponents
abbrev pub is_power : ℕ → Bool
is_power f =
    ((f == 2 || f == 4) || (f == 8 || f == 16))
    || ((f == 32 || f == 64) || (f == 128 || f == 256) || (f == 512 || f == 1024))

-- whether a rate was found, and `32768 >> rate` is the frequency
abbrev good_rate : ℕ → Option ℕ → Bool
good_rate f none = false
good_rate f (some r) = (ltb r 16 && ltb 0 r) && high_16_bit / 2 ^ r == f

abbrev no_rate : Option ℕ → Bool
no_rate none = true
no_rate (some r) = false

-- both claims about the loop, at every frequency up to the highest
abbrev rate_checked : ℕ → Bool
rate_checked f =
    if ltb f 2
    then true
    else if is_power f
    then good_rate f (rate_loop 31 f lowest_freq)
    else no_rate (rate_loop 31 f lowest_freq)

rate_table : passes_below 1025 rate_checked ≡ true
unfolding passes_below rate_loop
rate_table = refl

rate_at : (f : ℕ) → f < 1025 → rate_checked f ≡ true
rate_at f lt = passes-passes_below 1025 rate_checked f rate_table lt

GoodRate : ℕ → ℕ → Type 0
GoodRate f r = (0 < r) × (r < 16) × (high_16_bit / 2 ^ r ≡ f)

good_rate-some :
    (f : ℕ) (o : Option ℕ) → good_rate f o ≡ true → (r : ℕ) × (o ≡ some r) × GoodRate f r
unfolding GoodRate
good_rate-some f none e = cc
good_rate-some f (some r) e = (r, refl, ground arith)

no_rate-none : (o : Option ℕ) → no_rate o ≡ true → o ≡ none
no_rate-none none e = refl
no_rate-none (some r) e = cc

abbrev low_nibble : ℕ → ℕ → Bool
low_nibble r a = bit_or (bit_and a first_4_bits) r == a / 16 * 16 + r

nibble_table : passes_below 16 (λ r. passes_below 256 (low_nibble r)) ≡ true
unfolding passes_below
nibble_table = refl

nibble_at : (r a : ℕ) → r < 16 → a < 256 → bit_or (bit_and a first_4_bits) r ≡ a / 16 * 16 + r
nibble_at r a hr ha = (==_iff _ _).0 (
    passes-passes_below 256 (low_nibble r) a
      (passes-passes_below 16 (λ r. passes_below 256 (low_nibble r)) r nibble_table hr) ha)

abbrev doubles : ℕ → Bool
doubles r = r == 0 || high_16_bit / 2 ^ (r - 1) == 2 * (high_16_bit / 2 ^ r)

double_table : passes_below 16 doubles ≡ true
unfolding passes_below
double_table = refl

double_rate : (r f : ℕ) → GoodRate f r → high_16_bit / 2 ^ (r - 1) ≡ 2 * f
unfolding GoodRate
double_rate r f good =
    let row : doubles r ≡ true = passes-passes_below 16 doubles r double_table good.1 in
    ground (arith, row, good)

module _ (m : Mem) (c : Clock) (buf : ℕ) (low : 2 ≤ load32 m buf) (high : load32 m buf < 1025) where
  enters :
      rtc_write m c buf 4
      ≡ (rate_loop 31 (load32 m buf) lowest_freq >>= λ rate. some (ret_success, set_rate c rate))
  unfolding rtc_write
  enters =
      let a : ltb highest_freq (load32 m buf) ≡ false = ground arith in
      let b : ltb (load32 m buf) lowest_freq ≡ false = ground arith in rw (a, b)

  checked : rate_checked (load32 m buf) ≡ true
  checked = passes-passes_below 1025 rate_checked (load32 m buf) rate_table high

  -- For a frequency from 2 to 1024 that is a power of two, and a register A of one byte, `rtc_write` returns 0 and programs the
  -- low four bits of register A with the rate at which 32768 shifted right by the rate is the
  -- frequency, leaving the high bits as they were; the clock, which ticks 32768 shifted right by
  -- one less than the rate times a second, then ticks twice as often as asked.
  pub rtc_write-rate :
      is_power (load32 m buf) ≡ true
      → c.reg_a < 256
      → (r : ℕ) × (rtc_write m c buf 4 ≡ some (ret_success, set_rate c r))
        × ((set_rate c r).reg_a ≡ c.reg_a / 16 * 16 + r)
        × (high_16_bit / 2 ^ r ≡ load32 m buf)
        × (high_16_bit / 2 ^ (r - 1) ≡ 2 * load32 m buf)
  unfolding GoodRate
  rtc_write-rate p byte =
      let small : ltb (load32 m buf) 2 ≡ false = ground arith in
      let (r, e, good) =
        good_rate-some (load32 m buf) (rate_loop 31 (load32 m buf) lowest_freq)
          (rw (small, p) at checked) in
      (
        r,
        rw (enters, e),
        nibble_at r c.reg_a good.1 byte,
        good.2,
        double_rate r (load32 m buf) good,
      )

  -- For a frequency from 2 to 1024 that is no power of two, the loop of `rtc_write` does not find a
  -- rate in 31 rounds, and the call has no result.
  pub rtc_write-none : is_power (load32 m buf) ≡ false → rtc_write m c buf 4 ≡ none
  rtc_write-none p =
      let small : ltb (load32 m buf) 2 ≡ false = ground arith in
      rw (enters, no_rate-none (rate_loop 31 (load32 m buf) lowest_freq) (rw (small, p) at checked))
