-- ===== src/Rtc.antt =====
-- student-distrib/rtc.c: the real-time clock, by its registers A and B and the count of its
-- interrupts. `rtc_open` and the rest of the jump table's view is in Descriptors.
pub mod Rate
use Prim.Native.Nat.{bit_and, bit_or}
use fireball_os.Base.{
  ℕ, zero, suc, ◌+◌, ◌-◌, ◌/◌, ◌%◌, ◌^◌, ◌==◌, if◌then◌else◌, ltb, ◌||◌, not, Bool, Option, none,
  some, ◌>>=◌, add32, List, ret_failure, ret_success, true, false,
}
use fireball_os.Memory.{Mem, load32}
use fireball_os.Pic.{Pics, enable_irq, send_eoi}

-- INIT_RATE, FIRST_4_BITS, BIT_6, HIGHEST_FREQ, LOWEST_FREQ, HIGH_16_BIT and RTC_PORT_NO
abbrev pub init_rate : ℕ
init_rate = 0x0e

abbrev pub first_4_bits : ℕ
first_4_bits = 0xf0

abbrev pub bit_6 : ℕ
bit_6 = 0x40

abbrev pub highest_freq : ℕ
highest_freq = 1024

abbrev pub lowest_freq : ℕ
lowest_freq = 2

abbrev pub high_16_bit : ℕ
high_16_bit = 32768

abbrev pub rtc_port_no : ℕ
rtc_port_no = 8

pub record Clock : Type 0 where
  pub reg_a : ℕ
  pub reg_b : ℕ
  pub interrupt_number : ℕ

-- the writes to registers A and B that `init_rtc` and `rtc_write` share
abbrev pub set_rate : Clock → ℕ → Clock
set_rate c rate = record c {
  reg_a = bit_or (bit_and c.reg_a first_4_bits) rate;
  reg_b = bit_or c.reg_b bit_6;
}

unfoldable pub init_rtc : Clock → Pics → Clock × Pics
init_rtc c p = (record (set_rate c init_rate) { interrupt_number = 0 }, enable_irq p rtc_port_no)

-- The count, and the writes that end the interrupt. The byte read from register C is thrown away.
unfoldable pub rtc_int_handler : Clock → Clock × List (ℕ × ℕ)
rtc_int_handler c =
    (record c { interrupt_number = add32 c.interrupt_number 1 }, send_eoi rtc_port_no)

-- The `while` loop of `rtc_write` and the `rate--` behind it. A shift by 32 or more is undefined in
-- C, so the loop is followed for 31 rounds; `none` is a loop that goes further.
unfoldable pub rate_loop : ℕ → (frequency rate : ℕ) → Option ℕ
rate_loop zero frequency rate = none
rate_loop (suc n) frequency rate = elim (frequency == high_16_bit / 2 ^ (rate - 1)) [
  | true ↦ some (rate - 1)
  | false ↦ rate_loop n frequency (rate + 1)
]

unfoldable pub rtc_write : Mem → Clock → (buf nbytes : ℕ) → Option (ℕ × Clock)
rtc_write m c buf nbytes =
    if not (nbytes == 4)
    then some (ret_failure, c)
    else (let frequency = load32 m buf in
        if ltb highest_freq frequency || ltb frequency lowest_freq
        then some (ret_failure, c)
        else (rate_loop 31 frequency lowest_freq >>= λ rate. some (ret_success, set_rate c rate)))
