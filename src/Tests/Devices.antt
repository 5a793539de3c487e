-- ===== src/Tests/Devices.antt =====
-- The real-time clock and the interrupt controllers.
use fireball_os.Base.{
  ℕ, ◌+◌, ◌-◌, ◌/◌, ◌^◌, ◌≡◌, refl, ◌==◌, if◌then◌else◌, some, arith, ret_success,
}
use fireball_os.Memory.{Mem, load32}
use fireball_os.Rtc.{Clock, rtc_write, set_rate, high_16_bit}
use fireball_os.Rtc.Rate.{rtc_write-rate}
use fireball_os.Pic.{Pics}
use fireball_os.Pic.Masks.{AreBytes}

-- the frequency 64 stands at 100, and 3 at 200
abbrev frequencies : Mem
frequencies a = if a == 100 then 64 else if a == 200 then 3 else 0

abbrev pub clock : Clock
clock = record { reg_a = 0x26; reg_b = 2; interrupt_number = 0 }

rtc_write-rate_example :
    (r : ℕ) × (rtc_write frequencies clock 100 4 ≡ some (ret_success, set_rate clock r))
    × ((set_rate clock r).reg_a ≡ 32 + r)
    × (high_16_bit / 2 ^ r ≡ 64)
    × (high_16_bit / 2 ^ (r - 1) ≡ 128)
unfolding load32
rtc_write-rate_example =
    rtc_write-rate frequencies clock 100 (omega arith) (omega arith) refl (omega arith)

abbrev pub all_masked : Pics
all_masked = record { master = 0xff; slave = 0xff }

are_bytes : AreBytes all_masked
are_bytes = record { master = omega arith; slave = omega arith }
