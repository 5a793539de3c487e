-- ===== src/Pic.antt =====
-- student-distrib/i8259.c: the masks of the two interrupt controllers, and the commands that end an
-- interrupt.
pub mod Masks
use Prim.Native.Nat.{bit_and, bit_or}
use fireball_os.Base.{ℕ, ◌+◌, ◌-◌, ◌%◌, ◌^◌, ◌<◌, if◌then◌else◌, ltb, leb, List, [], ◌∷◌, u32}

-- PIC1, PIC2 and their data ports, EOI and GREATEST_IRQ
abbrev pub pic1 : ℕ
pic1 = 0x20

abbrev pub pic2 : ℕ
pic2 = 0xa0

abbrev pub pic1_data : ℕ
pic1_data = pic1 + 1

abbrev pub pic2_data : ℕ
pic2_data = pic2 + 1

abbrev pub eoi : ℕ
eoi = 0x60

abbrev pub greatest_irq : ℕ
greatest_irq = 8

-- the bytes at the two data ports, which are the interrupt masks
pub record Pics : Type 0 where
  pub master : ℕ
  pub slave : ℕ

-- `~(1 << n)` and `1 << n`, cut to a byte when they meet one
abbrev pub all_but : ℕ → ℕ
all_but n = (u32 - 1 - 2 ^ n) % 256

abbrev pub only : ℕ → ℕ
only n = 2 ^ n % 256

unfoldable pub enable_irq : Pics → (irq_num : ℕ) → Pics
enable_irq p irq_num =
    if ltb irq_num greatest_irq
    then record p { master = bit_and p.master (all_but irq_num) }
    else record p { slave = bit_and p.slave (all_but (irq_num - greatest_irq)) }

unfoldable pub disable_irq : Pics → (irq_num : ℕ) → Pics
disable_irq p irq_num =
    if ltb irq_num greatest_irq
    then record p { master = bit_or p.master (only irq_num) }
    else record p { slave = bit_or p.slave (only (irq_num - greatest_irq)) }

-- The writes of `send_eoi`, each a byte and a port.
unfoldable pub send_eoi : (irq_num : ℕ) → List (ℕ × ℕ)
send_eoi irq_num =
    if leb greatest_irq irq_num
    then (bit_or eoi (irq_num - greatest_irq) % 256, pic2) ∷ (bit_or eoi 2 % 256, pic1) ∷ []
    else (bit_or eoi irq_num % 256, pic1) ∷ []

unfoldable pub init_keyboard : Pics → Pics
unfolding enable_irq
init_keyboard p = enable_irq p 1

-- The writes of `i8259_init`, each a byte and a port, with the masks read first, and the masks that it
-- leaves: `master_mask` and `slave_mask` are not set. ICW2 has the vectors 32 and 40.
unfoldable pub i8259_init : Pics → Pics × List (ℕ × ℕ)
i8259_init p = (
  record p { master = 0xfb; slave = 0xff },
  (0x11, pic1)
      ∷ (0x11, pic2)
      ∷ (0x20, pic1_data)
      ∷ (0x28, pic2_data)
      ∷ (4, pic1_data)
      ∷ (2, pic2_data)
      ∷ (1, pic1_data)
      ∷ (1, pic2_data)
      ∷ (p.master, pic1_data)
      ∷ (p.slave, pic2_data)
      ∷ (0xfb, pic1_data)
      ∷ (0xff, pic2_data)
      ∷ [],
)
