-- ===== src/Idt.antt =====
-- student-distrib/int_handler.c: the interrupt descriptor table, and the handlers of the exceptions.
pub mod Gates
use fireball_os.Base.{
  ℕ, zero, suc, ◌+◌, ◌-◌, ◌/◌, ◌%◌, ◌==◌, if◌then◌else◌, ◌||◌, Bool, true, false, List, [], ◌∷◌,
}
use fireball_os.Pic.{Pics, disable_irq}
use fireball_os.Console.{Display}
use fireball_os.Video.{Video, clear_blue, putc}

-- `idt_desc_t`
pub record Gate : Type 0 where
  pub offset_15_00 : ℕ
  pub seg_selector : ℕ
  pub reserved4 : ℕ
  pub reserved3 : ℕ
  pub reserved2 : ℕ
  pub reserved1 : ℕ
  pub size : ℕ
  pub reserved0 : ℕ
  pub dpl : ℕ
  pub present : ℕ
  pub offset_31_16 : ℕ

-- the functions whose addresses stand in the table
pub data Handler : Type 0 where
  divide_error : Handler
  nmi_interrupt : Handler
  breakpoint : Handler
  overflow : Handler
  bound_range_exceeded : Handler
  invalid_opcode : Handler
  device_not_available : Handler
  double_fault : Handler
  coprocessor_segment_overrun : Handler
  invalid_tss : Handler
  segment_not_present : Handler
  stack_segment_fault : Handler
  general_protection : Handler
  page_fault : Handler
  floating_point_error : Handler
  alignment_check : Handler
  machine_check : Handler
  floating_point_exception : Handler
  rtc_wrapper : Handler
  kbd_wrapper : Handler
  pit_wrapper : Handler
  mouse_wrapper : Handler
  syscall_handler : Handler

abbrev pub Idt : Type 0
Idt = ℕ → Gate

abbrev pub set_gate : Idt → ℕ → Gate → Idt
set_gate idt i g j = if j == i then g else idt j

abbrev pub kernel_cs : ℕ
kernel_cs = 0x10

-- `idt_entry` in each of the three functions; the fields that are not set are `rest`'s.
abbrev pub idt_entry : Gate → (dpl reserved3 : ℕ) → Gate
idt_entry rest dpl reserved3 = record rest {
  seg_selector = kernel_cs;
  dpl = dpl;
  present = 1;
  size = 1;
  reserved0 = 0;
  reserved1 = 1;
  reserved2 = 1;
  reserved3 = reserved3;
}

abbrev pub is_reserved : ℕ → Bool
is_reserved i = i == 1 || i == 15

-- the loop of `set_exception`, with `20 - i` rounds left
unfoldable pub entry_loop : ℕ → Gate → Idt → (i : ℕ) → Idt
entry_loop zero g idt i = idt
entry_loop (suc n) g idt i =
    entry_loop n g (if is_reserved i then idt else set_gate idt i g) (i + 1)

-- The linker places the handlers.
module _ (address : Handler → ℕ) where
  -- SET_IDT_ENTRY
  abbrev pub set_idt_entry : Idt → ℕ → Handler → Idt
  set_idt_entry idt i h = set_gate idt i (record (idt i) {
    offset_31_16 = address h / 65536 % 65536;
    offset_15_00 = address h % 65536;
  })

  abbrev pub set_entries : List (ℕ × Handler) → Idt → Idt
  set_entries [] idt = idt
  set_entries ((i, h) ∷ rest) idt = set_entries rest (set_idt_entry idt i h)

  abbrev pub exceptions : List (ℕ × Handler)
  exceptions =
      (0, divide_error)
      ∷ (2, nmi_interrupt)
      ∷ (3, breakpoint)
      ∷ (4, overflow)
      ∷ (5, bound_range_exceeded)
      ∷ (6, invalid_opcode)
      ∷ (7, device_not_available)
      ∷ (8, double_fault)
      ∷ (9, coprocessor_segment_overrun)
      ∷ (10, invalid_tss)
      ∷ (11, segment_not_present)
      ∷ (12, stack_segment_fault)
      ∷ (13, general_protection)
      ∷ (14, page_fault)
      ∷ (16, floating_point_error)
      ∷ (17, alignment_check)
      ∷ (18, machine_check)
      ∷ (19, floating_point_exception)
      ∷ []

  unfoldable pub set_exception : Gate → Idt → Idt
  unfolding entry_loop
  set_exception rest idt = set_entries exceptions (entry_loop 20 (idt_entry rest 0 1) idt 0)

  unfoldable pub set_interrupt : Gate → Idt → Idt
  set_interrupt rest idt =
      let g = idt_entry rest 0 0 in
      set_entries
        ((40, rtc_wrapper) ∷ (33, kbd_wrapper) ∷ (32, pit_wrapper) ∷ (44, mouse_wrapper) ∷ [])
        (set_gate (set_gate (set_gate (set_gate idt 33 g) 40 g) 32 g) 44 g)

  unfoldable pub set_systemcall : Gate → Idt → Idt
  set_systemcall rest idt =
      set_idt_entry (set_gate idt 128 (idt_entry rest 3 0)) 128 syscall_handler

  -- `e`, `i` and `s` are what the three local variables have in the fields that are not set.
  unfoldable pub set_idt : (e i s : Gate) → Idt → Idt
  unfolding set_exception set_interrupt set_systemcall
  set_idt e i s idt = set_systemcall s (set_interrupt i (set_exception e idt))

-- the texts that the handlers print, less the wrappers', which print none
unfoldable pub message : Handler → List ℕ
message divide_error = 68 ∷ 105 ∷ 118 ∷ 105 ∷ 100 ∷ 101 ∷ 32 ∷ 101 ∷ 114 ∷ 114 ∷ 111 ∷ 114 ∷ 33 ∷ []
message nmi_interrupt =
    78 ∷ 77 ∷ 73 ∷ 32 ∷ 73 ∷ 110 ∷ 116 ∷ 101 ∷ 114 ∷ 114 ∷ 117 ∷ 112 ∷ 116 ∷ 33 ∷ []
message breakpoint = 98 ∷ 114 ∷ 101 ∷ 97 ∷ 107 ∷ 112 ∷ 111 ∷ 105 ∷ 110 ∷ 116 ∷ 33 ∷ []
message overflow = 111 ∷ 118 ∷ 101 ∷ 114 ∷ 102 ∷ 108 ∷ 111 ∷ 119 ∷ 33 ∷ []
message bound_range_exceeded =
    66 ∷ 79 ∷ 85 ∷ 78 ∷ 68 ∷ 32 ∷ 114 ∷ 97 ∷ 110 ∷ 103 ∷ 101 ∷ 32 ∷ 101 ∷ 120 ∷ 99 ∷ 101 ∷ 101 ∷ 100
    ∷ 101 ∷ 100 ∷ 33 ∷ []
message invalid_opcode =
    73 ∷ 110 ∷ 118 ∷ 97 ∷ 108 ∷ 105 ∷ 100 ∷ 32 ∷ 79 ∷ 112 ∷ 99 ∷ 111 ∷ 100 ∷ 101 ∷ 33 ∷ []
message device_not_available =
    68 ∷ 101 ∷ 118 ∷ 105 ∷ 99 ∷ 101 ∷ 32 ∷ 78 ∷ 111 ∷ 116 ∷ 32 ∷ 97 ∷ 118 ∷ 97 ∷ 105 ∷ 108 ∷ 97 ∷ 98
    ∷ 108 ∷ 101 ∷ []
message double_fault = 68 ∷ 111 ∷ 117 ∷ 98 ∷ 108 ∷ 101 ∷ 32 ∷ 70 ∷ 97 ∷ 117 ∷ 108 ∷ 116 ∷ 33 ∷ []
message coprocessor_segment_overrun =
    99 ∷ 111 ∷ 112 ∷ 114 ∷ 111 ∷ 99 ∷ 101 ∷ 115 ∷ 115 ∷ 111 ∷ 114 ∷ 95 ∷ 115 ∷ 101 ∷ 103 ∷ 109 ∷ 101
    ∷ 110 ∷ 116 ∷ 95 ∷ 111 ∷ 118 ∷ 101 ∷ 114 ∷ 114 ∷ 117 ∷ 110 ∷ 33 ∷ []
message invalid_tss = 73 ∷ 110 ∷ 118 ∷ 97 ∷ 108 ∷ 105 ∷ 100 ∷ 32 ∷ 84 ∷ 83 ∷ 83 ∷ 33 ∷ []
message segment_not_present =
    83 ∷ 101 ∷ 103 ∷ 109 ∷ 101 ∷ 110 ∷ 116 ∷ 32 ∷ 110 ∷ 111 ∷ 116 ∷ 32 ∷ 112 ∷ 114 ∷ 101 ∷ 115 ∷ 101
    ∷ 110 ∷ 116 ∷ 33 ∷ []
message stack_segment_fault =
    83 ∷ 116 ∷ 97 ∷ 99 ∷ 107 ∷ 32 ∷ 83 ∷ 101 ∷ 103 ∷ 109 ∷ 101 ∷ 110 ∷ 116 ∷ 32 ∷ 70 ∷ 97 ∷ 117
    ∷ 108 ∷ 116 ∷ 33 ∷ []
message general_protection =
    71 ∷ 101 ∷ 110 ∷ 101 ∷ 114 ∷ 97 ∷ 108 ∷ 32 ∷ 80 ∷ 114 ∷ 111 ∷ 116 ∷ 101 ∷ 99 ∷ 116 ∷ 105 ∷ 111
    ∷ 110 ∷ []
message page_fault = 80 ∷ 97 ∷ 103 ∷ 101 ∷ 32 ∷ 70 ∷ 97 ∷ 117 ∷ 108 ∷ 116 ∷ 33 ∷ []
message floating_point_error =
    70 ∷ 108 ∷ 111 ∷ 97 ∷ 116 ∷ 105 ∷ 110 ∷ 103 ∷ 32 ∷ 80 ∷ 111 ∷ 105 ∷ 110 ∷ 116 ∷ 32 ∷ 69 ∷ 114
    ∷ 114 ∷ 111 ∷ 114 ∷ 33 ∷ []
message alignment_check =
    65 ∷ 108 ∷ 105 ∷ 103 ∷ 110 ∷ 109 ∷ 101 ∷ 110 ∷ 116 ∷ 32 ∷ 67 ∷ 104 ∷ 101 ∷ 99 ∷ 107 ∷ 33 ∷ []
message machine_check = 77 ∷ 97 ∷ 99 ∷ 104 ∷ 105 ∷ 110 ∷ 101 ∷ 32 ∷ 67 ∷ 104 ∷ 101 ∷ 99 ∷ 107 ∷ []
message floating_point_exception =
    70 ∷ 108 ∷ 111 ∷ 97 ∷ 116 ∷ 105 ∷ 110 ∷ 103 ∷ 32 ∷ 80 ∷ 111 ∷ 105 ∷ 110 ∷ 116 ∷ 32 ∷ 69 ∷ 120
    ∷ 99 ∷ 101 ∷ 112 ∷ 116 ∷ 105 ∷ 111 ∷ 110 ∷ []
message rtc_wrapper = []
message kbd_wrapper = []
message pit_wrapper = []
message mouse_wrapper = []
message syscall_handler = []

-- `printf` of a text without `%`
abbrev pub print : List ℕ → Display → Video → Display × Video
print [] d v = (d, v)
print (c ∷ cs) d v = let (d', v') = putc c d v in print cs d' v'

-- The handlers of general protection and of the page fault leave the screen and stop the timer too.
abbrev pub keeps_screen : Handler → Bool
keeps_screen general_protection = true
keeps_screen page_fault = true
keeps_screen divide_error = false
keeps_screen nmi_interrupt = false
keeps_screen breakpoint = false
keeps_screen overflow = false
keeps_screen bound_range_exceeded = false
keeps_screen invalid_opcode = false
keeps_screen device_not_available = false
keeps_screen double_fault = false
keeps_screen coprocessor_segment_overrun = false
keeps_screen invalid_tss = false
keeps_screen segment_not_present = false
keeps_screen stack_segment_fault = false
keeps_screen floating_point_error = false
keeps_screen alignment_check = false
keeps_screen machine_check = false
keeps_screen floating_point_exception = false
keeps_screen rtc_wrapper = false
keeps_screen kbd_wrapper = false
keeps_screen pit_wrapper = false
keeps_screen mouse_wrapper = false
keeps_screen syscall_handler = false

-- What the handler of an exception leaves for its endless loop.
unfoldable pub exception : Handler → Pics → Display → Video → Pics × (Display × Video)
unfolding message
exception h p d v =
    let p1 = disable_irq p 1 in
    if keeps_screen h
    then (disable_irq p1 0, print (message h) d v)
    else (p1, print (message h) d (clear_blue v))
