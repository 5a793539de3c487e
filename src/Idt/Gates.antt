-- ===== src/Idt/Gates.antt =====
-- What `set_idt` of student-distrib/int_handler.c lets the processor and user programs call.
use fireball_os.Base.{
  ℕ, ◌+◌, ◌*◌, ◌/◌, ◌%◌, ◌^◌, ◌<◌, ◌≡◌, ◌≢◌, refl, arith, ◌==◌, if◌then◌else◌, ◌||◌, ltb, ◌&&◌,
  Bool, true, false,
}
use fireball_os.Idt.{
  Gate, Handler, Idt, set_idt, set_exception, set_interrupt, set_systemcall, entry_loop,
  syscall_handler, pit_wrapper, kbd_wrapper, rtc_wrapper, mouse_wrapper,
}

abbrev pub is_interrupt : ℕ → Bool
is_interrupt i = (i == 32 || i == 33) || (i == 40 || i == 44)

abbrev pub is_exception : ℕ → Bool
is_exception i = ltb i 20 && (if i == 1 then false else if i == 15 then false else true)

-- the entry of a vector, as the processor reads it
abbrev pub target : Gate → ℕ
target g = 65536 * g.offset_31_16 + g.offset_15_00

-- a gate for the kernel alone that closes interrupts, with the handler behind it
abbrev pub Leads : (Handler → ℕ) → Gate → Handler → Type 0
Leads address g h = (target g ≡ address h) × (g.present ≡ 1) × (g.dpl ≡ 0) × (g.reserved3 ≡ 0)

module _ (address : Handler → ℕ) (small : (h : Handler) → address h < 2 ^ 32) where
  dpl_after :
      (e i s : Gate) (idt : Idt) (v : ℕ)
      → (set_idt address e i s idt v).dpl
        ≡ (if v == 128 then 3 else if is_interrupt v || is_exception v then 0 else (idt v).dpl)
  unfolding set_idt set_exception set_interrupt set_systemcall entry_loop
  dpl_after e i s idt v = ground arith

  present_after :
      (e i s : Gate) (idt : Idt) (v : ℕ)
      → (set_idt address e i s idt v).present
        ≡ (if (v == 128 || is_interrupt v) || is_exception v then 1 else (idt v).present)
  unfolding set_idt set_exception set_interrupt set_systemcall entry_loop
  present_after e i s idt v = ground arith

  halves : (h : Handler) → 65536 * (address h / 65536 % 65536) + address h % 65536 ≡ address h
  halves h = omega (arith, small h)

  syscall_target :
      (e i s : Gate) (idt : Idt) → target (set_idt address e i s idt 128) ≡ address syscall_handler
  unfolding set_idt set_systemcall
  syscall_target e i s idt = halves syscall_handler

  -- Of a table that had no gate that is open to user programs, and none that is present, with all
  -- handlers below 2 ^ 32: the gates present afterwards are those of the processor's exceptions, of
  -- the timer, keyboard, clock and mouse, and 128; and the only one of the 256 that a user program
  -- may call is 128, which leads to the handler of the system calls.
  pub set_idt-user :
      (e i s : Gate) (idt : Idt) (v : ℕ)
      → ((v : ℕ) → (idt v).dpl ≢ 3)
      → ((v : ℕ) → (idt v).present ≡ 0)
      → let g = set_idt address e i s idt v in
        (g.dpl ≡ 3 → (v ≡ 128) × (target g ≡ address syscall_handler))
        × (g.present ≡ (if (v == 128 || is_interrupt v) || is_exception v then 1 else 0))
  set_idt-user e i s idt v closed absent =
      let dpl = dpl_after e i s idt v in
      (
        (λ callable.
            let here : v ≡ 128 = ground (arith, closed v) in
            (here, rw here (syscall_target e i s idt))),
        ground (arith, present_after e i s idt v, absent v),
      )

  -- With all handlers below 2 ^ 32, the four interrupts of the devices, which the controllers are
  -- set to deliver from vector 32 on, lead to the handlers of the timer, the keyboard, the clock and
  -- the mouse, whatever the table held; each gate closes interrupts and is for the kernel alone.
  pub set_idt-devices :
      (e i s : Gate) (idt : Idt)
      → let idt' = set_idt address e i s idt in
        Leads address (idt' (32 + 0)) pit_wrapper
        × Leads address (idt' (32 + 1)) kbd_wrapper
        × Leads address (idt' (32 + 8)) rtc_wrapper
        × Leads address (idt' (32 + 12)) mouse_wrapper
  unfolding set_idt set_interrupt set_systemcall
  set_idt-devices e i s idt = (
    (halves pit_wrapper, refl, refl, refl),
    (halves kbd_wrapper, refl, refl, refl),
    (halves rtc_wrapper, refl, refl, refl),
    (halves mouse_wrapper, refl, refl, refl),
  )
