-- ===== src/StartUp/Ready.antt =====
-- What start-up leaves for the system calls and the interrupt handlers.
use fireball_os.Base.{
  ℕ, zero, suc, ◌+◌, ◌*◌, ◌/◌, ◌%◌, ◌<◌, ◌≡◌, refl, ap, ◌∙◌, arith, ◌==◌, if◌then◌else◌, ltb, add32,
  some, ◌>>=◌, List, [], ◌∷◌, ◌||◌, Bool, true, not, passes_below, passes-passes_below, same,
}
use fireball_os.FileSystem.{init_filesys}
use fireball_os.Paging.{Layout}
use fireball_os.Paging.Invariant.{IsWell, init_paging-IsWell}
use fireball_os.Idt.{Gate, Handler}
use fireball_os.Pic.{Pics, i8259_init, init_keyboard, enable_irq}
use fireball_os.Pic.Masks.{masked, same_eq}
use fireball_os.Rtc.{init_rtc}
use fireball_os.Mouse.{init_mouse}
use fireball_os.Console.{Display, Buffer, reset_buf, space}
use fireball_os.Console.Scroll.{reset_buf-at}
use fireball_os.Video.{Video, reset_scr}
use fireball_os.Memory.{store}
use fireball_os.Terminal.{Terminals, terminal_init, screen_assign, set_entry}
use fireball_os.Terminal.Writing.{CanWrite}
use fireball_os.StatusBar.{init_pit}
use fireball_os.StartUp.{
  System, init_devices, init_terminals, greet, set_up, colour_loop, boot_screen, bit_map,
}

-- a buffer of blanks, with its cells in their places
abbrev pub IsBlank : Buffer → Type 0
IsBlank b =
    (i : ℕ)
    → i < 2000
    → b i ≡ record { x_coord = i % 80; y_coord = i / 80; mo = space; printed = 0 }

-- Three terminals with a blank buffer each, the first of them shown, with the cursor at its start.
pub record AreFresh (t : Terminals) : Type 0 where
  pub shown : t.screen_num ≡ 0
  pub buffers : (i : ℕ) → i < 3 → t.screens i ≡ some i
  pub blank : (i : ℕ) → i < 3 → IsBlank (t.buffs i)
  pub column : t.display.buf_x ≡ 0
  pub row : t.display.buf_y ≡ 0

reset_buf-IsBlank : (d : Display) (b : Buffer) → IsBlank (reset_buf d b).1
reset_buf-IsBlank d b i lt =
    let (x, y, at) = reset_buf-at d b i in
    let inside : ltb i 2000 ≡ true = ground arith in at ∙ (rw inside refl)

below_three : (P : ℕ → Type 0) → P 0 → P 1 → P 2 → (i : ℕ) → i < 3 → P i
below_three P p q r zero lt = p
below_three P p q r (suc zero) lt = q
below_three P p q r (suc (suc zero)) lt = r
below_three P p q r (suc (suc (suc i))) lt = absurd (omega arith)

-- what three calls of `terminal_init` make of the first state
abbrev opened : Terminals → Terminals
opened t = terminal_init (terminal_init (terminal_init (record t { screen_num = 0 })))

abbrev fresh : Terminals → Terminals
fresh t =
    let (d, b) = reset_buf (opened t).display ((opened t).buffs 0) in
    record (opened t) { display = d; buffs = set_entry (opened t).buffs 0 b }

fresh-AreFresh : (t : Terminals) → AreFresh (fresh t)
unfolding terminal_init screen_assign
fresh-AreFresh t =
    let (d, b) = reset_buf (opened t).display ((opened t).buffs 0) in
    let (x, y, at) = reset_buf-at (opened t).display ((opened t).buffs 0) 0 in
    record {
      shown = refl;
      buffers = below_three (λ i. (fresh t).screens i ≡ some i) refl refl refl;
      blank =
          below_three (λ i. IsBlank ((fresh t).buffs i)) (reset_buf-IsBlank _ _)
            (reset_buf-IsBlank _ _) (reset_buf-IsBlank _ _);
      column = x;
      row = y;
    }

init_terminals-fresh : (t : Terminals) → t.screen_num ≡ 0 → init_terminals t ≡ some (fresh t)
unfolding init_terminals terminal_init screen_assign
init_terminals-fresh t first =
    let same : t ≡ record t { screen_num = 0 } = ap (λ n. record t { screen_num = n }) first in
    ap init_terminals same ∙ refl

colour_loop-SameCursor :
    (cs : List ℕ) (i : ℕ) (d : Display) (v : Video)
    → ((colour_loop cs i d v).0.buf_x ≡ d.buf_x) × ((colour_loop cs i d v).0.buf_y ≡ d.buf_y)
unfolding colour_loop
colour_loop-SameCursor [] i d v = (refl, refl)
colour_loop-SameCursor (c ∷ cs) i d v =
    let d1 = if i % 80 == 0 then record d { screen_y = add32 d.screen_y 1; screen_x = 0 } else d in
    let v1 = record v { bytes = store v.bytes (2 * i + 1) (if c == 124 then 0xe4 else 0x44) } in
    let (x, y) = colour_loop-SameCursor cs (i + 1) d1 v1 in (x ∙ ground arith, y ∙ ground arith)

-- the lines of the timer, the keyboard, the second controller, the clock and the mouse
abbrev pub is_device : ℕ → Bool
is_device irq = (irq == 0 || irq == 1) || (irq == 2 || (irq == 8 || irq == 12))

-- What the system calls and the handlers start from, with the file system at `at`, by the state `s` before.
pub record IsReady (l : Layout) (at : ℕ) (s s' : System) : Type 0 where
  pub terms : AreFresh s'.machine.terms
  pub writable : (p : ℕ) → p < 3 → CanWrite (record s'.machine.terms { process_buf = p })
  pub tables : IsWell l s'.machine.kernel.tables
  pub files : s'.machine.kernel.fs ≡ init_filesys s.machine.kernel.mem at
  pub memory : s'.machine.kernel.mem ≡ s.machine.kernel.mem
  pub lines : (irq : ℕ) → irq < 16 → masked s'.pics irq ≡ not (is_device irq)

AreFresh-CanWrite :
    (t : Terminals) → AreFresh t → (p : ℕ) → p < 3 → CanWrite (record t { process_buf = p })
AreFresh-CanWrite t fresh p lt = record {
  known = lt;
  written = (p, fresh.buffers p lt);
  shown_known = omega (arith, fresh.shown);
  shown = (t.screen_num, fresh.buffers t.screen_num (omega (arith, fresh.shown)));
  cursor = record { column = omega (arith, fresh.column); row = omega (arith, fresh.row) };
}

-- the masks at the end
abbrev end_masks : Pics
end_masks = record { master = 0xf8; slave = 0xee }

line_table : passes_below 16 (λ irq. same (masked end_masks irq) (not (is_device irq))) ≡ true
unfolding passes_below
line_table = refl

module _ (l : Layout) (address : Handler → ℕ) (e i g : Gate) (status mouse_status : ℕ) where
  greet-terms :
      (s : System)
      → AreFresh s.machine.terms
      → (s' : System) × (greet l address e i g status mouse_status s ≡ some s')
        × AreFresh s'.machine.terms
        × (s'.pics ≡ enable_irq s.pics 0)
        × (s'.machine.kernel ≡ s.machine.kernel)
  unfolding greet init_pit boot_screen reset_scr
  greet-terms s fresh =
      let t = s.machine.terms in
      let (x, y) = colour_loop-SameCursor bit_map 0 t.display t.video in
      (
        _,
        refl,
        record {
          shown = fresh.shown;
          buffers = fresh.buffers;
          blank = fresh.blank;
          column = x ∙ fresh.column;
          row = y ∙ fresh.row;
        },
        refl,
        refl,
      )

  devices-pics :
      (at : ℕ) (s : System)
      → enable_irq (init_devices l address e i g status mouse_status at s).pics 0 ≡ end_masks
  unfolding init_devices i8259_init init_keyboard init_rtc init_mouse enable_irq
  devices-pics at s = refl

  -- `entry` of the kernel, before it starts the first program, with the file system at an address and
  -- the global variable `screen_num` at 0 as it is linked: comes to an end, and whatever the rest of the state held, leaves
  -- three terminals with a blank buffer each, of which the first is shown with the cursor at its
  -- start, so that a process can write to each of them; well-formed page tables; the view of the file
  -- system at that address, with memory as it was; and just the lines of the timer, the keyboard, the
  -- second controller, the clock and the mouse unmasked.
  pub set_up-IsReady :
      (at : ℕ) (s : System)
      → s.machine.terms.screen_num ≡ 0
      → (s' : System) × (set_up l address e i g status mouse_status at s ≡ some s')
        × IsReady l at s s'
  unfolding set_up init_devices
  set_up-IsReady at s first =
      let s1 = init_devices l address e i g status mouse_status at s in
      let t = fresh s1.machine.terms in
      let s2 = record s1 { machine = record s1.machine { terms = t } } in
      let begun = init_terminals-fresh s1.machine.terms first in
      let (s', done, is_fresh, pics, kernel) = greet-terms s2 (fresh-AreFresh s1.machine.terms) in
      (
        s',
        ap
              (λ o. o >>= λ t.
                greet l address e i g status mouse_status
                  (record s1 { machine = record s1.machine { terms = t } }))
              begun
            ∙ done,
        record {
          terms = is_fresh;
          writable = AreFresh-CanWrite s'.machine.terms is_fresh;
          tables = rw kernel (init_paging-IsWell l s.machine.kernel.tables);
          files = ap (λ k. k.fs) kernel;
          memory = ap (λ k. k.mem) kernel;
          lines = λ irq lt.
              ap (λ p. masked p irq) (pics ∙ devices-pics at s)
              ∙ same_eq (masked end_masks irq) (not (is_device irq)) (
                  passes-passes_below 16 (λ irq. same (masked end_masks irq) (not (is_device irq)))
                    irq line_table lt);
        },
      )
