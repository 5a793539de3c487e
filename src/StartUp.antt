-- ===== src/StartUp.antt =====
-- `entry` of student-distrib/kernel.c, with student-distrib/bootscreen.c: the checks of the boot
-- loader's data, and from the interrupt table to the first shell. What `entry` prints before that is
-- left out, as the first `reset_scr` takes it off the screen, and so are the descriptors of the
-- processor, and the interrupts that come while the boot screen is shown.
pub mod Ready
use Prim.Native.String.{String}
use fireball_os.Base.{
  ℕ, zero, suc, ◌+◌, ◌*◌, ◌/◌, ◌%◌, ◌^◌, ◌==◌, if◌then◌else◌, not, ◌&&◌, ◌||◌, Option, none, some,
  ◌>>=◌, List, [], ◌∷◌, ◌++◌, add32, Bool,
}
use fireball_os.Memory.{Mem, store}
use fireball_os.FileSystem.{init_filesys}
use fireball_os.Paging.{Layout, init_paging}
use fireball_os.Process.{Addresses, execute}
use fireball_os.Idt.{Gate, Handler, Idt, set_idt}
use fireball_os.Pic.{Pics, i8259_init, init_keyboard}
use fireball_os.Rtc.{Clock, init_rtc}
use fireball_os.Mouse.{Mouse, init_mouse}
use fireball_os.Console.{Display, reset_buf}
use fireball_os.Video.{Video, reset_scr}
use fireball_os.Terminal.{Terminals, terminal_init, screen_at, set_entry}
use fireball_os.StatusBar.{init_pit, status_bar}
use fireball_os.Music.{Speaker, sounds, nosound}
use fireball_os.Keyboard.Machine.{
  Machine, Exit, stays, leaves, Stack, in_kernel, put_bytes, shell, after_execute,
}
use fireball_os.Programs.{codes}

-- The whole state: that of the interrupt handlers, and what start-up sets. `ports` has the writes of
-- the set-up, each a byte and a port.
pub record System : Type 0 where
  pub machine : Machine
  pub idt : Idt
  pub pics : Pics
  pub clock : Clock
  pub mouse : Mouse
  pub speaker : Speaker
  pub ports : List (ℕ × ℕ)

abbrev pub with_screen : System → Display × Video → System
with_screen s (d, v) = record s {
  machine = record s.machine { terms = record s.machine.terms { display = d; video = v } };
}

-- `bit_map`, row by row
abbrev blank_row : String
blank_row = "                                                                                "

abbrev blank_rows : ℕ → List ℕ
blank_rows zero = []
blank_rows (suc n) = codes blank_row ++ blank_rows n

unfoldable pub bit_map : List ℕ
bit_map =
    blank_rows 9
    ++ (codes "            ||||||||                 ||             || ||   |||||| |||||        "
        ++ (codes "            |||||||| ||              ||             || ||   ||  || ||           "
            ++ (codes
                  "            ||                       ||             || ||   ||  || |||||        "
                ++ (codes
                      "            ||||||   || |||||| ||||| ||||||| |||||| || ||   ||  ||    ||        "
                    ++ (codes
                          "            ||       || ||  || || || ||   ||     || || ||   |||||| |||||        "
                        ++ (codes
                              "            ||       || ||     ||||| ||   || |||||| || ||                       "
                            ++ (codes
                                  "            ||       || ||     ||    ||   || ||  || || ||                       "
                                ++ (codes
                                      "            ||       || ||     ||||| ||||||| |||||| || ||                       "
                                    ++ blank_rows 8))))))))

-- the loop of `boot_screen`, from the character `i` on, with ATTRIB_COLOUR_2 and ATTRIB_COLOUR
unfoldable pub colour_loop : List ℕ → (i : ℕ) → Display → Video → Display × Video
unfolding store
colour_loop [] i d v = (d, v)
colour_loop (c ∷ cs) i d v =
    colour_loop cs (i + 1)
      (if i % 80 == 0 then record d { screen_y = add32 d.screen_y 1; screen_x = 0 } else d)
      (record v { bytes = store v.bytes (2 * i + 1) (if c == 124 then 0xe4 else 0x44) })

unfoldable pub boot_screen : Display → Video → Display × Video
unfolding colour_loop bit_map
boot_screen d v = colour_loop bit_map 0 d v

-- the loops around `play_sound`, with their rounds and frequencies
unfoldable pub melody : List (ℕ × ℕ)
melody =
    (500000, 1000)
    ∷ (500000, 100)
    ∷ (500000, 900)
    ∷ (50000, 200)
    ∷ (500000, 800)
    ∷ (500000, 300)
    ∷ (500000, 700)
    ∷ (500000, 400)
    ∷ (500000, 600)
    ∷ (500000, 500)
    ∷ (500000, 500)
    ∷ (500000, 1000)
    ∷ (500000, 400)
    ∷ (500000, 300)
    ∷ (500000, 300)
    ∷ (500000, 200)
    ∷ []

unfoldable pub play : List (ℕ × ℕ) → Speaker → Speaker
play [] s = s
play ((n, sound_freq) ∷ ns) s = play ns (sounds n sound_freq s)

-- The boot loader's data that `entry` goes by: the flags, and the addresses of the modules. The file
-- system is the last module.
pub record BootInfo : Type 0 where
  pub flags : ℕ
  pub mod_starts : List ℕ

abbrev pub check_flag : (flags bit : ℕ) → Bool
check_flag flags bit = flags / 2 ^ bit % 2 == 1

abbrev pub last : List ℕ → Option ℕ
last [] = none
last (x ∷ []) = some x
last (x ∷ y ∷ xs) = last (y ∷ xs)

-- `filesystem_address`, which is not set when there is no module
unfoldable pub filesystem_address : BootInfo → Option ℕ
filesystem_address b = if check_flag b.flags 3 then last b.mod_starts else none

-- the two checks: after either one, `entry` prints a message and returns
unfoldable pub is_booted : (magic : ℕ) → Bool
is_booted magic = magic == 0x2BADB002

unfoldable pub both_set : BootInfo → Bool
both_set b = check_flag b.flags 4 && check_flag b.flags 5

-- the three terminals, and the buffer of the first one reset once more
unfoldable pub init_terminals : Terminals → Option Terminals
init_terminals t =
    let t3 = terminal_init (terminal_init (terminal_init t)) in
    screen_at t3 0 >>= λ b.
    let (d, buff) = reset_buf t3.display (t3.buffs b) in
    some (record t3 { display = d; buffs = set_entry t3.buffs b buff })

unfoldable pub run_shell : Addresses → Stack → Machine → Option (Exit × Machine)
run_shell a st m =
    let k = in_kernel m in
    let k1 = record k { mem = put_bytes shell k.mem st.fname } in
    execute a k1 st.fname st.execute_esp st.execute_ebp >>= λ r. some (after_execute m r)

-- Where the linker puts the page tables, the handlers and the text of the status bar; what the local
-- variables of `set_idt` hold; and what the port of the mouse gives.
module _ (l : Layout) (address : Handler → ℕ) (e i g : Gate) (status mouse_status : ℕ) where
  -- from the first `reset_scr` to the second
  unfoldable pub init_devices : (filesystem_address : ℕ) → System → System
  init_devices filesystem_address s =
      let m = s.machine in
      let k = m.kernel in
      let (p1, pic_writes) = i8259_init s.pics in
      let (c, p2) = init_rtc s.clock (init_keyboard p1) in
      let (p3, mouse, mouse_writes) = init_mouse mouse_status p2 s.mouse in
      let (d, v) = reset_scr m.terms.display m.terms.video in
      let s1 = record s {
        machine = record m {
          kernel = record k {
            tables = init_paging l k.tables;
            fs = init_filesys k.mem filesystem_address;
          };
        };
        idt = set_idt address e i g s.idt;
        pics = p3;
        clock = c;
        mouse = mouse;
        ports = s.ports ++ (pic_writes ++ mouse_writes);
      } in
      with_screen s1 (reset_scr d v)

  -- from `boot_screen` to `status_bar`
  unfoldable pub greet : System → Option System
  unfolding boot_screen
  greet s =
      let t = s.machine.terms in
      let (d, v) = boot_screen t.display t.video in
      let (d', v') = reset_scr d v in
      init_pit s.pics 0 100 >>= λ (p, writes). some (
        with_screen
          (record s {
            speaker = nosound (play melody s.speaker);
            pics = p;
            ports = s.ports ++ writes;
          })
          (d', status_bar s.machine.kernel.mem status t.screen_num s.mouse.x s.mouse.y v'))

  -- all that comes before the first program
  unfoldable pub set_up : (filesystem_address : ℕ) → System → Option System
  unfolding init_devices init_terminals greet
  set_up filesystem_address s =
      let s1 = init_devices filesystem_address s in
      init_terminals s1.machine.terms >>= λ t.
      greet (record s1 { machine = record s1.machine { terms = t } })

  -- What comes after the checks. Where the shell cannot be started, the processor is halted for ever.
  unfoldable pub start : Addresses → Stack → BootInfo → System → Option System
  unfolding set_up run_shell
  start a st b s = filesystem_address b >>= λ at. set_up at s >>= λ s'.
      run_shell a st s'.machine >>= λ (ends, m). some (record s' { machine = m })
