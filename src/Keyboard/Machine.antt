-- ===== src/Keyboard/Machine.antt =====
-- `kbd_int_handler` and `kbd_logic` of student-distrib/keyboard.c as a whole: the keys that switch
-- terminals and processes work on the kernel's processes and on the terminals, the others on the
-- line of the current terminal.
pub mod Letter
pub mod Switch
use fireball_os.Base.{
  ℕ, zero, suc, ◌+◌, ◌-◌, ◌==◌, if◌then◌else◌, ◌&&◌, ◌||◌, not, Bool, Option, none, some, ◌>>=◌,
  List, [], ◌∷◌, ◌++◌, minus_one,
}
use fireball_os.Memory.{Mem, store}
use fireball_os.Pic.{send_eoi}
use fireball_os.Process.{
  Kernel, Addresses, Outcome, returned, user, spins, pcb_at, execute, context_switch,
}
use fireball_os.Console.{Display, Buffer, Action, reset_buf}
use fireball_os.Terminal.{Terminals, pass_buff, show_buffer, terminal_switch, set_entry}
use fireball_os.StatusBar.{status_bar}
use fireball_os.Keyboard.{Keys, hold_keys, is_full, type_key}

-- The whole state. `screen_num` and `process_buf` are those of the terminals; the kernel's copies are
-- set whenever it is called. `sent` has the writes to the interrupt controllers, each a byte and a
-- port.
pub record Machine : Type 0 where
  pub kernel : Kernel
  pub terms : Terminals
  pub keys : Keys
  pub test_flag : ℕ
  pub sent : List (ℕ × ℕ)

-- How `kbd_logic` ends: by its return, or elsewhere, in a program or on another process's stack.
pub data Exit : Type 0 where
  stays : Exit
  leaves : Exit

-- The stack and base pointers at the two calls, and the address of the local variable `fname`.
pub record Stack : Type 0 where
  pub execute_esp : ℕ
  pub execute_ebp : ℕ
  pub switch_esp : ℕ
  pub switch_ebp : ℕ
  pub fname : ℕ

abbrev pub in_kernel : Machine → Kernel
in_kernel m = record m.kernel { screen_num = m.terms.screen_num; process_buf = m.terms.process_buf }

abbrev pub out_of_kernel : Machine → Kernel → Machine
out_of_kernel m k = record m { kernel = k; terms = record m.terms { process_buf = k.process_buf } }

abbrev pub send : ℕ → Machine → Machine
send irq_num m = record m { sent = m.sent ++ send_eoi irq_num }

-- `context_switch` with what it sends. It comes back only for the number -1.
unfoldable pub switch_process : Stack → (pid : ℕ) → Machine → Exit × Machine
switch_process st pid m = (
  if pid == minus_one then stays else leaves,
  send 0 (out_of_kernel m (context_switch (in_kernel m) pid st.switch_esp st.switch_ebp)),
)

-- bytes from an address on
abbrev pub put_bytes : List ℕ → Mem → (at : ℕ) → Mem
put_bytes [] m at = m
put_bytes (c ∷ cs) m at = put_bytes cs (store m at c) (at + 1)

abbrev pub zeros : ℕ → List ℕ
zeros zero = []
zeros (suc n) = 0 ∷ zeros n

-- the 33 bytes of `"shell"`
abbrev pub shell : List ℕ
shell = 115 ∷ 104 ∷ 101 ∷ 108 ∷ 108 ∷ zeros 28

abbrev pub after_execute : Machine → Outcome × Kernel → Exit × Machine
after_execute m (returned r, k) = (stays, out_of_kernel m k)
after_execute m (user entry, k) = (leaves, out_of_kernel m k)
after_execute m (spins, k) = (leaves, out_of_kernel m k)

-- the first shell of a terminal; `execute_syscall` is the system call
unfoldable pub start_shell : Addresses → Stack → Machine → Option (Exit × Machine)
start_shell a st m =
    let k = in_kernel m in
    let k1 = record k { initial_shell = 1; mem = put_bytes shell k.mem st.fname } in
    execute a k1 st.fname st.execute_esp st.execute_ebp >>= λ r. some (after_execute m r)

-- the process with the terminal's number, or its child
abbrev pub process_of : Kernel → (screen_num : ℕ) → ℕ
process_of k screen_num =
    let curr_process = k.pcbs (pcb_at screen_num) in
    if curr_process.child_flag == 0 then screen_num else curr_process.child

unfoldable pub resume : Stack → (prev_screen_num : ℕ) → Exit × Machine → Exit × Machine
resume st prev_screen_num (leaves, m) = (leaves, m)
resume st prev_screen_num (stays, m) =
    if m.terms.screen_num == prev_screen_num
    then (stays, m)
    else switch_process st (process_of m.kernel m.terms.screen_num) m

-- `term2` and `term3`; the first terminal has no such flag.
abbrev pub first_time : ℕ → Keys → ℕ
first_time n k = if n == 1 then k.term2 else if n == 2 then k.term3 else 0

abbrev pub no_more_first : ℕ → Keys → Keys
no_more_first n k = if n == 1 then record k { term2 = 0 } else record k { term3 = 0 }

-- the three branches for F1, F2 and F3, with `screen_num = n`
unfoldable pub open_terminal : Addresses → Stack → (n : ℕ) → Machine → Option (Exit × Machine)
open_terminal a st n m =
    let prev_screen_num = m.terms.screen_num in
    let m1 = send 1 (record m { terms = record m.terms { screen_num = n } }) in
    terminal_switch m1.terms n prev_screen_num >>= λ t2.
    let m2 = record m1 { terms = t2 } in
    (if first_time n m2.keys == 0
      then some (stays, m2)
      else start_shell a st (record m2 { keys = no_more_first n m2.keys }))
    >>= λ r. some (resume st prev_screen_num r)

-- an operation on the buffer with the number
abbrev pub on_buffer : Terminals → ℕ → (Display → Buffer → Action) → Option Terminals
on_buffer t b f = f t.display (t.buffs b) >>= λ (d', b').
    some (record t { display = d'; buffs = set_entry t.buffs b b' })

-- Ctrl and L: `reset_buf`, and the counters at 0.
abbrev pub reset_line : Display → Buffer → Action
reset_line d b = let (d', b') = reset_buf d b in some (record d' { limit = 0; line_count = 0 }, b')

abbrev pub is_function_key : ℕ → Bool
is_function_key p = p == 0x3b || (p == 0x3c || p == 0x3d)

-- `kbd_logic` behind the tests for the keys that are held. `buffer` is the number behind the pointer.
-- Of a null pointer the handler's `printb` is undefined.
unfoldable pub act : Addresses → Stack → (p : ℕ) → (buffer : ℕ) → Machine → Option (Exit × Machine)
act a st p buffer m =
    let k = m.keys in
    if not (k.ctrl == 0) && p == 0x26
    then (on_buffer m.terms buffer reset_line >>= λ t'. some (stays, record m { terms = t' }))
    else if not (k.alt == 0) && p == 0x3e
    then some (switch_process st 0 m)
    else if not (k.alt == 0) && p == 0x3f
    then some (switch_process st 1 m)
    else if not (k.alt == 0) && is_function_key p
    then open_terminal a st (p - 0x3b) m
    else (on_buffer m.terms buffer (type_key k p) >>= λ t'. some (
      stays,
      record m {
        terms = t';
        keys = record k { line_flag = if is_full m.terms.display then 0 else 1 };
      },
    ))

unfoldable pub kbd_logic :
    Addresses → Stack → (p : ℕ) → (buffer : ℕ) → Machine → Option (Exit × Machine)
kbd_logic a st p buffer m = act a st p buffer (record m { keys = hold_keys p m.keys })

-- the first call resets the test of the clock
abbrev pub first_key : Machine → Machine
first_key m = record m {
  test_flag = if m.keys.reset_flag == 0 then 0 else m.test_flag;
  keys = record m.keys { reset_flag = 1 };
}

-- the handler behind `kbd_logic`, when that has returned
unfoldable pub show_line : (status x y p : ℕ) → Exit × Machine → Option (Exit × Machine)
show_line status x y p (leaves, m) = some (leaves, m)
show_line status x y p (stays, m) =
    let v = status_bar m.kernel.mem status m.terms.screen_num x y m.terms.video in
    pass_buff m.terms >>= λ b. some (
      stays,
      send 1 (record m {
        terms = show_buffer (record m.terms { video = v }) b;
        keys = record m.keys { enter_press = if p == 0x1c then 1 else 0 };
      }),
    )

-- `p` is the byte at port 0x60; `status`, `x` and `y` are the string of the status bar and the place
-- of the mouse.
unfoldable pub kbd_int_handler :
    Addresses → Stack → (status x y p : ℕ) → Machine → Option (Exit × Machine)
kbd_int_handler a st status x y p m = pass_buff m.terms >>= λ buffer.
    kbd_logic a st p buffer (first_key m) >>= λ r. show_line status x y p r
