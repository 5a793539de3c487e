-- ===== src/Terminal.antt =====
-- student-distrib/terminal.c: the three terminals, each with a buffer and a saved cursor, and the
-- operations that open, assign, switch, write and close them. An access outside an array, or to a
-- buffer behind a null pointer, is `none`.
pub mod Switching
pub mod Writing
pub mod Read
use fireball_os.Base.{
  ℕ, zero, suc, ◌+◌, ◌-◌, ◌==◌, if◌then◌else◌, ltb, not, ◌&&◌, Bool, Option, none, some, ◌>>=◌,
  add32, sub32, minus_one, is_negative, ret_failure, ret_success,
}
use fireball_os.Memory.{Mem}
use fireball_os.CString.{strlen}
use fireball_os.OpenFile.{File}
use fireball_os.Console.{Display, Buffer, reset_buf, put_cout}
use fireball_os.Video.{Video, clear, printb}

-- `buff_attr` of student-distrib/terminal.h
pub record BuffAttr : Type 0 where
  pub curr_line : ℕ
  pub curr_limit : ℕ
  pub curr_x : ℕ
  pub curr_y : ℕ

abbrev pub zero_attr : BuffAttr
zero_attr = record { curr_line = 0; curr_limit = 0; curr_x = 0; curr_y = 0 }

-- The global variables that the terminals work on. `screens i` is which of `buff_1`, `buff_2` and
-- `buff_3`, by the numbers 0, 1 and 2, the pointer refers to; `none` is a null pointer. `line_count`,
-- `limit`, `buf_x` and `buf_y` are those of the display.
pub record Terminals : Type 0 where
  pub screens : ℕ → Option ℕ
  pub buffs : ℕ → Buffer
  pub components : ℕ → BuffAttr
  pub screen_num : ℕ
  pub process_buf : ℕ
  pub display : Display
  pub video : Video

-- an entry of an array of three
abbrev pub set_entry {ℓ} : {A : Type ℓ} → (ℕ → A) → ℕ → A → ℕ → A
set_entry f i a j = if j == i then a else f j

-- `screens[i]`, and the buffer behind it
abbrev pub screen_at : Terminals → ℕ → Option ℕ
screen_at t i = if ltb i 3 then t.screens i else none

unfoldable pub pass_buff : Terminals → Option ℕ
pass_buff t = screen_at t t.screen_num

-- `file` and `filename` are not used.
unfoldable pub terminal_open : Terminals → Option ℕ
terminal_open t = screen_at t t.screen_num

-- `printb` of the buffer with the number
abbrev pub show_buffer : Terminals → ℕ → Terminals
show_buffer t b =
    let (d', v') = printb (t.buffs b) t.display t.video in record t { display = d'; video = v' }

-- The cursor that is saved for the old screen, and the one that is brought back for the new one.
abbrev pub saved : Display → BuffAttr
saved d = record {
  curr_line = d.line_count;
  curr_limit = d.limit;
  curr_x = d.buf_x;
  curr_y = d.buf_y;
}

abbrev pub restored : Display → BuffAttr → Display
restored d a = record d {
  line_count = a.curr_line;
  limit = a.curr_limit;
  buf_x = a.curr_x;
  buf_y = a.curr_y;
}

unfoldable pub terminal_switch : Terminals → (new_screen old_screen : ℕ) → Option Terminals
terminal_switch t new_screen old_screen =
    if ltb old_screen 3 && ltb new_screen 3
    then (let components = set_entry t.components old_screen (saved t.display) in
        let t1 = record t {
          components = components;
          display = restored t.display (components new_screen);
          video = clear t.video;
        } in
        t.screens new_screen >>= λ b. some (record (show_buffer t1 b) { screen_num = new_screen }))
    else none

-- The three branches differ in the buffer alone.
unfoldable pub screen_assign : Terminals → (index : ℕ) → ℕ × Terminals
screen_assign t index =
    if ltb index 3
    then (let (d', b') = reset_buf t.display (t.buffs index) in
        (
          1,
          record t {
            screens = set_entry t.screens index (some index);
            buffs = set_entry t.buffs index b';
            display = d';
            components = set_entry t.components index zero_attr;
          },
        ))
    else (ret_failure, t)

-- `screen_num < 2 && screen_num > -1` of an `int`
unfoldable pub terminal_init : Terminals → Terminals
unfolding screen_assign
terminal_init t =
    let n = if ltb t.screen_num 2 then add32 t.screen_num 1 else 0 in
    (screen_assign (record t { screen_num = n }) n).1

unfoldable pub terminal_close : Terminals → Option (ℕ × Terminals)
terminal_close t =
    let n = sub32 t.screen_num 1 in
    if ltb n 3
    then some (ret_success, record t { screen_num = n; screens = set_entry t.screens n none })
    else none

-- one `put_cout` into the buffer with the number
abbrev pub put_in : Terminals → (b c : ℕ) → Option Terminals
put_in t b c = put_cout c t.display (t.buffs b) >>= λ (d', b').
    some (record t { display = d'; buffs = set_entry t.buffs b b' })

-- The loop of `terminal_write`, with `n` rounds left. The string does not change, so `strlen` is the
-- same in each round.
unfoldable pub write_loop : ℕ → Mem → Terminals → (buf i : ℕ) → Option Terminals
write_loop zero m t buf i = some t
write_loop (suc n) m t buf i = screen_at t t.process_buf >>= λ b.
    put_in t b (m (buf + i)) >>= λ t'. write_loop n m t' buf (i + 1)

unfoldable pub terminal_write : Mem → Terminals → File → (buf counter : ℕ) → Option (ℕ × Terminals)
terminal_write m t file buf counter = strlen m buf >>= λ n.
    write_loop n m (record t { process_buf = file.file_pos }) buf 0 >>= λ t'.
    pass_buff t' >>= λ b. some (counter, show_buffer t' b)
