-- ===== src/Tests/Screens.antt =====
-- Three terminals, all with the same text, and the first of them shown.
use fireball_os.Base.{
  ℕ, ◌+◌, ◌/◌, ◌%◌, ◌≡◌, refl, ◌==◌, if◌then◌else◌, ltb, ◌&&◌, some, arith, [], ◌∷◌,
}
use fireball_os.Memory.{Mem}
use fireball_os.CString.Length.{IsString}
use fireball_os.OpenFile.{File, stdout_jt}
use fireball_os.Console.{Display, Buffer}
use fireball_os.Video.{Video, printb, colour_palette}
use fireball_os.Video.Draw.{Placed, SameCursor, is_drawn, char_at, colour_at, printb-shows}
use fireball_os.Terminal.{Terminals, zero_attr, terminal_switch, terminal_write, pass_buff}
use fireball_os.Terminal.Switching.{
  switched, terminal_switch-terminal_switch, terminal_switch-shows,
}
use fireball_os.Terminal.Writing.{CanWrite, terminal_write-CanWrite}
use fireball_os.Terminal.Read.{Round, wait_enter, terminal_read}
use fireball_os.Terminal.Read.Line.{line_read, terminal_read-line_read}

abbrev pub home : Display
home = record {
  buf_x = 5;
  buf_y = 2;
  backspace_flag = 0;
  line_count = 3;
  limit = 3;
  screen_x = 0;
  screen_y = 0;
}

abbrev pub grid : Buffer
grid i = record { x_coord = i % 80; y_coord = i / 80; mo = 65 + i % 2; printed = 0 }

pub grid-Placed : Placed grid
grid-Placed i lt = (refl, refl)

abbrev pub dark : Video
dark = record { bytes = λ a. 0; color_pick = 0 }

abbrev pub terminals : Terminals
terminals = record {
  screens = λ i. some i;
  buffs = λ i. grid;
  components = λ i. zero_attr;
  screen_num = 0;
  process_buf = 0;
  display = home;
  video = dark;
}

printb-shows_example :
    let (d', v') = printb grid home dark in
    let shown = ltb 81 1920 && is_drawn (grid 81).mo in
    (char_at v' 81 ≡ (if shown then (grid 81).mo % 256 else char_at dark 81))
    × (colour_at v' 81 ≡ (if shown then colour_palette dark.color_pick else colour_at dark 81))
printb-shows_example = printb-shows grid home dark 81 grid-Placed

-- the second terminal shown, and the first one again
abbrev second : Terminals
second = switched terminals 1 0 1

abbrev back : Terminals
back = switched second 0 1 0

second-some : terminal_switch terminals 1 0 ≡ some second
unfolding terminal_switch
second-some = refl

back-some : terminal_switch second 0 1 ≡ some back
unfolding terminal_switch
back-some = refl

terminal_switch-terminal_switch_example :
    SameCursor terminals.display back.display × (back.screen_num ≡ 0) × (back.buffs ≡ second.buffs)
terminal_switch-terminal_switch_example =
    terminal_switch-terminal_switch terminals second second back 0 1 (omega arith) second-some refl
      back-some

terminal_switch-shows_example :
    (b : ℕ) × (terminals.screens 1 ≡ some b)
    × (char_at second.video 81 ≡ (
        if ltb 81 1920 && is_drawn (terminals.buffs b 81).mo
        then (terminals.buffs b 81).mo % 256
        else 32))
terminal_switch-shows_example =
    terminal_switch-shows terminals second 1 0 81 second-some (λ b e. grid-Placed) (omega arith)

-- "hi" at 300
abbrev note : Mem
note a = if a == 300 then 104 else if a == 301 then 105 else 0

note-IsString : IsString note 300 2
note-IsString = record { nonzero = λ i lt. ground arith; terminated = refl }

-- standard output of a process of the second terminal
abbrev output : File
output = record { file_op = stdout_jt; inode_ptr = 0; file_pos = 1; flags = 1 }

output-CanWrite : CanWrite (record terminals { process_buf = 1 })
output-CanWrite = record {
  known = omega arith;
  written = (1, refl);
  shown_known = omega arith;
  shown = (0, refl);
  cursor = record { column = omega arith; row = omega arith };
}

terminal_write-CanWrite_example :
    (t' : Terminals) × (terminal_write note terminals output 300 9 ≡ some (9, t')) × CanWrite t'
terminal_write-CanWrite_example =
    terminal_write-CanWrite note terminals output 300 9 2 note-IsString (omega arith)
      output-CanWrite

-- a command of four characters in the third row, which begins at column 2, with the line break of the
-- enter key behind it
abbrev typed : Buffer
typed i = if i == 167 then record (grid i) { mo = 10 } else record (grid i) { mo = 97 }

abbrev asking : Terminals
asking = record terminals { display = record home { buf_x = 2 } }

abbrev answered : Terminals
answered = record terminals { display = record home { buf_x = 0; buf_y = 3 }; buffs = λ i. typed }

asking-0 : pass_buff asking ≡ some 0
unfolding pass_buff
asking-0 = refl

abbrev waiting : Round
waiting = record { length = 0; enter_press = 0; buf_x = 6 }

waited : wait_enter (waiting ∷ record waiting { enter_press = 1 } ∷ []) 3 ≡ some 6
unfolding wait_enter
waited = refl

terminal_read-line_read_example :
    terminal_read note asking answered (waiting ∷ record waiting { enter_press = 1 } ∷ []) 0 300 128
    ≡ some (128, 4, line_read typed 162 4 note 300)
terminal_read-line_read_example =
    terminal_read-line_read note asking answered (waiting ∷ record waiting { enter_press = 1 } ∷ [])
      0 300 128 0 4 asking-0 waited (omega arith) (omega arith) (omega arith) (omega arith)
      (λ l lt. (ground arith, ground arith, ground arith)) (omega arith) (omega arith)
