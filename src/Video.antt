-- ===== src/Video.antt =====
-- Video memory, and the routines of student-distrib/lib.c and student-distrib/buffer.c that write to
-- it: `clear` and its kin, `putc`, `puts`, `print_helper` and `printb`.
pub mod Draw
use fireball_os.Base.{
  ℕ, zero, suc, ◌+◌, ◌*◌, ◌/◌, ◌%◌, ◌==◌, if◌then◌else◌, true, false, ◌||◌, Option, none, some, u32,
  add32,
}
use fireball_os.Memory.{Mem, store}
use fireball_os.Console.{Display, Buffer, num_cols, rows, newline, space}

-- The bytes from VIDEO on, two for each cell: the character and its attribute. And `color_pick`.
pub record Video : Type 0 where
  pub bytes : Mem
  pub color_pick : ℕ

-- ATTRIB and ATTRIB_BLUE
abbrev pub attrib : ℕ
attrib = 0x07

abbrev pub attrib_blue : ℕ
attrib_blue = 0x17

-- a byte behind the five of the array is not known, and 0 stands for it
abbrev pub colour_palette : ℕ → ℕ
colour_palette i =
    if i == 0
    then 0x07
    else if i == 1
    then 0xf0
    else if i == 2
    then 0xa0
    else if i == 3
    then 0x4f
    else if i == 4
    then 0xe0
    else 0

-- the two stores to `video_mem + (i << 1)`
abbrev pub set_cell : Mem → (i c colour : ℕ) → Mem
set_cell m i c colour = store (store m (2 * i) c) (2 * i + 1) colour

-- a loop that stores blanks of one colour, with `n` rounds left
unfoldable pub fill_cells : ℕ → Mem → (i colour : ℕ) → Mem
unfolding store
fill_cells zero m i colour = m
fill_cells (suc n) m i colour = fill_cells n (set_cell m i space colour) (i + 1) colour

unfoldable pub clear : Video → Video
clear v = record v { bytes = fill_cells ((rows + 1) * num_cols) v.bytes 0 attrib }

unfoldable pub clear_line : Display → Video → Display × Video
clear_line d v =
    let at_end = d.screen_y == rows in
    let index = if at_end then 0 else num_cols * d.screen_y in
    (
      (if at_end then record d { screen_x = 0 } else d),
      record v { bytes = fill_cells num_cols v.bytes index attrib },
    )

unfoldable pub clear_blue : Video → Video
clear_blue v = record v { bytes = fill_cells (rows * num_cols) v.bytes 0 attrib_blue }

unfoldable pub set_palette : Video → Video
set_palette v = record v {
  bytes = fill_cells (rows * num_cols) v.bytes 0 (colour_palette v.color_pick);
}

-- of a cell on the screen
unfoldable pub set_colour : Video → (x y colour : ℕ) → Video
unfolding store
set_colour v x y colour = record v { bytes = store v.bytes (2 * (y * num_cols + x) + 1) colour }

unfoldable pub reset_scr : Display → Video → Display × Video
unfolding clear
reset_scr d v = (record d { screen_x = 0; screen_y = 0 }, clear v)

unfoldable pub putc : ℕ → Display → Video → Display × Video
unfolding store
putc c d v =
    if c == newline || c == 13
    then (record d { screen_y = add32 d.screen_y 1; screen_x = 0 }, v)
    else (let x = add32 d.screen_x 1 % num_cols in
        (
          record d { screen_x = x; screen_y = (d.screen_y + x / num_cols) % rows },
          record v {
            bytes =
                set_cell v.bytes (num_cols * d.screen_y + d.screen_x) c
                  (colour_palette v.color_pick);
          },
        ))

-- the loop of `puts` over the characters before the terminator, with their number
unfoldable pub puts_loop : ℕ → Mem → (s index : ℕ) → Display → Video → Option (ℕ × Display × Video)
unfolding putc
puts_loop zero m s index d v = none
puts_loop (suc f) m s index d v = elim (m (s + index) == 0) [
  | true ↦ some (index, d, v)
  | false ↦ let (d', v') = putc (m (s + index)) d v in puts_loop f m s (index + 1) d' v'
]

unfoldable pub puts : Mem → (s : ℕ) → Display → Video → Option (ℕ × Display × Video)
puts m s d v = puts_loop u32 m s 0 d v

-- `printf("%c", input)` is one `putc`.
unfoldable pub print_helper : (input x y : ℕ) → Display → Video → Display × Video
unfolding putc
print_helper input x y d v =
    let d' = record d { screen_x = x; screen_y = y } in
    if input == newline then (d', v) else putc (input % 256) d' v

-- the loop of `printb`, with `n` rounds left
unfoldable pub printb_loop : ℕ → Buffer → (i : ℕ) → Display → Video → Display × Video
unfolding print_helper
printb_loop zero b i d v = (d, v)
printb_loop (suc n) b i d v =
    let (d', v') = print_helper (b i).mo (b i).x_coord (b i).y_coord d v in
    printb_loop n b (i + 1) d' v'

unfoldable pub printb : Buffer → Display → Video → Display × Video
printb b d v = printb_loop (rows * num_cols) b 0 d v
