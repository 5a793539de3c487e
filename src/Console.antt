-- ===== src/Console.antt =====
-- student-distrib/buffer.c and `put_cout` of student-distrib/lib.c: the text buffer of a terminal
-- and the cursor in it. Coordinates and counters are the bit patterns of `int` variables.
pub mod Scroll
pub mod Cursor
pub mod Typing
use fireball_os.Base.{
  ℕ, zero, suc, ◌+◌, ◌-◌, ◌*◌, ◌/◌, ◌%◌, ◌==◌, if◌then◌else◌, ltb, leb, Bool, true, false, not,
  ◌&&◌, ◌||◌, Option, none, some, ◌>>=◌, u32, add32, sub32, minus_one, is_negative, List, [], ◌∷◌,
}

-- `node` of student-distrib/lib.h
pub record Node : Type 0 where
  pub x_coord : ℕ
  pub y_coord : ℕ
  pub mo : ℕ
  pub printed : ℕ

-- NUM_COLS, ROWS, and the size of the arrays `buff_1`, `buff_2` and `buff_3`
abbrev pub num_cols : ℕ
num_cols = 80

abbrev pub rows : ℕ
rows = 24

abbrev pub buffer_size : ℕ
buffer_size = 2000

abbrev pub newline : ℕ
newline = 10

abbrev pub space : ℕ
space = 32

-- A buffer of `buffer_size` nodes.
abbrev pub Buffer : Type 0
Buffer = ℕ → Node

-- The global variables that the functions here read and write.
pub record Display : Type 0 where
  pub buf_x : ℕ
  pub buf_y : ℕ
  pub backspace_flag : ℕ
  pub line_count : ℕ
  pub limit : ℕ
  pub screen_x : ℕ
  pub screen_y : ℕ

-- An access outside the array is `none`.
abbrev pub Action : Type 0
Action = Option (Display × Buffer)

abbrev pub set_node : Buffer → ℕ → Node → Buffer
set_node b i v j = if j == i then v else b j

abbrev pub set_mo : Buffer → ℕ → ℕ → Buffer
set_mo b i c = set_node b i (record (b i) { mo = c })

abbrev pub write_mo : Buffer → ℕ → ℕ → Option Buffer
write_mo b i c = if ltb i buffer_size then some (set_mo b i c) else none

-- both fields of a character that is typed or printed
abbrev pub write_char : Buffer → (i c printed : ℕ) → Option Buffer
write_char b i c p =
    if ltb i buffer_size then some (set_node b i (record (b i) { mo = c; printed = p })) else none

-- `NUM_COLS*(buf_y) + buf_x`
abbrev pub cursor_index : Display → ℕ
cursor_index d = (num_cols * d.buf_y + d.buf_x) % u32

-- the loop of `reset_buf`, with `(ROWS+1)*NUM_COLS - i` rounds left
unfoldable pub reset_loop : ℕ → Buffer → (i x y : ℕ) → Buffer
reset_loop zero b i x y = b
reset_loop (suc n) b i x y =
    reset_loop n (set_node b i (record { x_coord = x; y_coord = y; mo = space; printed = 0 }))
      (i + 1) (if x == num_cols - 1 then 0 else x + 1) (if x == num_cols - 1 then y + 1 else y)

unfoldable pub reset_buf : Display → Buffer → Display × Buffer
reset_buf d b = (record d { buf_x = 0; buf_y = 0 }, reset_loop ((rows + 1) * num_cols) b 0 0 0)

-- the first loop of `scroll_buf`, from `i` on
unfoldable pub scroll_loop : ℕ → Buffer → (i : ℕ) → Buffer
scroll_loop zero b i = b
scroll_loop (suc n) b i =
    scroll_loop n (set_mo b (i - num_cols) (if (b i).mo == newline then space else (b i).mo))
      (i + 1)

-- the loops that store spaces
unfoldable pub blank_loop : ℕ → Buffer → (i : ℕ) → Buffer
blank_loop zero b i = b
blank_loop (suc n) b i = blank_loop n (set_mo b i space) (i + 1)

unfoldable pub scroll_buf : Display → Buffer → Display × Buffer
scroll_buf d b = (
  record d { buf_x = 0; buf_y = rows - 1 },
  blank_loop num_cols (scroll_loop (num_cols * rows - num_cols) b num_cols) (num_cols * (rows - 1)),
)

unfoldable pub setb : Display → Buffer → ℕ → Action
setb d b input = write_char b (cursor_index d) input 0 >>= λ b'. some (
  record d { buf_x = if d.buf_x == num_cols - 1 then 0 else add32 d.buf_x 1; backspace_flag = 1 },
  b',
)

-- the end of `new_line`, and of the newline branch of `put_cout`
abbrev pub next_row : Display → Buffer → Display × Buffer
next_row d b =
    if not (d.buf_y == rows - 1) then (record d { buf_y = add32 d.buf_y 1 }, b) else scroll_buf d b

unfoldable pub new_line : Display → Buffer → Action
new_line d b =
    (if not (d.buf_x == num_cols) then write_mo b (add32 (cursor_index d) 1) newline else some b)
    >>= λ b'. some (next_row (record d { buf_x = 0 }) b')

unfoldable pub clear_buf_line : Display → Buffer → Action
clear_buf_line d b =
    let index = (num_cols * d.buf_y) % u32 in
    if ltb (index + num_cols - 1) buffer_size then some (d, blank_loop num_cols b index) else none

-- `n <= 0` of an `int`
abbrev pub at_most_zero : ℕ → Bool
at_most_zero w = w == 0 || is_negative w

-- the cursor one cell back, and the case of the first address as the code tests for it
abbrev pub step_back : Display → Display
step_back d =
    let x = sub32 d.buf_x 1 in
    if x == minus_one
    then (let y = sub32 d.buf_y 1 in
        if at_most_zero y && at_most_zero (num_cols - 1)
        then record d { buf_x = 0; buf_y = 0; backspace_flag = 0 }
        else record d { buf_x = num_cols - 1; buf_y = y })
    else record d { buf_x = x }

-- The second operand of `&&` is read only when `line_count > 0`.
unfoldable pub backspace : Display → Buffer → (line_count : ℕ) → Action
backspace d b line_count =
    let i = sub32 (cursor_index d) 1 in
    if not (at_most_zero line_count)
    then (if ltb i buffer_size
        then (if (b i).printed == 0 then some (step_back d, set_mo b i space) else some (d, b))
        else none)
    else some (d, b)

unfoldable pub put_cout : ℕ → Display → Buffer → Action
put_cout c d b =
    if c == newline || c == 13
    then (write_mo b (cursor_index d) newline >>= λ b'.
        let (d1, b1) = next_row (record d { buf_x = 0 }) b' in
        some (
          record d1 { screen_y = add32 d1.screen_y 1; screen_x = 0; line_count = 0; limit = 0 },
          b1,
        ))
    else (write_char b (cursor_index d) c 1 >>= λ b'.
        let x = add32 d.buf_x 1 % num_cols in
        some (
          record d {
            buf_x = x;
            buf_y = (d.buf_y + x / num_cols) % rows;
            limit = add32 d.limit 1;
            line_count = add32 d.line_count 1;
          },
          b',
        ))

-- the loop of `terminal_write` over the characters of its string
unfoldable pub put_all : List ℕ → Display → Buffer → Action
put_all [] d b = some (d, b)
put_all (c ∷ cs) d b = put_cout c d b >>= λ (d', b'). put_all cs d' b'
