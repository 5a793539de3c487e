-- ===== src/Tests/Text.antt =====
-- Bytes in memory, strings, and a terminal's buffer.
use fireball_os.Base.{
  ◌>>=◌, if◌then◌else◌, ℕ, ◌+◌, ◌%◌, ◌≡◌, ◌↔◌, inl, refl, ◌==◌, if◌then◌else◌, some, arith, [], ◌∷◌,
}
use fireball_os.Memory.{Mem, memcpy, memmove, memset}
use fireball_os.Memory.Copy.{copied, memcpy-copied}
use fireball_os.Memory.Move.{memmove-copied}
use fireball_os.Memory.Fill.{filled, memset-filled}
use fireball_os.CString.{strlen}
use fireball_os.CString.Length.{IsString, strlen-some}
use fireball_os.Console.{space, setb, backspace, Display, Buffer, put_all}
use fireball_os.Console.Cursor.{OnScreen, Ensures, put_all-same_row}
use fireball_os.Console.Typing.{backspace-setb}
use fireball_os.CString.Compare.{IsBytes}
use fireball_os.Programs.{ece391_strcmp}
use fireball_os.Programs.Compare.{AreSame, ece391_strcmp-AreSame}

-- three characters and a terminator, again and again
abbrev text : Mem
text a = if a % 4 == 3 then 0 else 97 + a % 4

memcpy-copied_example : memcpy text 101 201 7 ≡ copied text 101 201 7
memcpy-copied_example = memcpy-copied text 101 201 7 (inl (omega arith))

memmove-copied_example : memmove text 102 101 9 ≡ copied text 102 101 9
memmove-copied_example = memmove-copied text 102 101 9

memset-filled_example : memset text 101 259 7 ≡ filled text 101 3 7
memset-filled_example = memset-filled text 101 259 7

-- the terminator behind the first three characters
three-IsString : IsString text 100 3
three-IsString = record { nonzero = λ i lt. ground arith; terminated = refl }

three : strlen text 100 ≡ some 3
three = strlen-some text 100 3 three-IsString (omega arith)

abbrev display : Display
display = record {
  buf_x = 5;
  buf_y = 23;
  backspace_flag = 0;
  line_count = 0;
  limit = 0;
  screen_x = 0;
  screen_y = 0;
}

abbrev buffer : Buffer
buffer i = record { x_coord = i % 80; y_coord = 0; mo = 97; printed = 0 }

on_screen : OnScreen display
on_screen = record { column = omega arith; row = omega arith }

put_all-same_row_example :
    Ensures (λ d' b'. (d'.buf_x ≡ 7) × (d'.buf_y ≡ 23)) (put_all (97 ∷ 98 ∷ []) display buffer)
put_all-same_row_example =
    put_all-same_row (97 ∷ 98 ∷ []) display buffer on_screen
      (omega arith, omega arith, (omega arith, omega arith, tt))

text-IsBytes : IsBytes text
text-IsBytes a = ground arith

again-IsString : IsString text 104 3
again-IsString = record { nonzero = λ i lt. ground arith; terminated = refl }

ece391_strcmp-AreSame_example :
    (r : ℕ) × (ece391_strcmp text 100 104 ≡ some r) × ((r ≡ 0) ↔ AreSame text 100 3 104 3)
ece391_strcmp-AreSame_example =
    ece391_strcmp-AreSame text text-IsBytes 100 3 104 3 three-IsString again-IsString (omega arith)

backspace-setb_example :
    Ensures
      (λ d' b'.
        (d'.buf_x ≡ 5)
        × (d'.buf_y ≡ 23)
        × ((j : ℕ)
            → b' j
              ≡ (if j == 1845 then record (buffer j) { mo = space; printed = 0 } else buffer j)))
      (setb display buffer 98 >>= λ (d1, b1). backspace d1 b1 1)
backspace-setb_example = backspace-setb 98 display buffer 1 on_screen (omega arith) refl
