-- ===== src/Console/Typing.antt =====
-- Typing into the buffer: `setb`, `new_line`, `clear_buf_line` and `backspace`.
use fireball_os.Base.{
  ℕ, ◌+◌, ◌-◌, ◌*◌, ◌%◌, ◌<◌, ◌≡◌, refl, arith, ◌==◌, if◌then◌else◌, ltb, true, false, u32, none,
  ◌>>=◌, add32, sub32, minus_one,
}
use fireball_os.Memory.Copy.{within}
use fireball_os.Console.{
  Buffer, Display, space, num_cols, scroll_buf, setb, new_line, clear_buf_line, backspace,
  cursor_index, at_most_zero,
}
use fireball_os.Console.Scroll.{blank_loop-at}
use fireball_os.Console.Cursor.{OnScreen, Ensures, index_in}

-- `setb` stays inside the buffer and leaves the cursor on the screen.
pub setb-OnScreen :
    (c : ℕ) (d : Display) (b : Buffer) → OnScreen d → Ensures (λ d' b'. OnScreen d') (setb d b c)
unfolding setb
setb-OnScreen c d b on = ground arith

-- `new_line` stays inside the buffer and leaves the cursor on the screen, in the first column.
pub new_line-OnScreen :
    (d : Display) (b : Buffer)
    → OnScreen d
    → Ensures (λ d' b'. OnScreen d' × (d'.buf_x ≡ 0)) (new_line d b)
unfolding new_line scroll_buf
new_line-OnScreen d b on = ground arith

-- `clear_buf_line` blanks the 80 cells of the cursor's row and nothing else.
pub clear_buf_line-at :
    (d : Display) (b : Buffer)
    → OnScreen d
    → Ensures
        (λ d' b'.
          (d' ≡ d)
          × ((j : ℕ)
              → b' j ≡ (if within (80 * d.buf_y) 80 j then record (b j) { mo = space } else b j)))
        (clear_buf_line d b)
unfolding clear_buf_line
clear_buf_line-at d b on =
    let place : (num_cols * d.buf_y) % u32 ≡ 80 * d.buf_y = omega arith in
    let inside : ltb (80 * d.buf_y + num_cols - 1) 2000 ≡ true = ground arith in
    rw (place, inside) (refl, λ j. blank_loop-at 80 b (80 * d.buf_y) j)

-- Anywhere but at the first cell, `backspace` stays inside the buffer and leaves the cursor on the
-- screen.
pub backspace-OnScreen :
    (d : Display) (b : Buffer) (n : ℕ)
    → OnScreen d
    → 0 < d.buf_x + d.buf_y
    → Ensures (λ d' b'. OnScreen d') (backspace d b n)
unfolding backspace
backspace-OnScreen d b n on away = ground arith

-- With the cursor at the first cell and characters on the command line, `backspace` reads the node
-- in front of the buffer.
pub backspace-none :
    (d : Display) (b : Buffer) (n : ℕ)
    → d.buf_x ≡ 0
    → d.buf_y ≡ 0
    → at_most_zero n ≡ false
    → backspace d b n ≡ none
unfolding backspace
backspace-none d b n x y pos =
    let i : sub32 (cursor_index d) 1 ≡ minus_one = omega arith in rw (pos, i)

-- The cursor being on the screen and the command line not empty: after a character typed before the
-- last column, `backspace` puts the cursor back and leaves a blank in its cell; all other cells are as
-- they were.
pub backspace-setb :
    (c : ℕ) (d : Display) (b : Buffer) (n : ℕ)
    → OnScreen d
    → d.buf_x < 79
    → at_most_zero n ≡ false
    → Ensures
        (λ d' b'.
          (d'.buf_x ≡ d.buf_x)
          × (d'.buf_y ≡ d.buf_y)
          × ((j : ℕ)
              → b' j ≡ (
                  if j == 80 * d.buf_y + d.buf_x
                  then record (b j) { mo = space; printed = 0 }
                  else b j)))
        (setb d b c >>= λ (d1, b1). backspace d1 b1 n)
unfolding setb backspace
backspace-setb c d b n on lt pos =
    let place : cursor_index d ≡ 80 * d.buf_y + d.buf_x = index_in d on in
    let inside : ltb (80 * d.buf_y + d.buf_x) 2000 ≡ true = ground arith in
    let inner : (d.buf_x == num_cols - 1) ≡ false = ground arith in
    let back : sub32 ((80 * d.buf_y + add32 d.buf_x 1) % u32) 1 ≡ 80 * d.buf_y + d.buf_x =
      omega arith in
    let same : (80 * d.buf_y + d.buf_x == 80 * d.buf_y + d.buf_x) ≡ true = ground arith in
    let x : sub32 (add32 d.buf_x 1) 1 ≡ d.buf_x = omega arith in
    let whole : (d.buf_x == minus_one) ≡ false = ground arith in
    rw (place, inside, inner, pos, back, inside, same, x, whole) (refl, refl, λ j. ground arith)
