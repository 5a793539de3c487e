-- ===== src/Console/Cursor.antt =====
-- The cursor of a text buffer under `put_cout` of student-distrib/lib.c.
use fireball_os.Base.{
  ℕ, suc, ◌+◌, ◌*◌, ◌%◌, ◌<◌, ◌≡◌, ◌≢◌, refl, arith, ◌==◌, if◌then◌else◌, ltb, true, false, none,
  some, ◌>>=◌, List, [], ◌∷◌, length, ◌||◌,
}
use fireball_os.Console.{
  Buffer, Display, Action, newline, scroll_buf, put_cout, put_all, cursor_index, next_row,
}

pub record OnScreen (d : Display) : Type 0 where
  pub column : d.buf_x < 80
  pub row : d.buf_y < 24

-- The action stays inside the buffer and what it leaves satisfies `P`.
abbrev pub Ensures : (Display → Buffer → Type 0) → Action → Type 0
Ensures P none = ⊥
Ensures P (some (d, b)) = P d b

pub Ensures-bind :
    (P Q : Display → Buffer → Type 0) (m : Action) (f : Display × Buffer → Action)
    → Ensures P m
    → ((d : Display) (b : Buffer) → P d b → Ensures Q (f (d, b)))
    → Ensures Q (m >>= f)
Ensures-bind P Q none f p next = absurd p
Ensures-bind P Q (some (d, b)) f p next = next d b p

pub Ensures-mono :
    (P Q : Display → Buffer → Type 0) (m : Action)
    → Ensures P m
    → ((d : Display) (b : Buffer) → P d b → Q d b)
    → Ensures Q m
Ensures-mono P Q none p weaken = p
Ensures-mono P Q (some (d, b)) p weaken = weaken d b p

pub index_in : (d : Display) → OnScreen d → cursor_index d ≡ 80 * d.buf_y + d.buf_x
index_in d on = omega arith

OnScreen-next_row : (d : Display) (b : Buffer) → OnScreen d → OnScreen (next_row d b).0
unfolding scroll_buf
OnScreen-next_row d b on = ground arith

-- `put_cout` of any character, the cursor being on the screen, stays inside the buffer and leaves
-- the cursor on the screen.
pub put_cout-OnScreen :
    (c : ℕ) (d : Display) (b : Buffer)
    → OnScreen d
    → Ensures (λ d' b'. OnScreen d') (put_cout c d b)
unfolding put_cout scroll_buf
put_cout-OnScreen c d b on = ground arith

-- A character that is no line break goes to the cell of the cursor, which moves on by a column and
-- from the last column back to the first one of the same row.
pub put_cout-same_row :
    (c : ℕ) (d : Display) (b : Buffer)
    → OnScreen d
    → c ≢ 10
    → c ≢ 13
    → Ensures
        (λ d' b'.
          (d'.buf_x ≡ (d.buf_x + 1) % 80)
          × (d'.buf_y ≡ d.buf_y)
          × ((j : ℕ)
              → b' j ≡ (
                  if j == 80 * d.buf_y + d.buf_x
                  then record (b j) { mo = c; printed = 1 }
                  else b j)))
        (put_cout c d b)
unfolding put_cout
put_cout-same_row c d b on a e =
    let plain : (c == newline || c == 13) ≡ false = ground arith in
    let place : cursor_index d ≡ 80 * d.buf_y + d.buf_x = index_in d on in
    let inside : ltb (80 * d.buf_y + d.buf_x) 2000 ≡ true = ground arith in
    rw (plain, place, inside) (omega arith, omega arith, λ j. ground arith)

-- A string of any characters is printed inside the buffer and leaves the cursor on the screen.
pub put_all-OnScreen :
    (cs : List ℕ) (d : Display) (b : Buffer)
    → OnScreen d
    → Ensures (λ d' b'. OnScreen d') (put_all cs d b)
unfolding put_all
put_all-OnScreen [] d b on = on
put_all-OnScreen (c ∷ cs) d b on =
    Ensures-bind (λ d' b'. OnScreen d') (λ d' b'. OnScreen d') (put_cout c d b)
      (λ (d', b'). put_all cs d' b') (put_cout-OnScreen c d b on)
      (λ d' b' on'. put_all-OnScreen cs d' b' on')

-- no line breaks
abbrev pub Plain : List ℕ → Type 0
Plain [] = Unit {0}
Plain (c ∷ cs) = (c ≢ 10) × (c ≢ 13) × Plain cs

-- Text without a line break, however long, stays on the row of the cursor, which was on the screen:
-- the column counts modulo 80 and the row does not change.
pub put_all-same_row :
    (cs : List ℕ) (d : Display) (b : Buffer)
    → OnScreen d
    → Plain cs
    → Ensures
        (λ d' b'. (d'.buf_x ≡ (d.buf_x + length cs) % 80) × (d'.buf_y ≡ d.buf_y))
        (put_all cs d b)
unfolding put_all
put_all-same_row [] d b on plain = (omega arith, refl)
put_all-same_row (c ∷ cs) d b on plain =
    Ensures-bind (λ d' b'. (d'.buf_x ≡ (d.buf_x + 1) % 80) × (d'.buf_y ≡ d.buf_y))
      (λ d' b'. (d'.buf_x ≡ (d.buf_x + suc (length cs)) % 80) × (d'.buf_y ≡ d.buf_y))
      (put_cout c d b) (λ (d', b'). put_all cs d' b')
      (Ensures-mono
        (λ d' b'.
          (d'.buf_x ≡ (d.buf_x + 1) % 80)
          × (d'.buf_y ≡ d.buf_y)
          × ((j : ℕ)
              → b' j ≡ (
                  if j == 80 * d.buf_y + d.buf_x
                  then record (b j) { mo = c; printed = 1 }
                  else b j)))
        _ (put_cout c d b) (put_cout-same_row c d b on plain.0 plain.1) (λ d' b' p. (p.0, p.1)))
      (λ d' b' at.
        Ensures-mono (λ e f. (e.buf_x ≡ (d'.buf_x + length cs) % 80) × (e.buf_y ≡ d'.buf_y)) _
          (put_all cs d' b')
          (put_all-same_row cs d' b' (record { column = omega arith; row = omega arith }) plain.2)
          (λ e f p. omega arith))
