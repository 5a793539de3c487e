-- ===== src/Keyboard/Typing.antt =====
-- What single keys do to the line under `type_key`: letters, and the enter key.
use fireball_os.Base.{
  ℕ, ◌+◌, ◌-◌, ◌*◌, ◌%◌, ◌≤◌, ◌<◌, ◌≡◌, ◌⊎◌, refl, arith, ◌==◌, if◌then◌else◌, ltb, leb, ◌&&◌, Bool,
  true, false, ◌>>=◌, add32, sub32, passes_below, passes-passes_below,
}
use fireball_os.Console.{Display, Buffer, setb, new_line, clear_buf_line, scroll_buf, cursor_index}
use fireball_os.Console.Cursor.{OnScreen, Ensures, Ensures-bind, index_in}
use fireball_os.Keyboard.{
  Keys, type_key, edit, wrap_line, enter, is_full, is_typed, kbdus, kbdus_shift, plain_char,
  shift_char,
}

-- a key with a letter
abbrev pub is_letter : ℕ → Bool
is_letter p = leb 97 (kbdus p) && leb (kbdus p) 122

abbrev letter_checked : ℕ → Bool
letter_checked p = if is_letter p then (kbdus_shift p + 32 == kbdus p) && is_typed p else true

letter_table : passes_below 128 letter_checked ≡ true
unfolding passes_below kbdus kbdus_shift
letter_table = refl

letter_at : (p : ℕ) → p < 128 → letter_checked p ≡ true
letter_at p lt = passes-passes_below 128 letter_checked p letter_table lt

-- The letter in lower case, or in upper case if one of shift and caps lock is on and the other not.
abbrev pub in_case : Keys → ℕ → ℕ
in_case k c =
    if k.shift == 0
    then (if k.offset == 0 then c else c - 32)
    else (if k.offset == 0 then c - 32 else c)

chosen :
    (shift offset c s : ℕ)
    → s + 32 ≡ c
    → 97 ≤ c
    → c ≤ 122
    → (offset ≡ 0) ⊎ (offset ≡ 32)
    → (if shift == 0
          then (if leb 97 c && leb c 122 then sub32 c offset else c)
          else (if leb 65 s && leb s 90 then add32 s offset else s))
        % 256
      ≡ (if shift == 0
          then (if offset == 0 then c else c - 32)
          else (if offset == 0 then c - 32 else c))
chosen shift offset c s eq low high caps = ground arith

facts :
    (c s : ℕ) (typed : Bool)
    → (if leb 97 c && leb c 122 then (s + 32 == c) && typed else true) ≡ true
    → (leb 97 c && leb c 122) ≡ true
    → (s + 32 ≡ c) × (97 ≤ c) × (c ≤ 122) × (typed ≡ true)
facts c s typed checked letter = ground arith

letter_cases :
    (p : ℕ)
    → p < 128
    → is_letter p ≡ true
    → (kbdus_shift p + 32 ≡ kbdus p) × (97 ≤ kbdus p) × (kbdus p ≤ 122) × (is_typed p ≡ true)
letter_cases p lt letter = facts (kbdus p) (kbdus_shift p) (is_typed p) (letter_at p lt) letter

chosen_char :
    (k : Keys) (p : ℕ)
    → p < 128
    → is_letter p ≡ true
    → (k.offset ≡ 0) ⊎ (k.offset ≡ 32)
    → (if k.shift == 0 then plain_char k.offset p else shift_char k.offset p) % 256
      ≡ in_case k (kbdus p)
unfolding plain_char shift_char
chosen_char k p lt letter caps =
    let (eq, low, high, typed) = letter_cases p lt letter in
    chosen k.shift k.offset (kbdus p) (kbdus_shift p) eq low high caps

-- A letter key, pressed when the command line and the row have room and the cursor is on the screen,
-- puts the letter into the cell of the cursor, a capital if just one of shift and caps lock is on,
-- as a character that was not printed, and changes no other cell.
pub type_key-letter :
    (k : Keys) (p : ℕ) (d : Display) (b : Buffer)
    → p < 128
    → is_letter p ≡ true
    → (k.offset ≡ 0) ⊎ (k.offset ≡ 32)
    → OnScreen d
    → d.line_count < 127
    → d.limit < 79
    → Ensures
        (λ d' b'.
          (d'.line_count ≡ d.line_count + 1)
          × (d'.limit ≡ d.limit + 1)
          × ((j : ℕ)
              → b' j ≡ (
                  if j == 80 * d.buf_y + d.buf_x
                  then record (b j) { mo = in_case k (kbdus p); printed = 0 }
                  else b j)))
        (type_key k p d b)
unfolding type_key edit wrap_line setb
type_key-letter k p d b lt letter caps on room row =
    let open_line : is_full d ≡ false = ground arith in
    let (eq, low, high, typed) = letter_cases p lt letter in
    let place : cursor_index d ≡ 80 * d.buf_y + d.buf_x = index_in d on in
    let inside : ltb (80 * d.buf_y + d.buf_x) 2000 ≡ true = ground arith in
    let same_row : (add32 d.limit 1 == 80) ≡ false = ground arith in
    rw (open_line, typed, chosen_char k p lt letter caps, place, inside, same_row)
      (omega arith, omega arith, λ j. ground arith)

enter-counts :
    (d : Display) (b : Buffer)
    → OnScreen d
    → Ensures
        (λ d' b'. OnScreen d' × (d'.buf_x ≡ 0) × (d'.line_count ≡ 0) × (d'.limit ≡ 0))
        (enter d b)
unfolding enter new_line clear_buf_line scroll_buf
enter-counts d b on = ground arith

-- one more, with a limit that is not reached
one_more :
    (d : Display) (b : Buffer)
    → OnScreen d × (d.buf_x ≡ 0) × (d.line_count ≡ 0) × (d.limit ≡ 0)
    → Ensures
        (λ d' b'. OnScreen d' × (d'.buf_x ≡ 0) × (d'.line_count ≡ 1) × (d'.limit ≡ 1))
        (wrap_line (record d { limit = add32 d.limit 1; line_count = add32 d.line_count 1 }) b)
unfolding wrap_line
one_more d b (on, x, line, row) =
    rw (line, row) (record { column = on.column; row = on.row }, x, refl, refl)

pressed :
    (k : Keys) (d : Display) (b : Buffer)
    → OnScreen d
    → is_full d ≡ false
    → Ensures
        (λ d' b'. OnScreen d' × (d'.buf_x ≡ 0) × (d'.line_count ≡ 1) × (d'.limit ≡ 1))
        (type_key k 0x1c d b)
unfolding type_key edit
pressed k d b on room =
    rw room (Ensures-bind _ _ (enter d b) _ (enter-counts d b on) λ d1 b1 at. one_more d1 b1 at)

released :
    (k : Keys) (d : Display) (b : Buffer)
    → OnScreen d × (d.buf_x ≡ 0) × (d.line_count ≡ 1) × (d.limit ≡ 1)
    → Ensures (λ d' b'. (d'.buf_x ≡ 0) × (d'.line_count ≡ 1) × (d'.limit ≡ 1)) (type_key k 0x9c d b)
unfolding type_key edit wrap_line
released k d b (on, x, line, row) = rw (line, row) (x, refl, refl)

-- When the enter key is pressed and released on a line with room, the cursor being on the screen,
-- the cursor is in the first column, and the command line counts one character, though there is none.
type_key-enter :
    (k : Keys) (d : Display) (b : Buffer)
    → OnScreen d
    → is_full d ≡ false
    → Ensures
        (λ d' b'. (d'.buf_x ≡ 0) × (d'.line_count ≡ 1) × (d'.limit ≡ 1))
        (type_key k 0x1c d b >>= λ (d1, b1). type_key k 0x9c d1 b1)
type_key-enter k d b on room =
    Ensures-bind _ _ (type_key k 0x1c d b) _ (pressed k d b on room) λ d1 b1 at. released k d1 b1 at
