-- ===== src/Keyboard.antt =====
-- student-distrib/keyboard.c: the scan code tables, the keys that are held, and what a key does to the
-- command line. Machine has the whole interrupt, with the keys that switch terminals.
pub mod Held
pub mod Line
pub mod Typing
pub mod Machine
use fireball_os.Base.{
  ℕ, zero, suc, ◌+◌, ◌-◌, ◌/◌, ◌%◌, ◌==◌, if◌then◌else◌, ltb, leb, ◌&&◌, ◌||◌, not, Bool, Option,
  none, some, ◌>>=◌, List, [], ◌∷◌, add32, sub32, minus_one, is_negative,
}
use fireball_os.Console.{Display, Buffer, Action, setb, backspace, new_line, clear_buf_line}

-- `NUM_CHARS` entries; the rest of the initialiser is 0.
abbrev pub key_at : List ℕ → ℕ → ℕ
key_at [] i = 0
key_at (c ∷ cs) zero = c
key_at (c ∷ cs) (suc i) = key_at cs i

-- The two tables, up to the space bar and its next key, with the keys of the pad behind them.
abbrev pub pad : List ℕ
pad = 0 ∷ 0 ∷ 0 ∷ 0 ∷ 0 ∷ 0 ∷ 0 ∷ 0 ∷ 0 ∷ 0 ∷ 0 ∷ 0 ∷ 0 ∷ 0 ∷ 0 ∷ 0 ∷ 45 ∷ 0 ∷ 0 ∷ 0 ∷ 43 ∷ []

unfoldable pub kbdus : ℕ → ℕ
kbdus i =
    key_at
      (0 ∷ 27 ∷ 49 ∷ 50 ∷ 51 ∷ 52 ∷ 53 ∷ 54 ∷ 55 ∷ 56 ∷ 57 ∷ 48 ∷ 45 ∷ 61 ∷ 8 ∷ 9 ∷ 113 ∷ 119 ∷ 101
        ∷ 114 ∷ 116 ∷ 121 ∷ 117 ∷ 105 ∷ 111 ∷ 112 ∷ 91 ∷ 93 ∷ 10 ∷ 0 ∷ 97 ∷ 115 ∷ 100 ∷ 102 ∷ 103
        ∷ 104 ∷ 106 ∷ 107 ∷ 108 ∷ 59 ∷ 39 ∷ 96 ∷ 0 ∷ 92 ∷ 122 ∷ 120 ∷ 99 ∷ 118 ∷ 98 ∷ 110 ∷ 109 ∷ 44
        ∷ 46 ∷ 47 ∷ 0 ∷ 42 ∷ 0 ∷ 32 ∷ pad)
      i

unfoldable pub kbdus_shift : ℕ → ℕ
kbdus_shift i =
    key_at
      (0 ∷ 27 ∷ 33 ∷ 64 ∷ 35 ∷ 36 ∷ 37 ∷ 94 ∷ 38 ∷ 42 ∷ 40 ∷ 41 ∷ 95 ∷ 43 ∷ 8 ∷ 9 ∷ 81 ∷ 87 ∷ 69
        ∷ 82 ∷ 84 ∷ 89 ∷ 85 ∷ 73 ∷ 79 ∷ 80 ∷ 123 ∷ 125 ∷ 10 ∷ 0 ∷ 65 ∷ 83 ∷ 68 ∷ 70 ∷ 71 ∷ 72 ∷ 74
        ∷ 75 ∷ 76 ∷ 58 ∷ 34 ∷ 126 ∷ 0 ∷ 124 ∷ 90 ∷ 88 ∷ 67 ∷ 86 ∷ 66 ∷ 78 ∷ 77 ∷ 60 ∷ 62 ∷ 63 ∷ 0
        ∷ 42 ∷ 0 ∷ 32 ∷ pad)
      i

-- The global variables of the file, but for `line_count` and `limit`, which the display has.
pub record Keys : Type 0 where
  pub reset_flag : ℕ
  pub caps_count : ℕ
  pub shift : ℕ
  pub ctrl : ℕ
  pub alt : ℕ
  pub term2 : ℕ
  pub term3 : ℕ
  pub offset : ℕ
  pub line_flag : ℕ
  pub enter_press : ℕ

-- `caps_count % 2 == 1` of an `int`: the remainder of a negative number is not 1.
abbrev pub caps_on : ℕ → Bool
caps_on count = not (is_negative count) && count % 2 == 1

abbrev pub shift_keys : ℕ → Keys → Keys
shift_keys p k =
    if p == 0x2a || p == 0x36
    then record k { shift = 1 }
    else if p == 0xaa || p == 0xb6
    then record k { shift = 0 }
    else k

abbrev pub caps_key : ℕ → Keys → Keys
caps_key p k =
    let count = add32 k.caps_count 1 in
    if p == 0x3a
    then record k { caps_count = count; offset = if caps_on count then 32 else 0 }
    else k

abbrev pub ctrl_keys : ℕ → Keys → Keys
ctrl_keys p k =
    if p == 0x1d then record k { ctrl = 1 } else if p == 0x9d then record k { ctrl = 0 } else k

abbrev pub alt_keys : ℕ → Keys → Keys
alt_keys p k =
    if p == 0x38 then record k { alt = 1 } else if p == 0xb8 then record k { alt = 0 } else k

-- the tests at the start of `kbd_logic`
unfoldable pub hold_keys : ℕ → Keys → Keys
hold_keys p k = alt_keys p (ctrl_keys p (caps_key p (shift_keys p k)))

-- a key that is typed: neither backspace nor enter, no release, no shift, caps lock or control
abbrev pub is_typed : ℕ → Bool
is_typed p =
    ((not (p == 0x0e) && not (p == 0x1c)) && p / 128 % 2 == 0)
    && ((not (p == 0x2a) && not (p == 0x36)) && (not (p == 0x3a) && not (p == 0x1d)))

-- the character of a key, without shift and with it
unfoldable pub plain_char : (offset p : ℕ) → ℕ
plain_char offset p = let c = kbdus p in if leb 97 c && leb c 122 then sub32 c offset else c

unfoldable pub shift_char : (offset p : ℕ) → ℕ
shift_char offset p = let c = kbdus_shift p in if leb 65 c && leb c 90 then add32 c offset else c

-- `n >= 0` of an `int`
abbrev pub at_least_zero : ℕ → Bool
at_least_zero w = not (is_negative w)

-- The counters behind a backspace (`by` is 2) and behind a key that types nothing (`by` is 1), while
-- the line has room.
abbrev pub count_back : (by : ℕ) → Display → Display
count_back by d =
    let l = if at_least_zero d.limit then sub32 d.limit by else 78 in
    if at_least_zero d.line_count
    then record d { limit = l; line_count = sub32 d.line_count by }
    else record d { limit = minus_one }

-- the counters behind a backspace on a full line
abbrev pub count_full : Display → Display
count_full d = record d {
  limit = if at_least_zero d.limit then sub32 d.limit 1 else d.limit;
  line_count = if at_least_zero d.line_count then sub32 d.line_count 1 else d.line_count;
}

-- `new_line` and `clear_buf_line`
abbrev pub break_line : Display → Buffer → Action
break_line d b = new_line d b >>= λ (d1, b1). clear_buf_line d1 b1

unfoldable pub enter : Display → Buffer → Action
enter d b = break_line d b >>= λ (d1, b1). some (record d1 { limit = 0; line_count = 0 }, b1)

-- a key while the line has room: the branches without and with shift differ in the character
unfoldable pub edit : (p c : ℕ) → Display → Buffer → Action
unfolding enter
edit p c d b =
    if is_typed p
    then setb d b (c % 256)
    else if p == 0x0e
    then (backspace d b d.line_count >>= λ (d1, b1). some (count_back 2 d1, b1))
    else if p == 0x1c
    then enter d b
    else some (count_back 1 d, b)

-- a key while the line is full
unfoldable pub edit_full : (p : ℕ) → Display → Buffer → Action
unfolding enter
edit_full p d b =
    if p == 0x0e
    then (backspace d b d.line_count >>= λ (d1, b1). some (count_full d1, b1))
    else if p == 0x1c
    then enter d b
    else some (d, b)

-- the end of `kbd_logic`
unfoldable pub wrap_line : Display → Buffer → Action
wrap_line d b =
    if d.limit == 80
    then (break_line d b >>= λ (d1, b1). some (record d1 { limit = 0 }, b1))
    else some (d, b)

abbrev pub is_full : Display → Bool
is_full d = d.line_count == 127

-- `kbd_logic` from the limit of 127 characters on
unfoldable pub type_key : Keys → (p : ℕ) → Display → Buffer → Action
unfolding edit edit_full wrap_line plain_char shift_char
type_key k p d b =
    if is_full d
    then (edit_full p d b >>= λ (d1, b1). wrap_line d1 b1)
    else (edit p (if k.shift == 0 then plain_char k.offset p else shift_char k.offset p) d b
        >>= λ (d1, b1).
            wrap_line (record d1 { limit = add32 d1.limit 1; line_count = add32 d1.line_count 1 })
              b1)
