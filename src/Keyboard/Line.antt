-- ===== src/Keyboard/Line.antt =====
-- The counters of the command line under `type_key`: the last part of `kbd_logic` of
-- student-distrib/keyboard.c.
use fireball_os.Base.{
  ℕ, ◌+◌, ◌%◌, ◌≤◌, ◌<◌, ◌≡◌, ◌≢◌, ◌⊎◌, refl, arith, ◌==◌, if◌then◌else◌, true, false, add32,
  minus_one, Bool-cases, inl, inr,
}
use native.Mathlib.Decide.{ℕ_discrete}
use fireball_os.Console.{Display, Buffer, setb, backspace, new_line, clear_buf_line, scroll_buf}
use fireball_os.Console.Cursor.{OnScreen, Ensures, Ensures-bind, Ensures-mono}
use fireball_os.Keyboard.{
  Keys, type_key, edit, edit_full, wrap_line, enter, break_line, count_back, is_full, is_typed,
  plain_char, shift_char,
}

-- The counters are 32-bit words, with -1 to 127 for the line and -1 to 79 for the row.
pub record InLine (d : Display) : Type 0 where
  pub line : (d.line_count ≤ 127) ⊎ (d.line_count ≡ minus_one)
  pub row : (d.limit ≤ 79) ⊎ (d.limit ≡ minus_one)

-- before the row is wrapped
record AtMost80 (d : Display) : Type 0 where
  cursor : OnScreen d
  line : (d.line_count ≤ 127) ⊎ (d.line_count ≡ minus_one)
  row : (d.limit ≤ 80) ⊎ (d.limit ≡ minus_one)

-- what a key leaves
abbrev pub Good : Display → Buffer → Type 0
Good d b = OnScreen d × InLine d

-- `new_line` and `clear_buf_line` stay inside the buffer and leave the counters alone.
break_line-Keeps :
    (d : Display) (b : Buffer)
    → OnScreen d
    → Ensures
        (λ d' b'. OnScreen d' × (d'.line_count ≡ d.line_count) × (d'.limit ≡ d.limit))
        (break_line d b)
unfolding new_line clear_buf_line scroll_buf
break_line-Keeps d b on = ground arith

wrap_line-Good : (d : Display) (b : Buffer) → AtMost80 d → Ensures Good (wrap_line d b)
unfolding wrap_line
wrap_line-Good d b at = elim (Bool-cases (d.limit == 80)) [
  | inr e ↦ rw e (at.cursor, record { line = at.line; row = ground (arith, at.row) })
  | inl e ↦ rw e (
      Ensures-bind _ Good (break_line d b) _ (break_line-Keeps d b at.cursor)
        λ d1 b1 (on, line, row). (
          record { column = on.column; row = on.row },
          record { line = ground (arith, at.line, line); row = inl (omega arith) },
        ))
]

enter-Good :
    (d : Display) (b : Buffer)
    → OnScreen d
    → Ensures (λ d' b'. OnScreen d' × (d'.line_count ≡ 0) × (d'.limit ≡ 0)) (enter d b)
unfolding enter
enter-Good d b on =
    Ensures-bind _ _ (break_line d b) _ (break_line-Keeps d b on)
      λ d1 b1 (on1, line, row). (record { column = on1.column; row = on1.row }, refl, refl)

-- Backspace is pressed with the cursor behind the first cell.
abbrev pub MayEdit : ℕ → Display → Type 0
MayEdit p d = (p ≢ 0x0e) ⊎ (0 < d.buf_x + d.buf_y)

abbrev plus_one : Display → Display
plus_one d = record d { limit = add32 d.limit 1; line_count = add32 d.line_count 1 }

setb-counted :
    (c : ℕ) (d : Display) (b : Buffer)
    → OnScreen d
    → Ensures
        (λ d' b'. OnScreen d' × (d'.line_count ≡ d.line_count) × (d'.limit ≡ d.limit))
        (setb d b c)
unfolding setb
setb-counted c d b on = ground arith

backspace-counted :
    (d : Display) (b : Buffer) (n : ℕ)
    → OnScreen d
    → 0 < d.buf_x + d.buf_y
    → Ensures
        (λ d' b'. OnScreen d' × (d'.line_count ≡ d.line_count) × (d'.limit ≡ d.limit))
        (backspace d b n)
unfolding backspace
backspace-counted d b n on away = ground arith

count_back-AtMost80 :
    (by : ℕ) (d : Display)
    → (by ≡ 1) ⊎ (by ≡ 2)
    → OnScreen d
    → InLine d
    → AtMost80 (plus_one (count_back by d))
count_back-AtMost80 by d size on at = record {
  cursor = record { column = ground (arith, on.column); row = ground (arith, on.row) };
  line = ground (arith, at.line);
  row = ground (arith, at.row, at.line);
}

edit-AtMost80 :
    (p c : ℕ) (d : Display) (b : Buffer)
    → OnScreen d
    → InLine d
    → is_full d ≡ false
    → MayEdit p d
    → Ensures (λ d' b'. AtMost80 (plus_one d')) (edit p c d b)
unfolding edit
edit-AtMost80 p c d b on at room may = elim (Bool-cases (is_typed p)) [
  | inl e ↦ rw e (
      Ensures-mono _ _ (setb d b (c % 256)) (setb-counted (c % 256) d b on)
        λ d1 b1 (on1, line, row). (record {
          cursor = record { column = on1.column; row = on1.row };
          line = ground (arith, at.line, line, room);
          row = ground (arith, at.row, row);
        }))
  | inr e ↦ elim (ℕ_discrete p 0x0e) [
    | yes back ↦
        let hit : (p == 0x0e) ≡ true = ground (arith, back) in
        rw (e, hit)
          (Ensures-bind _ _ (backspace d b d.line_count) _
            (backspace-counted d b d.line_count on (ground (arith, may)))
            λ d1 b1 (on1, line, row).
              count_back-AtMost80 2 d1 (inr refl) on1
                (record { line = rw line at.line; row = rw row at.row }))
    | no other ↦
        let miss : (p == 0x0e) ≡ false = ground (arith, other) in
        elim (Bool-cases (p == 0x1c)) [
          | inl hit ↦
              rw (e, miss, hit)
                (Ensures-mono _ _ (enter d b) (enter-Good d b on) λ d1 b1 (on1, line, row).
                  (record {
                    cursor = record { column = on1.column; row = on1.row };
                    line = ground (arith, line);
                    row = ground (arith, row);
                  }))
          | inr none_of ↦ rw (e, miss, none_of) (count_back-AtMost80 1 d (inl refl) on at)
        ]
  ]
]

edit_full-AtMost80 :
    (p : ℕ) (d : Display) (b : Buffer)
    → OnScreen d
    → InLine d
    → is_full d ≡ true
    → MayEdit p d
    → Ensures (λ d' b'. AtMost80 d') (edit_full p d b)
unfolding edit_full
edit_full-AtMost80 p d b on at full may = elim (ℕ_discrete p 0x0e) [
  | yes back ↦
      let hit : (p == 0x0e) ≡ true = ground (arith, back) in
      rw hit (
        Ensures-bind _ _ (backspace d b d.line_count) _
          (backspace-counted d b d.line_count on (ground (arith, may)))
          λ d1 b1 (on1, line, row). (record {
            cursor = record { column = on1.column; row = on1.row };
            line = ground (arith, line, at.line);
            row = ground (arith, row, at.row);
          }))
  | no other ↦
      let miss : (p == 0x0e) ≡ false = ground (arith, other) in
      elim (Bool-cases (p == 0x1c)) [
        | inl hit ↦
            rw (miss, hit)
              (Ensures-mono _ _ (enter d b) (enter-Good d b on) λ d1 b1 (on1, line, row). (record {
                cursor = record { column = on1.column; row = on1.row };
                line = ground (arith, line);
                row = ground (arith, row);
              }))
        | inr none_of ↦
            rw (miss, none_of)
              (record { cursor = on; line = at.line; row = ground (arith, at.row) })
      ]
]

-- Any key, with any keys held, typed, erased or released, keeps the cursor on the screen, the count
-- of the command line between -1 and 127 and that of the row between -1 and 79, and does not leave
-- the buffer; but for a backspace with the cursor at the first cell.
pub type_key-Good :
    (k : Keys) (p : ℕ) (d : Display) (b : Buffer)
    → OnScreen d
    → InLine d
    → MayEdit p d
    → Ensures Good (type_key k p d b)
unfolding type_key
type_key-Good k p d b on at may = elim (Bool-cases (is_full d)) [
  | inl full ↦ rw full (
      Ensures-bind _ Good (edit_full p d b) _ (edit_full-AtMost80 p d b on at full may)
        λ d1 b1 at1. wrap_line-Good d1 b1 at1)
  | inr room ↦
      let c = if k.shift == 0 then plain_char k.offset p else shift_char k.offset p in
      rw room (
        Ensures-bind _ Good (edit p c d b) _ (edit-AtMost80 p c d b on at room may)
          λ d1 b1 at1. wrap_line-Good (plus_one d1) b1 at1)
]
