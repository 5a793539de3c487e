-- ===== src/Keyboard/Machine/Letter.antt =====
-- A letter key from the keyboard's interrupt to the screen: `kbd_int_handler` with `setb` and `printb`
-- behind it.
use fireball_os.Base.{
  ℕ, ◌+◌, ◌*◌, ◌%◌, ◌<◌, ◌≡◌, ◌⊎◌, refl, sym, subst, ap, ◌∙◌, arith, ◌==◌, if◌then◌else◌, ltb, leb,
  ◌&&◌, ◌||◌, not, Bool, true, false, none, some, passes_below, passes-passes_below,
}
use fireball_os.Console.{Display, Buffer, Action}
use fireball_os.Console.Cursor.{OnScreen, Ensures}
use fireball_os.Process.{Addresses}
use fireball_os.Video.{Video}
use fireball_os.Video.Draw.{Placed, char_at, is_drawn, printb-shows, printb-SameCursor, SameCursor}
use fireball_os.Terminal.{pass_buff, set_entry, show_buffer}
use fireball_os.StatusBar.{status_bar}
use fireball_os.Keyboard.{Keys, kbdus, hold_keys, is_full, type_key}
use fireball_os.Keyboard.Typing.{is_letter, in_case, type_key-letter}
use fireball_os.Keyboard.Machine.{
  Machine, stays, Stack, act, kbd_logic, show_line, kbd_int_handler, first_key, send,
  is_function_key,
}

-- the codes to which the start of `kbd_logic` reacts
abbrev is_special : ℕ → Bool
is_special p =
    (((p == 0x2a || p == 0x36) || (p == 0xaa || p == 0xb6))
      || ((p == 0x3a || p == 0x1d) || (p == 0x9d || p == 0x38)))
    || ((p == 0xb8 || p == 0x3e) || (p == 0x3f || is_function_key p))

abbrev plain_checked : ℕ → Bool
plain_checked p =
    if is_letter p then not (is_special p) && (leb 97 (kbdus p) && leb (kbdus p) 122) else true

plain_table : passes_below 128 plain_checked ≡ true
unfolding passes_below kbdus
plain_table = refl

plain_at : (p : ℕ) → p < 128 → plain_checked p ≡ true
plain_at p lt = passes-passes_below 128 plain_checked p plain_table lt

letter-special : (p : ℕ) → p < 128 → is_letter p ≡ true → is_special p ≡ false
letter-special p lt letter =
    let checked : (if is_letter p then not (is_special p) && is_letter p else true) ≡ true =
      plain_at p lt in
    let split : (a b : Bool) → b ≡ true → (if b then not a && b else true) ≡ true → a ≡ false =
      λ a b e h. ground arith in
    split (is_special p) (is_letter p) letter checked

not-special :
    (p : ℕ)
    → is_special p ≡ false
    → ((p == 0x2a) ≡ false)
      × ((p == 0x36) ≡ false)
      × ((p == 0xaa) ≡ false)
      × ((p == 0xb6) ≡ false)
      × ((p == 0x3a) ≡ false)
      × ((p == 0x1d) ≡ false)
      × ((p == 0x9d) ≡ false)
      × ((p == 0x38) ≡ false)
      × ((p == 0xb8) ≡ false)
      × ((p == 0x3e) ≡ false)
      × ((p == 0x3f) ≡ false)
      × (is_function_key p ≡ false)
not-special p plain = ground arith

hold_keys-plain : (p : ℕ) (k : Keys) → is_special p ≡ false → hold_keys p k ≡ k
unfolding hold_keys
hold_keys-plain p k plain =
    let (e1, e2, e3, e4, e5, e6, e7, e8, e9, _, _, _) = not-special p plain in
    rw (e1, e2, e3, e4, e5, e6, e7, e8, e9) refl

-- what the letter leaves, from the result of `kbd_logic` on
Ensures-some :
    (P : Display → Buffer → Type 0) (r : Action)
    → Ensures P r
    → (d : Display) × (b : Buffer) × (r ≡ some (d, b)) × P d b
Ensures-some P none p = absurd p
Ensures-some P (some (d, b)) p = (d, b, refl, p)

-- the state behind a key that is typed
abbrev typed : Machine → (buffer : ℕ) → Display → Buffer → Machine
typed m buffer d b = record m {
  terms = record m.terms { display = d; buffs = set_entry m.terms.buffs buffer b };
  keys = record m.keys { line_flag = if is_full m.terms.display then 0 else 1 };
}

act-plain :
    (a : Addresses) (st : Stack) (p buffer : ℕ) (m : Machine) (d : Display) (b : Buffer)
    → is_special p ≡ false
    → m.keys.ctrl ≡ 0
    → type_key m.keys p m.terms.display (m.terms.buffs buffer) ≡ some (d, b)
    → act a st p buffer m ≡ some (stays, typed m buffer d b)
unfolding act
act-plain a st p buffer m d b plain ctrl e =
    let (_, _, _, _, _, _, _, _, _, f4, f5, function) = not-special p plain in
    let no_reset : (not (m.keys.ctrl == 0) && p == 0x26) ≡ false = rw ctrl refl in
    let no_f4 : (not (m.keys.alt == 0) && p == 0x3e) ≡ false = ground (arith, f4) in
    let no_f5 : (not (m.keys.alt == 0) && p == 0x3f) ≡ false = ground (arith, f5) in
    let no_function : (not (m.keys.alt == 0) && is_function_key p) ≡ false =
      ground (arith, function) in
    rw (no_reset, no_f4, no_f5, no_function, e) refl

abbrev shown_line : (status x y p buffer : ℕ) → Machine → Machine
shown_line status x y p buffer m = send 1 (record m {
  terms =
      show_buffer
        (record m.terms {
          video = status_bar m.kernel.mem status m.terms.screen_num x y m.terms.video;
        })
        buffer;
  keys = record m.keys { enter_press = if p == 0x1c then 1 else 0 };
})

show_line-shows :
    (status x y p buffer : ℕ) (m : Machine) (b : Buffer)
    → pass_buff m.terms ≡ some buffer
    → m.terms.buffs buffer ≡ b
    → Placed b
    → (m' : Machine) × (show_line status x y p (stays, m) ≡ some (stays, m'))
      × ((j : ℕ) → j < 1920 → is_drawn (b j).mo ≡ true → char_at m'.terms.video j ≡ (b j).mo % 256)
      × SameCursor m.terms.display m'.terms.display
unfolding show_line
show_line-shows status x y p buffer m b current here placed =
    let v = status_bar m.kernel.mem status m.terms.screen_num x y m.terms.video in
    (
      shown_line status x y p buffer m,
      rw current refl,
      (λ j lt drawn.
          let inside : ltb j 1920 ≡ true = ground arith in
          let visible : is_drawn (m.terms.buffs buffer j).mo ≡ true =
            ap (λ b. is_drawn (b j).mo) here ∙ drawn in
          let shown =
            printb-shows (m.terms.buffs buffer) m.terms.display v j
              (subst Placed (sym here) placed) in
          rw (inside, visible) at shown.0 ∙ ap (λ b. (b j).mo % 256) here),
      printb-SameCursor (m.terms.buffs buffer) m.terms.display v,
    )

-- the buffer with a letter has the coordinates that it had
letter-Placed :
    (b b' : Buffer) (cell c : ℕ)
    → Placed b
    → ((j : ℕ) → b' j ≡ (if j == cell then record (b j) { mo = c; printed = 0 } else b j))
    → Placed b'
letter-Placed b b' cell c placed cells j lt =
    let same = cells j in ground (arith, same, placed j lt)

set_entry-same {ℓ} : {A : Type ℓ} (f : ℕ → A) (i : ℕ) (a : A) → set_entry f i a i ≡ a
set_entry-same f i a = let same : (i == i) ≡ true = ground arith in rw same refl

in_case-drawn :
    (k : Keys) (c : ℕ)
    → (leb 97 c && leb c 122) ≡ true
    → (is_drawn (in_case k c) ≡ true) × (in_case k c % 256 ≡ in_case k c)
in_case-drawn k c letter = ground arith

cell_mo :
    (b b' : Buffer) (cell c : ℕ)
    → ((j : ℕ) → b' j ≡ (if j == cell then record (b j) { mo = c; printed = 0 } else b j))
    → (b' cell).mo ≡ c
cell_mo b b' cell c cells =
    let same : (cell == cell) ≡ true = ground arith in
    let e = cells cell in ap (λ n. n.mo) (rw same at e)

drawn_letter :
    (b : Buffer) (v : Video) (cell c : ℕ)
    → (b cell).mo ≡ c
    → (is_drawn c ≡ true) × (c % 256 ≡ c)
    → cell < 1920
    → ((j : ℕ) → j < 1920 → is_drawn (b j).mo ≡ true → char_at v j ≡ (b j).mo % 256)
    → char_at v cell ≡ c
drawn_letter b v cell c e (visible, byte) lt drawn =
    let shown = drawn cell lt (ap is_drawn e ∙ visible) in shown ∙ ap (λ c. c % 256) e ∙ byte

abbrev pub Pressed : Machine → (cell letter : ℕ) → Machine → Type 0
Pressed m cell letter m' =
    (char_at m'.terms.video cell ≡ letter)
    × (m'.terms.display.line_count ≡ m.terms.display.line_count + 1)
    × (m'.terms.display.limit ≡ m.terms.display.limit + 1)

-- With the current terminal's buffer in order and its cursor on the screen, with room on the line
-- and in the row, and control not held, the interrupt of a letter key ends by its return and the
-- screen shows the letter in the cell of the cursor, a capital if just one of shift and caps lock is
-- on; the counters of the line go up by one.
pub kbd_int_handler-letter :
    (a : Addresses) (st : Stack) (status x y p buffer : ℕ) (m : Machine)
    → p < 128
    → is_letter p ≡ true
    → (m.keys.offset ≡ 0) ⊎ (m.keys.offset ≡ 32)
    → m.keys.ctrl ≡ 0
    → pass_buff m.terms ≡ some buffer
    → Placed (m.terms.buffs buffer)
    → OnScreen m.terms.display
    → m.terms.display.line_count < 127
    → m.terms.display.limit < 79
    → (m' : Machine) × (kbd_int_handler a st status x y p m ≡ some (stays, m'))
      × Pressed m (80 * m.terms.display.buf_y + m.terms.display.buf_x) (in_case m.keys (kbdus p)) m'
unfolding kbd_int_handler kbd_logic pass_buff
kbd_int_handler-letter a st status x y p buffer m lt letter caps ctrl current placed on room row =
    let plain = letter-special p lt letter in
    let f = first_key m in
    let (d, b, e, (line, limit, cells)) =
      Ensures-some _ (type_key f.keys p m.terms.display (m.terms.buffs buffer)) (
        type_key-letter f.keys p m.terms.display (m.terms.buffs buffer) lt letter caps on room
          row) in
    let same : hold_keys p f.keys ≡ f.keys = hold_keys-plain p f.keys plain in
    let cell = 80 * m.terms.display.buf_y + m.terms.display.buf_x in
    let placed' = letter-Placed _ b cell (in_case f.keys (kbdus p)) placed cells in
    let (m', shown, drawn, cursor) =
      show_line-shows status x y p buffer (typed f buffer d b) b current
        (set_entry-same m.terms.buffs buffer b) placed' in
    let letter_shown =
      drawn_letter b m'.terms.video cell (in_case f.keys (kbdus p))
        (cell_mo (m.terms.buffs buffer) b cell (in_case f.keys (kbdus p)) cells)
        (in_case-drawn f.keys (kbdus p) letter) (omega arith) drawn in
    (
      m',
      rw (current, same, act-plain a st p buffer f d b plain ctrl e) shown,
      (letter_shown, cursor.0 ∙ line, cursor.1 ∙ limit),
    )
