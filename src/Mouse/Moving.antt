-- ===== src/Mouse/Moving.antt =====
-- Where `mouse_int_handler` of student-distrib/mouse.c leaves the mouse, and when it has no result.
use fireball_os.Base.{
  ℕ, ◌≤◌, ◌<◌, ◌≡◌, ◌⊎◌, refl, arith, ◌==◌, ltb, leb, not, if◌then◌else◌, ◌&&◌, true, Option, none,
  some, ◌>>=◌, Bool-cases, inl, inr, List, is_negative, ◌%◌, ◌+◌, ap,
}
use fireball_os.Pic.{send_eoi}
use fireball_os.Video.{Video, set_palette}
use fireball_os.Terminal.{Terminals, show_buffer, terminal_switch}
use fireball_os.Terminal.Switching.{switched}
use fireball_os.Mouse.{
  Mouse, move_mouse, mouse_int_handler, handle_packet, left_click, right_click, attempt_read,
  x_packet, y_packet, bit_of, clamp,
}
use fireball_os.Mouse.Clicks.{left_click-none}

pub record InScreen (m : Mouse) : Type 0 where
  pub column : m.x < 80
  pub row : m.y < 25

clamp-le : (most w : ℕ) → clamp most w ≤ most
clamp-le most w = ground arith

-- Whatever the changes are, `move_mouse` leaves the mouse on the screen or its status bar.
pub move_mouse-InScreen :
    (x_change y_change : ℕ) (m : Mouse) (v : Video) → InScreen (move_mouse x_change y_change m v).0
unfolding move_mouse
move_mouse-InScreen x_change y_change m v = record { column = ground arith; row = ground arith }

-- the three terminals have their buffers, and one of them is shown
pub record AreOpen (t : Terminals) : Type 0 where
  pub shown : t.screen_num < 3
  pub buffer : (i : ℕ) → i < 3 → (b : ℕ) × (t.screens i ≡ some b)

-- a result, with the terminals open
abbrev Opens : Option Terminals → Type 0
Opens o = (t' : Terminals) × (o ≡ some t') × AreOpen t'

-- on the button of the third terminal
abbrev pub OnThird : Mouse → Type 0
OnThird m = (20 < m.x) × (m.x ≤ 31) × (m.y ≡ 24)

Opens-bind :
    (f : ℕ → Terminals) (o : Option ℕ)
    → (b : ℕ) × (o ≡ some b)
    → ((b : ℕ) → AreOpen (f b))
    → Opens (o >>= λ b. some (f b))
Opens-bind f o (b, e) opened = (f b, ap (λ o. o >>= λ b. some (f b)) e, opened b)

terminal_switch-Opens :
    (t : Terminals) (new old : ℕ)
    → new < 3
    → old < 3
    → AreOpen t
    → Opens (terminal_switch (record t { screen_num = old }) new old)
unfolding terminal_switch
terminal_switch-Opens t new old ltn lto opened =
    let known : (ltb old 3 && ltb new 3) ≡ true = ground arith in
    rw known (
      Opens-bind (switched (record t { screen_num = old }) new old) (t.screens new)
        (opened.buffer new ltn) (λ b. record { shown = ltn; buffer = opened.buffer }))

left_click_cases :
    (m : Mouse) (t : Terminals)
    → InScreen m
    → AreOpen t
    → Opens (left_click m t) ⊎ ((left_click m t ≡ none) × OnThird m)
unfolding left_click
left_click_cases m t on opened =
    let first = (not (is_negative m.x) && leb m.x 10) && m.y == 24 in
    let second = (ltb 10 m.x && leb m.x 20) && m.y == 24 in
    let third = (ltb 20 m.x && leb m.x 31) && m.y == 24 in
    elim (Bool-cases first) [
      | inl a ↦ inl (rw a (terminal_switch-Opens t 0 1 (omega arith) (omega arith) opened))
      | inr a ↦ elim (Bool-cases second) [
        | inl b ↦ inl (rw (a, b) (terminal_switch-Opens t 1 2 (omega arith) (omega arith) opened))
        | inr b ↦ elim (Bool-cases third) [
          | inl c ↦
              let low : 20 < m.x = ground arith in
              let high : m.x ≤ 31 = ground arith in
              let bar : m.y ≡ 24 = ground arith in
              inr (unfold left_click in left_click-none m t low high bar, (low, high, bar))
          | inr c ↦ inl (t, rw (a, b, c) refl, opened)
        ]
      ]
    ]

right_click-Opens : (t : Terminals) → AreOpen t → Opens (right_click t)
unfolding right_click
right_click-Opens t opened =
    let known : ltb t.screen_num 3 ≡ true = ground (arith, opened.shown) in
    let v = set_palette (record t.video { color_pick = (t.video.color_pick + 1) % 5 }) in
    rw known (
      Opens-bind (show_buffer (record t { video = v })) (t.screens t.screen_num)
        (opened.buffer t.screen_num opened.shown)
        (λ b. record { shown = opened.shown; buffer = opened.buffer }))

-- What a packet comes to, at the place where it moves the mouse: a mouse on the screen and open
-- terminals, or, for the left button on the third button, no result.
abbrev pub Handled :
    {A : Type 0} → Option (Mouse × Terminals × A) → (packet : ℕ) (moved : Mouse) → Type 0
Handled {A} r packet moved =
    ((m : Mouse) × (t : Terminals) × (a : A) × (r ≡ some (m, t, a)) × InScreen m × AreOpen t)
    ⊎ ((r ≡ none) × (bit_of packet 0 ≡ 1) × OnThird moved)

-- the buttons, once the mouse is at its place
buttons :
    (packet : ℕ) → Mouse → Terminals → List (ℕ × ℕ) → Option (Mouse × Terminals × List (ℕ × ℕ))
buttons packet m t writes =
    ((if bit_of packet 0 == 1 then left_click m t else some t) >>= λ t2.
    (if bit_of packet 1 == 1 then right_click t2 else some t2) >>= λ t3. some (m, t3))
    >>= λ (m2, t2). some (m2, t2, writes)

right_button :
    (packet : ℕ) (t : Terminals)
    → AreOpen t
    → Opens (if bit_of packet 1 == 1 then right_click t else some t)
right_button packet t opened = elim (Bool-cases (bit_of packet 1 == 1)) [
  | inl e ↦ rw e (right_click-Opens t opened)
  | inr e ↦ rw e (t, refl, opened)
]

left_button :
    (packet : ℕ) (m : Mouse) (t : Terminals)
    → InScreen m
    → AreOpen t
    → let o = if bit_of packet 0 == 1 then left_click m t else some t in
      Opens o ⊎ ((o ≡ none) × (bit_of packet 0 ≡ 1) × OnThird m)
left_button packet m t on opened = elim (Bool-cases (bit_of packet 0 == 1)) [
  | inr e ↦ rw e (inl (t, refl, opened))
  | inl e ↦ rw e (elim (left_click_cases m t on opened) [
    | inl done ↦ inl done
    | inr (stuck, third) ↦ inr (stuck, ground arith, third)
  ])
]

buttons-Handled :
    (packet : ℕ) (m : Mouse) (t : Terminals) (writes : List (ℕ × ℕ))
    → InScreen m
    → AreOpen t
    → Handled (buttons packet m t writes) packet m
unfolding buttons
buttons-Handled packet m t writes on opened = elim (left_button packet m t on opened) [
  | inr (stuck, left, third) ↦ inr (rw stuck refl, left, third)
  | inl (t2, e, opened2) ↦
      let (t3, e', opened3) = right_button packet t2 opened2 in
      inl (m, t3, writes, rw (e, e') refl, on, opened3)
]

-- From a mouse on the screen and open terminals, for any packet, whatever its bytes, and any buttons:
-- either `mouse_int_handler` comes to an end with the mouse on the screen or its status bar and the
-- terminals open, or it has no result, and then the packet has the left button and moves the mouse to
-- the button of the third terminal.
pub mouse_int_handler-InScreen :
    (status packet xm ym : ℕ) (m : Mouse) (t : Terminals)
    → InScreen m
    → AreOpen t
    → let (byte, m0) = attempt_read status packet m in
      let at = record m0 { input_packet = byte } in
      Handled
        (mouse_int_handler status packet xm ym m t)
        byte
        (move_mouse (x_packet byte xm) (y_packet byte ym) at t.video).0
unfolding mouse_int_handler handle_packet buttons
mouse_int_handler-InScreen status packet xm ym m t on opened =
    let (byte, m0) = attempt_read status packet m in
    let at = record m0 { input_packet = byte } in
    let kept : InScreen at = record {
      column = ground (arith, on.column);
      row = ground (arith, on.row);
    } in
    let (m1, v1) = move_mouse (x_packet byte xm) (y_packet byte ym) at t.video in
    elim (Bool-cases (bit_of byte 3 == 1)) [
      | inr e ↦ inl (at, t, send_eoi 12, rw e refl, kept, opened)
      | inl e ↦ elim (Bool-cases (bit_of byte 6 == 0 && bit_of byte 7 == 0)) [
        | inr e' ↦ inl (at, t, send_eoi 12, rw (e, e') refl, kept, opened)
        | inl e' ↦
            rw (e, e')
              (buttons-Handled byte m1 (record t { video = v1 }) (send_eoi 12)
                (move_mouse-InScreen (x_packet byte xm) (y_packet byte ym) at t.video)
                (record { shown = opened.shown; buffer = opened.buffer }))
      ]
    ]
