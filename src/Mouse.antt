-- ===== src/Mouse.antt =====
-- student-distrib/mouse.c: the packets of the mouse, its place on the screen, and its buttons. What
-- the ports give is an argument.
pub mod Moving
pub mod Clicks
use Prim.Native.Nat.{bit_or}
use fireball_os.Base.{
  ℕ, ◌+◌, ◌-◌, ◌*◌, ◌/◌, ◌%◌, ◌^◌, ◌==◌, if◌then◌else◌, ltb, leb, ◌&&◌, not, Bool, Option, none,
  some, ◌>>=◌, List, [], ◌∷◌, u32, add32, sub32, is_negative,
}
use fireball_os.CString.{sign_extend}
use fireball_os.Pic.{Pics, enable_irq, send_eoi}
use fireball_os.Video.{Video, set_colour, set_palette, colour_palette}
use fireball_os.Terminal.{Terminals, screen_at, show_buffer, terminal_switch}

-- `mouse_coords`, `input_packet` and `read_flag`
pub record Mouse : Type 0 where
  pub x : ℕ
  pub y : ℕ
  pub input_packet : ℕ
  pub read_flag : ℕ

-- MOUSE_PORT and MOUSE_IO_PORT
abbrev pub mouse_port : ℕ
mouse_port = 0x64

abbrev pub mouse_io_port : ℕ
mouse_io_port = 0x60

-- bit `n` of a byte
abbrev pub bit_of : ℕ → ℕ → ℕ
bit_of byte n = byte / 2 ^ n % 2

-- `w % k` of an `int32_t`
abbrev pub rem32 : ℕ → ℕ → ℕ
rem32 w k = if is_negative w then (u32 - (u32 - w) % k) % u32 else w % k

-- The new state of the controllers and the mouse, and the writes to the ports, at `status` read.
unfoldable pub init_mouse : (status : ℕ) → Pics → Mouse → Pics × Mouse × List (ℕ × ℕ)
init_mouse status p m = (
  enable_irq p 12,
  record m { x = 79; y = 24 },
  (0xa8, mouse_port)
      ∷ (0x20, mouse_port)
      ∷ (mouse_io_port, mouse_port)
      ∷ (bit_or status 2, mouse_io_port)
      ∷ (mouse_io_port, mouse_port)
      ∷ (0x47, mouse_io_port)
      ∷ (0xd4, mouse_port)
      ∷ (0xf4, mouse_io_port)
      ∷ [],
)

-- `status` is what MOUSE_PORT gives, and `packet` what MOUSE_IO_PORT gives next.
unfoldable pub attempt_read : (status packet : ℕ) → Mouse → ℕ × Mouse
attempt_read status packet m =
    if status % 2 == 0
    then (0, record m { read_flag = 0 })
    else (packet, record m { read_flag = 1 })

-- `(input_packet && mask) >> shift`
abbrev pub logical_and : (packet mask shift : ℕ) → ℕ
logical_and packet mask shift = (if not (packet == 0) && not (mask == 0) then 1 else 0) / 2 ^ shift

-- An `int` kept between 0 and `most`.
abbrev pub clamp : (most w : ℕ) → ℕ
clamp most w = if is_negative w then 0 else if ltb most w then most else w

-- of the three tests on the shifted truth value the second, below 0, is never true
abbrev pub move_x : (packet x x_change : ℕ) → ℕ
move_x packet x x_change = clamp 79 (add32 x x_change)

abbrev pub move_y : (packet y y_change : ℕ) → ℕ
move_y packet y y_change =
    clamp 24 (if ltb 0 (logical_and packet 0x20 5) then add32 y y_change else sub32 y y_change)

unfoldable pub show_cursor : Mouse → Video → Video
show_cursor m v = set_colour v m.x m.y mouse_port

unfoldable pub move_mouse : (x_change y_change : ℕ) → Mouse → Video → Mouse × Video
unfolding show_cursor
move_mouse x_change y_change m v =
    let v1 = set_colour v m.x m.y (colour_palette v.color_pick) in
    let m1 = record m {
      x = move_x m.input_packet m.x x_change;
      y = move_y m.input_packet m.y y_change;
    } in
    (m1, show_cursor m1 v1)

-- a click on the button of terminal `new`
abbrev pub click_terminal : Terminals → (new screen_num : ℕ) → Option Terminals
click_terminal t new screen_num =
    terminal_switch (record t { screen_num = screen_num }) new screen_num

-- The three tests of the left button, of which at most one is true: the mouse stays where it is.
unfoldable pub left_click : Mouse → Terminals → Option Terminals
left_click m t =
    if (not (is_negative m.x) && leb m.x 10) && m.y == 24
    then click_terminal t 0 1
    else if (ltb 10 m.x && leb m.x 20) && m.y == 24
    then click_terminal t 1 2
    else if (ltb 20 m.x && leb m.x 31) && m.y == 24
    then click_terminal t 2 3
    else some t

unfoldable pub right_click : Terminals → Option Terminals
right_click t =
    let v = set_palette (record t.video { color_pick = (t.video.color_pick + 1) % 5 }) in
    screen_at t t.screen_num >>= λ b. some (show_buffer (record t { video = v }) b)

-- bytes two and three of the packet, with the ninth bits, as the changes
abbrev pub x_packet : (packet xm : ℕ) → ℕ
x_packet packet xm = rem32 (sub32 (sign_extend xm) (256 * bit_of packet 4)) 3

abbrev pub y_packet : (packet ym : ℕ) → ℕ
y_packet packet ym = rem32 (sub32 (sign_extend ym) (256 * bit_of packet 5)) 2

-- Behind the checks on the first byte.
unfoldable pub handle_packet : (xm ym : ℕ) → Mouse → Terminals → Option (Mouse × Terminals)
unfolding left_click right_click
handle_packet xm ym m t =
    let packet = m.input_packet in
    let (m1, v1) = move_mouse (x_packet packet xm) (y_packet packet ym) m t.video in
    let t1 = record t { video = v1 } in
    (if bit_of packet 0 == 1 then left_click m1 t1 else some t1) >>= λ t2.
    (if bit_of packet 1 == 1 then right_click t2 else some t2) >>= λ t3. some (m1, t3)

-- Less the additional commands that end the interrupt in the branches of the left button.
unfoldable pub mouse_int_handler :
    (status packet xm ym : ℕ) → Mouse → Terminals → Option (Mouse × Terminals × List (ℕ × ℕ))
unfolding attempt_read handle_packet
mouse_int_handler status packet xm ym m t =
    let (byte, m0) = attempt_read status packet m in
    let m1 = record m0 { input_packet = byte } in
    if bit_of byte 3 == 1
    then (if bit_of byte 6 == 0 && bit_of byte 7 == 0
        then (handle_packet xm ym m1 t >>= λ (m2, t2). some (m2, t2, send_eoi 12))
        else some (m1, t, send_eoi 12))
    else some (m1, t, send_eoi 12)
