-- ===== src/Tests/Clockwork.antt =====
-- The status bar, its clock and the mouse.
use fireball_os.Base.{ℕ, ◌+◌, ◌/◌, ◌%◌, ◌≡◌, refl, ◌==◌, if◌then◌else◌, some, arith}
use fireball_os.Memory.{Mem}
use fireball_os.CString.Length.{IsString}
use fireball_os.StatusBar.{SysTime, Timer}
use fireball_os.StatusBar.Time.{IsTime, seconds}
use fireball_os.StatusBar.Ticks.{IsRunning, run, run-seconds}
use fireball_os.Mouse.{Mouse, mouse_int_handler, attempt_read, move_mouse, x_packet, y_packet}
use fireball_os.Mouse.Moving.{AreOpen, Handled, mouse_int_handler-InScreen}
use fireball_os.Tests.Screens.{dark, terminals}

-- the last second of an hour
abbrev late : SysTime
late = record { min_tens = 53; min_ones = 57; colon = 58; sec_tens = 53; sec_ones = 57 }

late-IsTime : IsTime late
late-IsTime = record {
  min_tens = (omega arith, omega arith);
  min_ones = (omega arith, omega arith);
  colon = refl;
  sec_tens = (omega arith, omega arith);
  sec_ones = (omega arith, omega arith);
}

-- 80 blanks at 1000
abbrev blanks : Mem
blanks a = if a == 1080 then 0 else 32

blanks-IsString : IsString blanks 1000 80
blanks-IsString = record { nonzero = λ i lt. ground arith; terminated = refl }

abbrev timer : Timer
timer = record { pit_int_num = 0; sys_time = late; mem = blanks; video = dark }

timer-IsRunning : IsRunning 1000 80 timer
timer-IsRunning = record {
  time = late-IsTime;
  text = blanks-IsString;
  long = omega arith;
  small = omega arith;
}

run-seconds_example :
    (t' : Timer) × (run 1000 80 1 40 12 250 timer ≡ some t')
    × (t'.pit_int_num ≡ 250)
    × IsRunning 1000 80 t'
    × (seconds t'.sys_time ≡ (seconds late + 250 / 100) % 3600)
run-seconds_example = run-seconds 1000 80 1 40 12 250 timer (omega arith) timer-IsRunning refl

-- the mouse on a button of the last row
abbrev mouse_at : ℕ → Mouse
mouse_at x = record { x = x; y = 24; input_packet = 9; read_flag = 1 }

terminals-AreOpen : AreOpen terminals
terminals-AreOpen = record { shown = omega arith; buffer = λ i lt. (i, refl) }

mouse_int_handler-InScreen_example :
    let (byte, m0) = attempt_read 1 0x29 (mouse_at 25) in
    let at = record m0 { input_packet = byte } in
    Handled
      (mouse_int_handler 1 0x29 200 7 (mouse_at 25) terminals)
      byte
      (move_mouse (x_packet byte 200) (y_packet byte 7) at terminals.video).0
mouse_int_handler-InScreen_example =
    mouse_int_handler-InScreen 1 0x29 200 7 (mouse_at 25) terminals
      (record { column = omega arith; row = omega arith }) terminals-AreOpen
