-- ===== src/Tests/Keys.antt =====
-- Keys that are pressed and released.
use fireball_os.Base.{◌+◌, ◌*◌, ◌≡◌, inl, inr, refl, some, arith, []}
use fireball_os.Console.Cursor.{OnScreen, Ensures}
use fireball_os.Terminal.{pass_buff}
use fireball_os.Keyboard.{Keys, kbdus, type_key}
use fireball_os.Keyboard.Line.{Good, type_key-Good}
use fireball_os.Keyboard.Typing.{in_case}
use fireball_os.Keyboard.Machine.{Machine, Stack, stays, leaves, kbd_int_handler}
use fireball_os.Keyboard.Machine.Letter.{Pressed, kbd_int_handler-letter}
use fireball_os.Keyboard.Machine.Switch.{Opened, kbd_int_handler-Opened}
use fireball_os.Tests.Commands.{addresses}
use fireball_os.Tests.Processes.{kernel}
use fireball_os.Tests.Screens.{home, grid, grid-Placed, terminals}

abbrev pub keys : Keys
keys = record {
  reset_flag = 0;
  caps_count = 0;
  shift = 0;
  ctrl = 0;
  alt = 0;
  term2 = 0;
  term3 = 1;
  offset = 0;
  line_flag = 1;
  enter_press = 0;
}

home-OnScreen : OnScreen home
home-OnScreen = record { column = omega arith; row = omega arith }

type_key-Good_example : Ensures Good (type_key keys 0x0e home grid)
type_key-Good_example =
    type_key-Good keys 0x0e home grid home-OnScreen
      (record { line = inl (omega arith); row = inl (omega arith) }) (inr (omega arith))

-- the key of the letter q, with shift
abbrev shifted : Keys
shifted = record keys { shift = 1 }

abbrev pub machine : Machine
machine = record { kernel = kernel; terms = terminals; keys = keys; test_flag = 1; sent = [] }

abbrev stack : Stack
stack = record {
  execute_esp = 8000;
  execute_ebp = 8004;
  switch_esp = 8008;
  switch_ebp = 8012;
  fname = 9000;
}

first-buffer : pass_buff terminals ≡ some 0
unfolding pass_buff
first-buffer = refl

kbd_int_handler-letter_example :
    (m' : Machine) × (kbd_int_handler addresses stack 1000 40 12 16 machine ≡ some (stays, m'))
    × Pressed machine (80 * home.buf_y + home.buf_x) (in_case keys (kbdus 16)) m'
unfolding kbdus
kbd_int_handler-letter_example =
    kbd_int_handler-letter addresses stack 1000 40 12 16 0 machine (omega arith) refl (inl refl)
      refl first-buffer grid-Placed home-OnScreen (omega arith) (omega arith)

-- alt is held
abbrev alt_machine : Machine
alt_machine = record machine { keys = record keys { alt = 1 } }

kbd_int_handler-Opened_example :
    (m' : Machine) × (kbd_int_handler addresses stack 1000 40 12 (0x3b + 1) alt_machine
      ≡ some (leaves, m'))
    × Opened 1 alt_machine m'
kbd_int_handler-Opened_example =
    kbd_int_handler-Opened addresses stack 1000 40 12 1 1 0 alt_machine (omega arith) (omega arith)
      (omega arith) (omega arith) refl first-buffer refl (omega arith)
