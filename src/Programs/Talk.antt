-- ===== src/Programs/Talk.antt =====
-- syscalls/ece391shell.c, ece391hello.c, ece391testprint.c, ece391counter.c and ece391pingpong.c.
use Prim.Native.String.{String}
use fireball_os.Base.{
  ℕ, zero, suc, ◌+◌, ◌-◌, ◌==◌, if◌then◌else◌, ltb, Bool, true, false, ◌&&◌, ◌||◌, minus_one, none,
  is_negative,
}
use fireball_os.Programs.{
  Os, Run, ◌>>=◌, ◌>>◌, pure, lift, peek, poke, ece391_fdputs, ece391_strlen, ece391_strcmp,
  ece391_itoa,
}

module _ (os : Os) (text : String → ℕ) where
  abbrev pub say : String → Run os (Unit {0})
  say s = ece391_fdputs os 1 (text s)

  -- what the shell says of the result of a command
  unfoldable pub tell : (rval : ℕ) → Run os (Unit {0})
  tell rval =
      if rval == minus_one
      then say "no such command\n"
      else if rval == 256
      then say "program terminated by exception\n"
      else if rval == 0
      then pure tt
      else say "program terminated abnormally\n"

  -- `cnt > 0 && '\n' == buf[cnt - 1]` of an `int32_t`: the line's length less its line break
  abbrev pub trim : (buf cnt : ℕ) → Run os ℕ
  trim buf cnt =
      if cnt == 0 || is_negative cnt
      then pure cnt
      else do c ← peek os (buf + (cnt - 1)); pure (if c == 10 then cnt - 1 else cnt)

  -- what becomes of a line: the shell ends, or it goes on
  unfoldable pub do_line : (buf cnt : ℕ) → Run os Bool
  unfolding tell
  do_line buf cnt = do
    n ← trim buf cnt
    poke os (buf + n) 0
    is_exit ← (λ s. lift (ece391_strcmp (os.mem s) buf (text "exit")) s)
    c ← peek os buf
    if is_exit == 0
        then pure true
        else if c == 0
        then pure false
        else do rval ← os.ece391_execute buf; tell rval; pure false

  -- the loop of the shell; `none` also when the fuel is used up
  unfoldable pub shell_loop : ℕ → (buf : ℕ) → Run os ℕ
  unfolding do_line
  shell_loop zero buf = lift none
  shell_loop (suc f) buf = do
    say "391OS> "
    cnt ← os.ece391_read 0 buf 1023
    elim (cnt == minus_one) [
      | true ↦ say "read from keyboard failed\n" >> pure 3
      | false ↦ do ends ← do_line buf cnt; elim ends [ true ↦ pure 0 | false ↦ shell_loop f buf ]
    ]

  unfoldable pub shell : (fuel buf : ℕ) → Run os ℕ
  unfolding shell_loop
  shell fuel buf = say "Starting 391 Shell\n" >> shell_loop fuel buf

  unfoldable pub hello : (buf : ℕ) → Run os ℕ
  hello buf = do
    say "Hi, what's your name? "
    cnt ← os.ece391_read 0 buf 1023
    if cnt == minus_one
        then (say "Can't read name from keyboard.\n" >> pure 3)
        else (poke os (buf + cnt) 0 >> say "Hello, " >> ece391_fdputs os 1 buf >> pure 0)

  unfoldable pub testprint : Run os ℕ
  testprint = say "Hello, if this ran, the program was correct. Yay!\n" >> pure 0

  -- the loop of `counter`, with `n` rounds left
  unfoldable pub count_loop : (n i buf : ℕ) → Run os ℕ
  count_loop zero i buf = pure 0
  count_loop (suc n) i buf =
      ece391_itoa os (i + 1) buf 10
      >> ece391_fdputs os 1 buf
      >> say "\n"
      >> count_loop n (i + 1) buf

  -- the `switch` on the choice; any other character leaves `max` at 0
  abbrev pub choice : ℕ → ℕ
  choice c = if c == 48 then 100 else if c == 49 then 10000 else if c == 50 then 100000 else 0

  unfoldable pub counter : (buf : ℕ) → Run os ℕ
  unfolding count_loop
  counter buf = do
    say "Enter the Test Number: (0): 100, (1): 10000, (2): 100000\n"
    cnt ← os.ece391_read 0 buf 1023
    if cnt == minus_one then (say "Can't read the number from keyboard.\n" >> pure 3) else do
      poke os (buf + cnt) 0
      len ← ece391_strlen os buf
      c ← peek os buf
      if ltb 1 len || (len == 1 && (ltb c 48 || ltb 50 c))
          then (say "Wrong Choice!\n" >> pure 0)
          else count_loop (choice c) 0 buf

  -- stores of one character, in the `n` cells from an address on
  abbrev pub fill : (n at c : ℕ) → Run os (Unit {0})
  fill zero at c = pure tt
  fill (suc n) at c = poke os at c >> fill n (at + 1) c

  -- STARTLOOP and LOOPMAX
  abbrev pub start_loop : ℕ
  start_loop = 2

  abbrev pub loop_max : ℕ
  loop_max = 78

  -- the walls of the world of `pingpong`
  unfoldable pub walls : (buf : ℕ) → Run os (Unit {0})
  walls buf =
      fill 81 buf 32
      >> poke os (buf + 80) 0
      >> poke os (buf + 79) 10
      >> poke os (buf + 78) 124
      >> poke os (buf + 1) 124

  -- one picture, with the character at place `j`, and the wait for the clock
  unfoldable pub picture : (rtc_fd garbage buf curchar j : ℕ) → Run os (Unit {0})
  picture rtc_fd garbage buf curchar j = do
    fill (loop_max - start_loop) (buf + start_loop) 32
    poke os (buf + j) curchar
    ece391_fdputs os 1 buf
    os.ece391_read rtc_fd garbage 4 >> pure tt

  -- the way out, with `n` pictures left, and the way back, from place `j - 1` down
  unfoldable pub move_out : (n : ℕ) → (rtc_fd garbage buf curchar j : ℕ) → Run os (Unit {0})
  unfolding picture
  move_out zero rtc_fd garbage buf curchar j = pure tt
  move_out (suc n) rtc_fd garbage buf curchar j =
      picture rtc_fd garbage buf curchar j >> move_out n rtc_fd garbage buf curchar (j + 1)

  unfoldable pub bounce_back : (n : ℕ) → (rtc_fd garbage buf curchar j : ℕ) → Run os (Unit {0})
  unfolding picture
  bounce_back zero rtc_fd garbage buf curchar j = pure tt
  bounce_back (suc n) rtc_fd garbage buf curchar j =
      picture rtc_fd garbage buf curchar (j - 1) >> bounce_back n rtc_fd garbage buf curchar (j - 1)

  abbrev pub next_character : ℕ → ℕ
  next_character c = if c == 90 then 65 else c + 1

  -- `n` rounds of the endless loop
  unfoldable pub pong_rounds : (n : ℕ) → (rtc_fd garbage buf curchar : ℕ) → Run os ℕ
  unfolding move_out bounce_back
  pong_rounds zero rtc_fd garbage buf curchar = pure curchar
  pong_rounds (suc n) rtc_fd garbage buf curchar =
      move_out (loop_max - start_loop) rtc_fd garbage buf curchar start_loop
      >> bounce_back (loop_max - start_loop) rtc_fd garbage buf curchar loop_max
      >> pong_rounds n rtc_fd garbage buf (next_character curchar)

  -- `n` rounds, with the descriptor's frequency at `ret_val`
  unfoldable pub pingpong : (n ret_val garbage buf : ℕ) → Run os ℕ
  unfolding walls pong_rounds
  pingpong n ret_val garbage buf = do
    walls buf
    rtc_fd ← os.ece391_open (text "rtc")
    fill 1 ret_val 32
    fill 3 (ret_val + 1) 0
    os.ece391_write rtc_fd ret_val 4 >> pong_rounds n rtc_fd garbage buf 65
