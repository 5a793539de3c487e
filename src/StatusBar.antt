-- ===== src/StatusBar.antt =====
-- The status bar of student-distrib/terminal.c (`status_bar`, `switch_status`, `embed_time` and
-- `get_system_time`), and the timer of student-distrib/pit.c that keeps its clock.
pub mod Time
pub mod Bar
pub mod Embed
pub mod Ticks
use fireball_os.Base.{
  ℕ, zero, suc, ◌+◌, ◌-◌, ◌*◌, ◌/◌, ◌%◌, ◌==◌, if◌then◌else◌, ltb, ◌&&◌, true, false, Bool, Option,
  none, some, ◌>>=◌, List, [], ◌∷◌, u32, add32, sub32, is_negative,
}
use fireball_os.Memory.{Mem, store}
use fireball_os.CString.{strlen}
use fireball_os.Pic.{Pics, enable_irq, send_eoi}
use fireball_os.Console.{num_cols}
use fireball_os.Video.{Video, set_colour}

-- The characters of `sys_time`, "mm:ss".
pub record SysTime : Type 0 where
  pub min_tens : ℕ
  pub min_ones : ℕ
  pub colon : ℕ
  pub sec_tens : ℕ
  pub sec_ones : ℕ

-- `sys_time[j]`
abbrev pub time_char : SysTime → ℕ → ℕ
time_char t j =
    if j == 0
    then t.min_tens
    else if j == 1
    then t.min_ones
    else if j == 2
    then t.colon
    else if j == 3
    then t.sec_tens
    else if j == 4
    then t.sec_ones
    else 0

-- `c > k` of a `char`
abbrev pub above : (c k : ℕ) → Bool
above c k = ltb k c && ltb c 128

abbrev pub next_char : ℕ → ℕ
next_char c = (c + 1) % 256

-- The parts of `get_system_time` under its flags, from the minutes' tens to the seconds' ones.
abbrev pub tick_min_tens : SysTime → SysTime
tick_min_tens t =
    let c = next_char t.min_tens in
    if above c 0x35
    then record t { min_tens = 0x30; min_ones = 0x30; sec_tens = 0x30; sec_ones = 0x30 }
    else record t { min_tens = c }

abbrev pub tick_min_ones : SysTime → SysTime
tick_min_ones t =
    let c = next_char t.min_ones in
    if above c 0x39 then tick_min_tens (record t { min_ones = 0x30 }) else record t { min_ones = c }

abbrev pub tick_sec_tens : SysTime → SysTime
tick_sec_tens t =
    let c = next_char t.sec_tens in
    if above c 0x35 then tick_min_ones (record t { sec_tens = 0x30 }) else record t { sec_tens = c }

unfoldable pub get_system_time : SysTime → SysTime
get_system_time t =
    let c = next_char t.sec_ones in
    if above c 0x39 then tick_sec_tens (record t { sec_ones = 0x30 }) else record t { sec_ones = c }

-- A loop of `embed_time` from `i` down to `strlen(status) - stop`. Unless it stops at once it runs
-- for fewer rounds than `stop`.
unfoldable pub embed_loop : ℕ → Mem → (status : ℕ) → (source : ℕ → ℕ) → (i j stop : ℕ) → Option Mem
embed_loop zero m status source i j stop = none
embed_loop (suc f) m status source i j stop = strlen m status >>= λ n. elim (ltb (sub32 n stop) i) [
  | true ↦ embed_loop f (store m (status + i) (source j)) status source (sub32 i 1) (sub32 j 1) stop
  | false ↦ some m
]

-- "Time Elapsed"
abbrev pub message : ℕ → ℕ
message j =
    if j == 0
    then 84
    else if j == 1
    then 105
    else if j == 2
    then 109
    else if j == 3
    then 101
    else if j == 4
    then 32
    else if j == 5
    then 69
    else if j == 6
    then 108
    else if j == 7
    then 97
    else if j == 8
    then 112
    else if j == 9
    then 115
    else if j == 10
    then 101
    else if j == 11
    then 100
    else 0

unfoldable pub embed_time : SysTime → Mem → (status : ℕ) → Option (SysTime × Mem)
embed_time t m status =
    let t' = get_system_time t in
    strlen m status >>= λ n. embed_loop 7 m status (time_char t') (sub32 n 2) 4 7 >>= λ m1.
    strlen m1 status >>= λ n1.
    embed_loop 20 m1 status message (sub32 n1 8) 11 20 >>= λ m2. some (t', m2)

-- the loop of `status_bar`, with `n` rounds left
unfoldable pub bar_loop : ℕ → Mem → (status : ℕ) → Mem → (i j : ℕ) → Mem
bar_loop zero m status bytes i j = bytes
bar_loop (suc n) m status bytes i j =
    bar_loop n m status (store (store bytes (2 * i + 1) 0x90) (2 * i) (m (status + j))) (i + 1)
      (j + 1)

-- the loops of `switch_status`
unfoldable pub highlight : ℕ → Mem → (i : ℕ) → Mem
highlight zero bytes i = bytes
highlight (suc n) bytes i = highlight n (store bytes (2 * i + 1) 0x4e) (i + 1)

-- the first cell of the last row
abbrev pub bar_start : ℕ
bar_start = 1920

unfoldable pub switch_status : (screen_num : ℕ) → Video → Video
switch_status screen_num v =
    if screen_num == 0
    then record v { bytes = highlight 11 v.bytes bar_start }
    else if screen_num == 1
    then record v { bytes = highlight 11 v.bytes (bar_start + 11) }
    else if screen_num == 2
    then record v { bytes = highlight 11 v.bytes (bar_start + 22) }
    else v

-- `mouse_coords` is at `x` and `y`.
unfoldable pub status_bar : Mem → (status screen_num x y : ℕ) → Video → Video
status_bar m status screen_num x y v =
    let v1 =
      switch_status screen_num
        (record v { bytes = bar_loop num_cols m status v.bytes bar_start 0 }) in
    if ltb x 80 && y == 24 then set_colour v1 x y 0x64 else v1

pub record Timer : Type 0 where
  pub pit_int_num : ℕ
  pub sys_time : SysTime
  pub mem : Mem
  pub video : Video

-- `n % 100 == 0` of an `int32_t`
abbrev pub is_hundredth : ℕ → Bool
is_hundredth n = (if is_negative n then u32 - n else n) % 100 == 0

-- The new state, and the writes that end the interrupt.
unfoldable pub pit_int_handler : (status screen_num x y : ℕ) → Timer → Option (Timer × List (ℕ × ℕ))
pit_int_handler status screen_num x y t =
    let n = add32 t.pit_int_num 1 in
    let t1 = record t { pit_int_num = n; video = status_bar t.mem status screen_num x y t.video } in
    if is_hundredth n
    then (embed_time t1.sys_time t1.mem status >>= λ (time, m').
        some (record t1 { sys_time = time; mem = m' }, send_eoi 0))
    else some (t1, send_eoi 0)

-- HIGHEST_FREQ / freq as a `uint16_t`; the divisor 0 is undefined.
abbrev pub pit_divisor : ℕ → Option ℕ
pit_divisor freq =
    if freq == 0
    then none
    else if is_negative freq
    then some ((u32 - 1193180 / (u32 - freq)) % 65536)
    else some (1193180 / freq % 65536)

-- The writes to a channel's data port, each a byte and a port.
abbrev pub pit_writes : (divisor port : ℕ) → List (ℕ × ℕ)
pit_writes divisor port = (0x36, 0x43) ∷ (divisor % 256, port) ∷ (divisor / 256 % 256, port) ∷ []

unfoldable pub init_pit : Pics → (channel freq : ℕ) → Option (Pics × List (ℕ × ℕ))
init_pit p channel freq = pit_divisor freq >>= λ divisor. some (
  enable_irq p 0,
  (if channel == 0
      then pit_writes divisor 0x40
      else if channel == 2
      then pit_writes divisor 0x42
      else []),
)
