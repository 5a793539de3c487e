-- ===== src/StatusBar/Time.antt =====
-- `get_system_time` of student-distrib/terminal.c against a counter of seconds.
use fireball_os.Base.{ℕ, ◌+◌, ◌-◌, ◌*◌, ◌%◌, ◌≤◌, ◌<◌, ◌≡◌, arith}
use fireball_os.StatusBar.{SysTime, get_system_time}

-- the five characters are a time
pub record IsTime (t : SysTime) : Type 0 where
  pub min_tens : (48 ≤ t.min_tens) × (t.min_tens < 54)
  pub min_ones : (48 ≤ t.min_ones) × (t.min_ones < 58)
  pub colon : t.colon ≡ 58
  pub sec_tens : (48 ≤ t.sec_tens) × (t.sec_tens < 54)
  pub sec_ones : (48 ≤ t.sec_ones) × (t.sec_ones < 58)

-- the seconds of a time
abbrev pub seconds : SysTime → ℕ
seconds t =
    600 * (t.min_tens - 48) + 60 * (t.min_ones - 48) + 10 * (t.sec_tens - 48) + (t.sec_ones - 48)

-- `get_system_time` keeps the characters a time and counts its seconds modulo the hour.
pub get_system_time-seconds :
    (t : SysTime)
    → IsTime t
    → IsTime (get_system_time t) × (seconds (get_system_time t) ≡ (seconds t + 1) % 3600)
unfolding get_system_time
get_system_time-seconds t valid = (ground arith, ground arith)
