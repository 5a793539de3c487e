-- ===== src/StatusBar/Ticks.antt =====
-- The clock that `pit_int_handler` of student-distrib/pit.c keeps, over a run of interrupts.
use fireball_os.Base.{
  ℕ, zero, suc, ◌+◌, ◌/◌, ◌%◌, ◌^◌, ◌≤◌, ◌<◌, ◌≡◌, refl, arith, ◌==◌, if◌then◌else◌, false,
  Bool-cases, inl, inr, some, ◌>>=◌, u32, add32, Option, is_negative,
}
use fireball_os.Pic.{send_eoi}
use fireball_os.CString.Length.{IsString}
use fireball_os.StatusBar.{Timer, pit_int_handler, get_system_time, status_bar}
use fireball_os.StatusBar.Time.{IsTime, seconds, get_system_time-seconds}
use fireball_os.StatusBar.Embed.{embed_time-written}

-- what the handler relies on and keeps: the clock is a time, and the text of the bar is long enough
pub record IsRunning (status n : ℕ) (t : Timer) : Type 0 where
  pub time : IsTime t.sys_time
  pub text : IsString t.mem status n
  pub long : 20 ≤ n
  pub small : n < u32

module _ (status n screen_num x y : ℕ) where
  tick :
      (t : Timer) (k : ℕ)
      → IsRunning status n t
      → t.pit_int_num ≡ k
      → k + 1 < 2 ^ 31
      → (t' : Timer) × (pit_int_handler status screen_num x y t ≡ some (t', send_eoi 0))
        × (t'.pit_int_num ≡ k + 1)
        × IsRunning status n t'
        × (seconds t'.sys_time
            ≡ (if (k + 1) % 100 == 0 then (seconds t.sys_time + 1) % 3600 else seconds t.sys_time))
  unfolding pit_int_handler
  tick t k r e lt =
      let next : add32 t.pit_int_num 1 ≡ k + 1 = omega arith in
      let sign : is_negative (k + 1) ≡ false = ground arith in
      let bar = status_bar t.mem status screen_num x y t.video in
      elim (Bool-cases ((k + 1) % 100 == 0)) [
        | inl full ↦
            let (m', run, at, text) =
              embed_time-written t.sys_time t.mem status n r.time r.text r.long r.small in
            let (valid, sec) = get_system_time-seconds t.sys_time r.time in
            (
              record t {
                pit_int_num = k + 1;
                video = bar;
                sys_time = get_system_time t.sys_time;
                mem = m';
              },
              rw (next, sign, full, run),
              refl,
              record { time = valid; text = text; long = r.long; small = r.small },
              rw full sec,
            )
        | inr part ↦ (
          record t { pit_int_num = k + 1; video = bar },
          rw (next, sign, part),
          refl,
          record { time = r.time; text = r.text; long = r.long; small = r.small },
          rw part,
        )
      ]

  -- `k` interrupts of the timer in a row
  pub run : ℕ → Timer → Option Timer
  run zero t = some t
  run (suc k) t =
      run k t >>= λ t1. pit_int_handler status screen_num x y t1 >>= λ (t2, writes). some t2

  -- From a valid time and a count of 0 on, `k` interrupts of the timer, fewer than 2 ^ 31, come to
  -- an end, and the clock of the status bar has gone on by a second for each hundred of them, modulo
  -- the hour.
  pub run-seconds :
      (k : ℕ) (t : Timer)
      → k < 2 ^ 31
      → IsRunning status n t
      → t.pit_int_num ≡ 0
      → (t' : Timer) × (run k t ≡ some t')
        × (t'.pit_int_num ≡ k)
        × IsRunning status n t'
        × (seconds t'.sys_time ≡ (seconds t.sys_time + k / 100) % 3600)
  unfolding run
  run-seconds zero t lt r e = (
    t,
    refl,
    e,
    r,
    omega (arith, r.time.min_tens, r.time.min_ones, r.time.sec_tens, r.time.sec_ones),
  )
  run-seconds (suc k) t lt r e =
      let (t1, run1, count, r1, sec1) = run-seconds k t (omega arith) r e in
      let (t2, step, count2, r2, sec2) = tick t1 k r1 count (omega arith) in
      (t2, rw (run1, step), omega arith, r2, ground (arith, sec1, sec2))
