-- ===== src/StatusBar/Embed.antt =====
-- What `embed_time` of student-distrib/terminal.c writes into the text of the status bar.
use fireball_os.Base.{
  ℕ, zero, suc, ◌+◌, ◌-◌, ◌≤◌, ◌<◌, ◌≡◌, ◌≢◌, ◌∙◌, arith, if◌then◌else◌, ltb, true, false, some,
  ◌>>=◌, u32, sub32,
}
use native.Mathlib.Decide.{ℕ_discrete}
use fireball_os.Memory.{Mem, store}
use fireball_os.Memory.Copy.{within}
use fireball_os.CString.Length.{IsString, strlen-some}
use fireball_os.StatusBar.{SysTime, get_system_time, time_char, message, embed_loop, embed_time}
use fireball_os.StatusBar.Time.{IsTime, get_system_time-seconds}

-- Overwriting a character by another keeps the string's length.
IsString-store :
    (m : Mem) (s n i c : ℕ) → IsString m s n → i < n → c ≢ 0 → IsString (store m (s + i) c) s n
unfolding store
IsString-store m s n i c h lt nz = record {
  nonzero = λ j jn. ground (arith, h.nonzero j);
  terminated = ground (arith, h.terminated);
}

-- Memory with the `k` characters of `source` in the places from `d` on.
abbrev pub written : Mem → (d : ℕ) → (source : ℕ → ℕ) → (k : ℕ) → Mem
written m d source k a = if within d k a then source (a - d) else m a

-- a round that stores a character
embed_round :
    (k f : ℕ) (m : Mem) (s n lo stop : ℕ) (source : ℕ → ℕ)
    → IsString m s n
    → n < u32
    → lo + stop ≡ n
    → lo + suc k < n
    → embed_loop (suc f) m s source (lo + suc k) (sub32 (suc k) 1) stop
      ≡ embed_loop f (store m (s + (lo + suc k)) (source k)) s source (lo + k) (sub32 k 1) stop
unfolding embed_loop
embed_round k f m s n lo stop source h small e room =
    let goes : ltb (sub32 n stop) (lo + suc k) ≡ true = ground arith in
    let i : sub32 (lo + suc k) 1 ≡ lo + k = omega arith in
    let j : sub32 (suc k) 1 ≡ k = omega arith in rw (strlen-some m s n h small, ◌>>=◌, goes, i, j)

embed_loop-written :
    (k f : ℕ) (m : Mem) (s n lo stop : ℕ) (source : ℕ → ℕ)
    → k < f
    → IsString m s n
    → n < u32
    → lo + stop ≡ n
    → lo + k < n
    → ((r : ℕ) → r < k → source r ≢ 0)
    → (m' : Mem) × (embed_loop f m s source (lo + k) (sub32 k 1) stop ≡ some m')
      × ((a : ℕ) → m' a ≡ written m (s + lo + 1) source k a)
      × IsString m' s n
unfolding embed_loop
embed_loop-written k zero m s n lo stop source fuel h small e room nz = absurd (omega arith)
embed_loop-written zero (suc f) m s n lo stop source fuel h small e room nz =
    let stops : ltb (sub32 n stop) (lo + 0) ≡ false = ground arith in
    (m, rw (strlen-some m s n h small, ◌>>=◌, stops), λ a. ground arith, h)
embed_loop-written (suc k) (suc f) m s n lo stop source fuel h small e room nz =
    let m1 = store m (s + (lo + suc k)) (source k) in
    let (m2, run, at, h2) =
      embed_loop-written k f m1 s n lo stop source (omega arith)
        (IsString-store m s n (lo + suc k) (source k) h (omega arith) (nz k (omega arith))) small e
        (omega arith) (λ r lt. nz r (omega arith)) in
    (
      m2,
      embed_round k f m s n lo stop source h small e room ∙ run,
      λ a. at a ∙ written_step m (s + lo + 1) (s + (lo + suc k)) source k a (omega arith),
      h2,
    )
  where
    written_step :
        (m : Mem) (d p : ℕ) (source : ℕ → ℕ) (k a : ℕ)
        → p ≡ d + k
        → written (store m p (source k)) d source k a ≡ written m d source (suc k) a
    written_step m d p source k a e = elim (ℕ_discrete a p) [
      | yes here ↦ unfold store in rw (here, e) (ground arith)
      | no other ↦ unfold store in ground (arith, other)
    ]

time_char-ne-zero : (t : SysTime) (r : ℕ) → IsTime t → r < 5 → time_char t r ≢ 0
time_char-ne-zero t r v lt = ground (arith, v.min_tens, v.min_ones, v.colon, v.sec_tens, v.sec_ones)

message-ne-zero : (r : ℕ) → r < 12 → message r ≢ 0
message-ne-zero r lt = ground arith

-- For a text of 20 characters or more and a valid time, `embed_time` comes to an end: it leaves the
-- time a second later, with its five characters before the last character of the text and the
-- message of twelve characters before them and a space, changes nothing else, and the text stays as
-- long as it was.
pub embed_time-written :
    (t : SysTime) (m : Mem) (s n : ℕ)
    → IsTime t
    → IsString m s n
    → 20 ≤ n
    → n < u32
    → let t' = get_system_time t in
      (m' : Mem) × (embed_time t m s ≡ some (t', m'))
      × ((a : ℕ)
          → m' a
            ≡ written
                (written m (s + (n - 7) + 1) (time_char t') 5)
                (s + (n - 20) + 1)
                message
                12
                a)
      × IsString m' s n
unfolding embed_time
embed_time-written t m s n valid h long small =
    let t' = get_system_time t in
    let (m1, run, at, h1) =
      embed_loop-written 5 7 m s n (n - 7) 7 (time_char t') (omega arith) h small (omega arith)
        (omega arith) (λ r lt. time_char-ne-zero t' r (get_system_time-seconds t valid).0 lt) in
    let (m2, run2, at2, h2) =
      embed_loop-written 12 20 m1 s n (n - 20) 20 message (omega arith) h1 small (omega arith)
        (omega arith) message-ne-zero in
    let i : sub32 n 2 ≡ n - 7 + 5 = omega arith in
    let i2 : sub32 n 8 ≡ n - 20 + 12 = omega arith in
    (
      m2,
      rw (strlen-some m s n h small, i, run, strlen-some m1 s n h1 small, i2, run2),
      λ a. ground (arith, at a, at2 a),
      h2,
    )
