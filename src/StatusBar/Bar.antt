-- ===== src/StatusBar/Bar.antt =====
-- What `status_bar` of student-distrib/terminal.c draws.
use fireball_os.Base.{
  ℕ, zero, suc, ◌+◌, ◌-◌, ◌*◌, ◌<◌, ◌≡◌, ◌≢◌, refl, ◌∙◌, arith, ◌==◌, if◌then◌else◌, ltb, ◌&&◌,
  false,
}
use native.Mathlib.Decide.{ℕ_discrete}
use fireball_os.Memory.{Mem, store}
use fireball_os.Memory.Copy.{within}
use fireball_os.Video.{Video}
use fireball_os.Video.Draw.{char_at, colour_at}
use fireball_os.StatusBar.{bar_loop, highlight, switch_status, status_bar}

bar_loop-at :
    (n : ℕ) (m : Mem) (s : ℕ) (bytes : Mem) (i j c : ℕ)
    → (bar_loop n m s bytes i j (2 * c)
        ≡ (if within i n c then m (s + (j + (c - i))) else bytes (2 * c)))
      × (bar_loop n m s bytes i j (2 * c + 1) ≡ (if within i n c then 0x90 else bytes (2 * c + 1)))
unfolding bar_loop store
bar_loop-at zero m s bytes i j c = (ground arith, ground arith)
bar_loop-at (suc n) m s bytes i j c = elim (ℕ_discrete c i) [
  | yes here ↦
      let b1 = store (store bytes (2 * i + 1) 0x90) (2 * i) (m (s + j)) in
      rw here (
        ground (arith, bar_loop-at n m s b1 (i + 1) (j + 1) i),
        ground (arith, bar_loop-at n m s b1 (i + 1) (j + 1) i),
      )
  | no other ↦
      let b1 = store (store bytes (2 * i + 1) 0x90) (2 * i) (m (s + j)) in
      (
        ground (arith, other, bar_loop-at n m s b1 (i + 1) (j + 1) c),
        ground (arith, other, bar_loop-at n m s b1 (i + 1) (j + 1) c),
      )
]

highlight-at :
    (n : ℕ) (bytes : Mem) (i c : ℕ)
    → (highlight n bytes i (2 * c) ≡ bytes (2 * c))
      × (highlight n bytes i (2 * c + 1) ≡ (if within i n c then 0x4e else bytes (2 * c + 1)))
unfolding highlight store
highlight-at zero bytes i c = (refl, ground arith)
highlight-at (suc n) bytes i c =
    let b1 = store bytes (2 * i + 1) 0x4e in
    (
      (highlight-at n b1 (i + 1) c).0 ∙ ground arith,
      ground (arith, (highlight-at n b1 (i + 1) c).1),
    )

-- the bar with the entry of the terminal in its colour
abbrev pub bar_colour : (screen_num c : ℕ) → ℕ
bar_colour screen_num c = if within (1920 + 11 * screen_num) 11 c then 0x4e else 0x90

switch_status-at :
    (screen_num c : ℕ) (v : Video)
    → screen_num < 3
    → (char_at (switch_status screen_num v) c ≡ char_at v c)
      × (colour_at (switch_status screen_num v) c
          ≡ (if within (1920 + 11 * screen_num) 11 c then 0x4e else colour_at v c))
unfolding switch_status
switch_status-at screen_num c v lt = (
  ground (
    arith,
    highlight-at 11 v.bytes 1920 c,
    highlight-at 11 v.bytes 1931 c,
    highlight-at 11 v.bytes 1942 c,
  ),
  ground (
    arith,
    highlight-at 11 v.bytes 1920 c,
    highlight-at 11 v.bytes 1931 c,
    highlight-at 11 v.bytes 1942 c,
  ),
)

-- With one of the three terminals shown and the mouse above the bar, `status_bar` writes the 80
-- characters of its text to the last row, in the colour of the bar but for the eleven cells of the
-- terminal that is shown, and changes no other cell.
status_bar-at :
    (m : Mem) (status screen_num x y : ℕ) (v : Video) (c : ℕ)
    → screen_num < 3
    → y ≢ 24
    → let v' = status_bar m status screen_num x y v in
      (char_at v' c ≡ (if within 1920 80 c then m (status + (c - 1920)) else char_at v c))
      × (colour_at v' c ≡ (if within 1920 80 c then bar_colour screen_num c else colour_at v c))
unfolding status_bar
status_bar-at m status screen_num x y v c lt above =
    let off : (ltb x 80 && y == 24) ≡ false = ground arith in
    let v1 = record v { bytes = bar_loop 80 m status v.bytes 1920 0 } in
    let (char, colour) = switch_status-at screen_num c v1 lt in
    let (char1, colour1) = bar_loop-at 80 m status v.bytes 1920 0 c in
    rw off (char ∙ ground (arith, char1), ground (arith, colour, colour1))
