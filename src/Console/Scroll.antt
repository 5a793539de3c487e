-- ===== src/Console/Scroll.antt =====
-- Resetting and scrolling the whole buffer.
use fireball_os.Base.{
  ℕ, zero, suc, ◌+◌, ◌-◌, ◌*◌, ◌/◌, ◌%◌, ◌<◌, ◌≡◌, refl, ◌∙◌, arith, ◌==◌, if◌then◌else◌, ltb,
  false,
}
use native.Mathlib.Decide.{ℕ_discrete, dec_lt}
use fireball_os.Memory.Copy.{within}
use fireball_os.Console.{
  Buffer, Display, space, newline, num_cols, set_mo, set_node, reset_loop, reset_buf, scroll_loop,
  blank_loop, scroll_buf,
}

reset_loop-at :
    (n : ℕ) (b : Buffer) (i x y j : ℕ)
    → x < 80
    → 80 * y + x ≡ i
    → reset_loop n b i x y j ≡ (
        if within i n j
        then record { x_coord = j % 80; y_coord = j / 80; mo = space; printed = 0 }
        else b j)
unfolding reset_loop
reset_loop-at zero b i x y j lt e = ground arith
reset_loop-at (suc n) b i x y j lt e = ground (
  arith,
  reset_loop-at n (set_node b i (record { x_coord = x; y_coord = y; mo = space; printed = 0 }))
      (i + 1) (if x == num_cols - 1 then 0 else x + 1) (if x == num_cols - 1 then y + 1 else y) j,
)

-- `reset_buf` makes each of the 2000 cells blank and gives it its column and row, and puts the
-- cursor at the first cell.
pub reset_buf-at :
    (d : Display) (b : Buffer) (j : ℕ)
    → let (d', b') = reset_buf d b in
      (d'.buf_x ≡ 0)
      × (d'.buf_y ≡ 0)
      × (b' j ≡ (
          if ltb j 2000
          then record { x_coord = j % 80; y_coord = j / 80; mo = space; printed = 0 }
          else b j))
unfolding reset_buf
reset_buf-at d b j =
    (refl, refl, reset_loop-at 2000 b 0 0 0 j (omega arith) (omega arith) ∙ ground arith)

pub blank_loop-at :
    (n : ℕ) (b : Buffer) (i j : ℕ)
    → blank_loop n b i j ≡ (if within i n j then record (b j) { mo = space } else b j)
unfolding blank_loop
blank_loop-at zero b i j = ground arith
blank_loop-at (suc n) b i j = ground (arith, blank_loop-at n (set_mo b i space) (i + 1) j)

-- the character that comes up from the row below
abbrev pub raised : ℕ → ℕ
raised c = if c == newline then space else c

-- one round of the loop, and the rounds behind it
raised_step :
    (n : ℕ) (b : Buffer) (k j : ℕ) (v : ℕ)
    → v ≡ raised (b (k + 80)).mo
    → (if within (k + 1) n j
        then record (set_mo b k v j) { mo = raised (set_mo b k v (j + 80)).mo }
        else set_mo b k v j)
      ≡ (if within k (suc n) j then record (b j) { mo = raised (b (j + 80)).mo } else b j)
raised_step n b k j v e = elim (ℕ_discrete j k) [
  | yes same ↦ rw same (ground (arith, e))
  | no other ↦
      let here : (j == k) ≡ false = ground (arith, other) in
      elim (dec_lt j k) [
        | yes before ↦ ground (arith, here)
        | no after ↦
            let above : (j + 80 == k) ≡ false = ground arith in rw (here, above) (ground arith)
      ]
]

scroll_loop-at :
    (n : ℕ) (b : Buffer) (k j : ℕ)
    → scroll_loop n b (k + 80) j
      ≡ (if within k n j then record (b j) { mo = raised (b (j + 80)).mo } else b j)
unfolding scroll_loop
scroll_loop-at zero b k j = ground arith
scroll_loop-at (suc n) b k j =
    let back : k + 80 - num_cols ≡ k = omega arith in
    let next : k + 80 + 1 ≡ k + 1 + 80 = omega arith in
    rw (back, next)
      (scroll_loop-at n (set_mo b k (raised (b (k + 80)).mo)) (k + 1) j
        ∙ raised_step n b k j (raised (b (k + 80)).mo) refl)

-- `scroll_buf` moves each row up by one, with blanks for the newlines, blanks the last of the 24
-- rows, leaves the status row and all coordinates alone, and puts the cursor at the start of the
-- last row.
pub scroll_buf-at :
    (d : Display) (b : Buffer) (j : ℕ)
    → let (d', b') = scroll_buf d b in
      (d'.buf_x ≡ 0)
      × (d'.buf_y ≡ 23)
      × (b' j ≡ (
          if ltb j 1840
          then record (b j) { mo = raised (b (j + 80)).mo }
          else if ltb j 1920
          then record (b j) { mo = space }
          else b j))
unfolding scroll_buf
scroll_buf-at d b j = (
  refl,
  refl,
  blank_loop-at 80 (scroll_loop 1840 b 80) 1840 j
      ∙ rw (scroll_loop-at 1840 b 0 j)
          (elim (dec_lt j 1840) [ yes low ↦ ground arith | no high ↦ ground arith ]),
)
