-- ===== src/Video/Draw.antt =====
-- What `printb` of student-distrib/buffer.c shows of a text buffer.
use fireball_os.Base.{
  ℕ, zero, suc, ◌+◌, ◌*◌, ◌/◌, ◌%◌, ◌≤◌, ◌<◌, ◌≡◌, refl, ◌∙◌, arith, ◌==◌, if◌then◌else◌, true,
  false, ltb, ◌&&◌, Bool,
}
use native.Mathlib.Decide.{ℕ_discrete}
use fireball_os.Memory.{Mem, store}
use fireball_os.Memory.Copy.{within}
use fireball_os.Console.{Display, Buffer}
use fireball_os.Video.{
  Video, set_cell, colour_palette, fill_cells, putc, print_helper, printb_loop, printb, clear,
}

-- Each of the 1920 nodes has the coordinates of its place, as `reset_buf` leaves them.
abbrev pub Placed : Buffer → Type 0
Placed b = (i : ℕ) → i < 1920 → ((b i).x_coord ≡ i % 80) × ((b i).y_coord ≡ i / 80)

-- a character that is drawn: `putc` draws no line breaks
abbrev pub is_drawn : ℕ → Bool
is_drawn c =
    if c == 10
    then false
    else if c % 256 == 10
    then false
    else if c % 256 == 13
    then false
    else true

-- Cell `i` of the screen: its character, and its attribute behind it.
abbrev pub char_at : Video → ℕ → ℕ
char_at v i = v.bytes (2 * i)

abbrev pub colour_at : Video → ℕ → ℕ
colour_at v i = v.bytes (2 * i + 1)

-- The screen after the nodes from `i` on, `n` of them, have been drawn.
abbrev Drawn : Buffer → (n i : ℕ) → Video → Video → Type 0
Drawn b n i v v' =
    (v'.color_pick ≡ v.color_pick)
    × ((j : ℕ)
        → let shown = within i n j && is_drawn (b j).mo in
          (char_at v' j ≡ (if shown then (b j).mo % 256 else char_at v j))
          × (colour_at v' j ≡ (if shown then colour_palette v.color_pick else colour_at v j)))

-- one node, at its own cell
print_helper-at :
    (c i : ℕ) (d : Display) (v : Video)
    → let (d', v') = print_helper c (i % 80) (i / 80) d v in
      (v'.color_pick ≡ v.color_pick)
      × ((j : ℕ)
          → let shown = j == i && is_drawn c in
            (char_at v' j ≡ (if shown then c % 256 else char_at v j))
            × (colour_at v' j ≡ (if shown then colour_palette v.color_pick else colour_at v j)))
unfolding print_helper putc store
print_helper-at c i d v =
    let place : 80 * (i / 80) + i % 80 ≡ i = omega arith in
    rw place (ground arith, λ j. (ground arith, ground arith))

print_node :
    (b : Buffer) (i : ℕ) (d : Display) (v : Video)
    → ((b i).x_coord ≡ i % 80) × ((b i).y_coord ≡ i / 80)
    → let (d', v') = print_helper (b i).mo (b i).x_coord (b i).y_coord d v in
      (v'.color_pick ≡ v.color_pick)
      × ((j : ℕ)
          → let shown = j == i && is_drawn (b i).mo in
            (char_at v' j ≡ (if shown then (b i).mo % 256 else char_at v j))
            × (colour_at v' j ≡ (if shown then colour_palette v.color_pick else colour_at v j)))
print_node b i d v (x, y) = rw (x, y) (print_helper-at (b i).mo i d v)

within_zero : (n j : ℕ) → within 0 n j ≡ ltb j n
within_zero n j = ground arith

printb_loop-Drawn :
    (n : ℕ) (b : Buffer) (i : ℕ) (d : Display) (v : Video)
    → Placed b
    → i + n ≤ 1920
    → Drawn b n i v (printb_loop n b i d v).1
unfolding printb_loop
printb_loop-Drawn zero b i d v placed le = (refl, λ j. (ground arith, ground arith))
printb_loop-Drawn (suc n) b i d v placed le =
    let (d1, v1) = print_helper (b i).mo (b i).x_coord (b i).y_coord d v in
    let (colour, first) = print_node b i d v (placed i (omega arith)) in
    let (colour', rest) = printb_loop-Drawn n b (i + 1) d1 v1 placed (omega arith) in
    (
      colour' ∙ colour,
      λ j. (
        elim (ℕ_discrete j i) [
          | yes here ↦ rw here (ground (arith, rest i, first i, colour))
          | no other ↦ ground (arith, rest j, first j, colour)
        ],
        elim (ℕ_discrete j i) [
          | yes here ↦ rw here (ground (arith, rest i, first i, colour))
          | no other ↦ ground (arith, rest j, first j, colour)
        ],
      ),
    )

-- For a buffer whose nodes have the coordinates of their places, `printb` makes the screen show it:
-- each of the 1920 cells has the character of its node in the current colour, but a cell whose node
-- holds a line break stays as it was; and the cells behind them, which are the status bar, stay too.
pub printb-shows :
    (b : Buffer) (d : Display) (v : Video) (j : ℕ)
    → Placed b
    → let (d', v') = printb b d v in
      let shown = ltb j 1920 && is_drawn (b j).mo in
      (char_at v' j ≡ (if shown then (b j).mo % 256 else char_at v j))
      × (colour_at v' j ≡ (if shown then colour_palette v.color_pick else colour_at v j))
unfolding printb
printb-shows b d v j placed =
    let (colour, all) = printb_loop-Drawn 1920 b 0 d v placed (omega arith) in
    rw (← within_zero 1920 j) (all j)

fill_cells-at :
    (n : ℕ) (m : Mem) (i colour j : ℕ)
    → (fill_cells n m i colour (2 * j) ≡ (if within i n j then 32 else m (2 * j)))
      × (fill_cells n m i colour (2 * j + 1) ≡ (if within i n j then colour else m (2 * j + 1)))
unfolding fill_cells store
fill_cells-at zero m i colour j = (ground arith, ground arith)
fill_cells-at (suc n) m i colour j = (
  ground (arith, fill_cells-at n (set_cell m i 32 colour) (i + 1) colour j),
  ground (arith, fill_cells-at n (set_cell m i 32 colour) (i + 1) colour j),
)

-- `clear` makes each of the 2000 cells, the status bar's among them, a blank in the plain colour,
-- and nothing else.
pub clear-at :
    (v : Video) (j : ℕ)
    → (char_at (clear v) j ≡ (if ltb j 2000 then 32 else char_at v j))
      × (colour_at (clear v) j ≡ (if ltb j 2000 then 7 else colour_at v j))
unfolding clear
clear-at v j = rw (← within_zero 2000 j) (fill_cells-at 2000 v.bytes 0 7 j)

-- what a user sees of the cursor
abbrev pub SameCursor : Display → Display → Type 0
SameCursor d d' =
    (d'.line_count ≡ d.line_count)
    × (d'.limit ≡ d.limit)
    × (d'.buf_x ≡ d.buf_x)
    × (d'.buf_y ≡ d.buf_y)

print_helper-SameCursor :
    (c x y : ℕ) (d : Display) (v : Video) → SameCursor d (print_helper c x y d v).0
unfolding print_helper putc
print_helper-SameCursor c x y d v = ground arith

pub printb_loop-SameCursor :
    (n : ℕ) (b : Buffer) (i : ℕ) (d : Display) (v : Video) → SameCursor d (printb_loop n b i d v).0
unfolding printb_loop
printb_loop-SameCursor zero b i d v = (refl, refl, refl, refl)
printb_loop-SameCursor (suc n) b i d v =
    let (d1, v1) = print_helper (b i).mo (b i).x_coord (b i).y_coord d v in
    let first = print_helper-SameCursor (b i).mo (b i).x_coord (b i).y_coord d v in
    let rest = printb_loop-SameCursor n b (i + 1) d1 v1 in
    (rest.0 ∙ first.0, rest.1 ∙ first.1, rest.2 ∙ first.2, rest.3 ∙ first.3)

-- `printb` moves the cursor of the screen only.
pub printb-SameCursor : (b : Buffer) (d : Display) (v : Video) → SameCursor d (printb b d v).0
unfolding printb
printb-SameCursor b d v = printb_loop-SameCursor 1920 b 0 d v
