-- ===== src/Mouse/Clicks.antt =====
-- The left button of the mouse on the buttons of the status bar.
use fireball_os.Base.{◌≤◌, ◌<◌, ◌≡◌, arith, ◌==◌, leb, ◌&&◌, not, true, none, some, is_negative}
use fireball_os.Terminal.{Terminals, terminal_switch, saved, restored}
use fireball_os.Terminal.Switching.{terminal_switch-HasSwitched}
use fireball_os.Video.Draw.{SameCursor}
use fireball_os.Mouse.{Mouse, left_click}

-- A left click on the third button of the status bar, columns 21 to 31 of the last row, makes
-- `terminal_switch` store to the fourth of three entries.
pub left_click-none :
    (m : Mouse) (t : Terminals) → 20 < m.x → m.x ≤ 31 → m.y ≡ 24 → left_click m t ≡ none
unfolding left_click terminal_switch
left_click-none m t low high bar = ground arith

-- A left click on the first button, columns 0 to 10, that succeeds shows terminal 0, whichever was
-- shown, and stores the cursor in the place of terminal 1.
pub left_click-first :
    (m : Mouse) (t t' : Terminals)
    → m.x ≤ 10
    → m.y ≡ 24
    → left_click m t ≡ some t'
    → (t'.screen_num ≡ 0)
      × (t'.components 1 ≡ saved t.display)
      × SameCursor (restored t.display (t.components 0)) t'.display
unfolding left_click
left_click-first m t t' high bar h =
    let hit : (not (is_negative m.x) && leb m.x 10 && m.y == 24) ≡ true = ground arith in
    let s = terminal_switch-HasSwitched (record t { screen_num = 1 }) 0 1 t' (rw hit at h) in
    (s.current, rw s.components, s.cursor)
