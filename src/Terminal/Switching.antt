-- ===== src/Terminal/Switching.antt =====
-- `terminal_switch` of student-distrib/terminal.c: the cursors that it keeps, and the screen.
use fireball_os.Base.{
  ℕ, ◌%◌, ◌<◌, ◌≡◌, ◌≢◌, refl, ap, ◌∙◌, arith, ◌==◌, if◌then◌else◌, ltb, ◌&&◌, true, false, Option,
  none, some, ◌>>=◌, Bool-cases, inl, inr, subst,
}
use fireball_os.Video.{printb, clear}
use fireball_os.Video.Draw.{
  SameCursor, Placed, is_drawn, char_at, printb-shows, printb-SameCursor, clear-at,
}
use fireball_os.Terminal.{Terminals, set_entry, terminal_switch, show_buffer, saved, restored}

-- What a switch that succeeds leaves.
pub record HasSwitched (t : Terminals) (new old : ℕ) (t' : Terminals) : Type 0 where
  pub old_known : old < 3
  pub new_known : new < 3
  pub shown :
      (b : ℕ) × (t.screens new ≡ some b)
      × (t'.video
          ≡ (printb
              (t.buffs b)
              (restored t.display (set_entry t.components old (saved t.display) new))
              (clear t.video)).1)
  pub components : t'.components ≡ set_entry t.components old (saved t.display)
  pub cursor :
      SameCursor (restored t.display (set_entry t.components old (saved t.display) new)) t'.display
  pub buffs : t'.buffs ≡ t.buffs
  pub screens : t'.screens ≡ t.screens
  pub current : t'.screen_num ≡ new

some_inj {ℓ} : {A : Type ℓ} {a b : A} → some a ≡ some b → a ≡ b
some_inj e = cc

-- the state that a switch leaves, when the new screen is buffer `b`
abbrev pub switched : Terminals → (new old b : ℕ) → Terminals
switched t new old b =
    record (show_buffer
      (record t {
        components = set_entry t.components old (saved t.display);
        display = restored t.display (set_entry t.components old (saved t.display) new);
        video = clear t.video;
      })
      b) { screen_num = new }

switched-HasSwitched :
    (t : Terminals) (new old b : ℕ)
    → old < 3
    → new < 3
    → t.screens new ≡ some b
    → HasSwitched t new old (switched t new old b)
switched-HasSwitched t new old b lo ln e = record {
  old_known = lo;
  new_known = ln;
  shown = (b, e, refl);
  components = refl;
  cursor =
      printb-SameCursor (t.buffs b)
        (restored t.display (set_entry t.components old (saved t.display) new)) (clear t.video);
  buffs = refl;
  screens = refl;
  current = refl;
}

-- the switch, once the pointer has been read
switch_tail :
    (t : Terminals) (new old : ℕ) (o : Option ℕ) (t' : Terminals)
    → old < 3
    → new < 3
    → t.screens new ≡ o
    → (o >>= λ b. some (switched t new old b)) ≡ some t'
    → HasSwitched t new old t'
switch_tail t new old none t' lo ln e h = cc
switch_tail t new old (some b) t' lo ln e h =
    subst (HasSwitched t new old) (some_inj h) (switched-HasSwitched t new old b lo ln e)

pub terminal_switch-HasSwitched :
    (t : Terminals) (new old : ℕ) (t' : Terminals)
    → terminal_switch t new old ≡ some t'
    → HasSwitched t new old t'
unfolding terminal_switch
terminal_switch-HasSwitched t new old t' h = elim (Bool-cases (ltb old 3 && ltb new 3)) [
  | inr e ↦ cc (rw e at h)
  | inl e ↦ switch_tail t new old (t.screens new) t' (ground arith) (ground arith) refl (rw e at h)
]

-- When a switch from terminal `a` to terminal `b` has succeeded, and, whatever has been done in `b`,
-- the cursor saved for `a` is still the one saved then, the switch back brings the cursor and the
-- counters of `a` back to where they were, with the buffers as they are by then.
pub terminal_switch-terminal_switch :
    (t t1 t2 t3 : Terminals) (a b : ℕ)
    → a ≢ b
    → terminal_switch t b a ≡ some t1
    → t2.components a ≡ t1.components a
    → terminal_switch t2 a b ≡ some t3
    → SameCursor t.display t3.display × (t3.screen_num ≡ a) × (t3.buffs ≡ t2.buffs)
terminal_switch-terminal_switch t t1 t2 t3 a b ne first kept second =
    let s1 = terminal_switch-HasSwitched t b a t1 first in
    let s3 = terminal_switch-HasSwitched t2 a b t3 second in
    let other : (a == b) ≡ false = ground (arith, ne) in
    let same : (a == a) ≡ true = ground arith in
    let back : set_entry t2.components b (saved t2.display) a ≡ saved t.display =
      rw other (kept ∙ ap (λ f. f a) s1.components ∙ rw same) in
    (rw back at s3.cursor, s3.current, s3.buffs)

-- A switch that succeeds shows the buffer of the new terminal, if its nodes have the coordinates of
-- their places, and nothing of what the screen showed before: a cell is the character of its node,
-- or a blank where the node holds a line break, and the cells of the status bar are blank.
pub terminal_switch-shows :
    (t t' : Terminals) (new old j : ℕ)
    → terminal_switch t new old ≡ some t'
    → ((b : ℕ) → t.screens new ≡ some b → Placed (t.buffs b))
    → j < 2000
    → (b : ℕ) × (t.screens new ≡ some b)
      × (char_at t'.video j
          ≡ (if ltb j 1920 && is_drawn (t.buffs b j).mo then (t.buffs b j).mo % 256 else 32))
terminal_switch-shows t t' new old j h placed lt =
    let s = terminal_switch-HasSwitched t new old t' h in
    let (b, e, drawn) = s.shown in
    let d = restored t.display (set_entry t.components old (saved t.display) new) in
    let blank : char_at (clear t.video) j ≡ 32 =
      let inside : ltb j 2000 ≡ true = ground arith in rw inside at (clear-at t.video j).0 in
    (b, e, rw (drawn, ← blank) (printb-shows (t.buffs b) d (clear t.video) j (placed b e)).0)
