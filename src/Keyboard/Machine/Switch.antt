-- ===== src/Keyboard/Machine/Switch.antt =====
-- Alt and a function key: `kbd_logic` with `terminal_switch` and `context_switch` behind it.
use fireball_os.Base.{
  ℕ, ◌+◌, ◌-◌, ◌<◌, ◌≡◌, ◌≢◌, refl, sym, subst, ap, ◌∙◌, arith, ◌==◌, ltb, ◌&&◌, not, true, false,
  Option, some, ◌>>=◌, minus_one, ◌++◌,
}
use fireball_os.Pic.{send_eoi}
use fireball_os.Process.{Addresses, pcb_at, context_switch}
use fireball_os.Terminal.{Terminals, pass_buff, terminal_switch, set_entry, saved}
use fireball_os.Terminal.Switching.{terminal_switch-HasSwitched}
use fireball_os.Keyboard.{Keys, hold_keys}
use fireball_os.Keyboard.Machine.{
  Machine, stays, leaves, Stack, act, kbd_logic, show_line, kbd_int_handler, first_key,
  is_function_key, first_time, open_terminal, resume, switch_process, process_of, send,
}

hold_keys-function : (n : ℕ) (k : Keys) → n < 3 → hold_keys (0x3b + n) k ≡ k
unfolding hold_keys
hold_keys-function n k lt =
    let e1 : (0x3b + n == 0x2a) ≡ false = ground arith in
    let e2 : (0x3b + n == 0x36) ≡ false = ground arith in
    let e3 : (0x3b + n == 0xaa) ≡ false = ground arith in
    let e4 : (0x3b + n == 0xb6) ≡ false = ground arith in
    let e5 : (0x3b + n == 0x3a) ≡ false = ground arith in
    let e6 : (0x3b + n == 0x1d) ≡ false = ground arith in
    let e7 : (0x3b + n == 0x9d) ≡ false = ground arith in
    let e8 : (0x3b + n == 0x38) ≡ false = ground arith in
    let e9 : (0x3b + n == 0xb8) ≡ false = ground arith in
    rw (e1, e2, e3, e4, e5, e6, e7, e8, e9) refl

act-function :
    (a : Addresses) (st : Stack) (n buffer : ℕ) (m : Machine)
    → n < 3
    → m.keys.alt ≢ 0
    → act a st (0x3b + n) buffer m ≡ open_terminal a st n m
unfolding act
act-function a st n buffer m lt alt =
    let held : (m.keys.alt == 0) ≡ false = ground arith in
    let e1 : (not (m.keys.ctrl == 0) && 0x3b + n == 0x26) ≡ false = ground arith in
    let e2 : (0x3b + n == 0x3e) ≡ false = ground arith in
    let e3 : (0x3b + n == 0x3f) ≡ false = ground arith in
    let e4 : is_function_key (0x3b + n) ≡ true = ground arith in
    let key : 0x3b + n - 0x3b ≡ n = omega arith in rw (e1, e2, e3, e4, key, held) refl

bind_some {ℓ κ} :
    {A : Type ℓ} {B : Type κ} (o : Option A) (f : A → B) (a : A)
    → o ≡ some a
    → (b : B) × ((o >>= λ a. some (f a)) ≡ some b)
bind_some o f a e = (f a, rw e refl)

terminal_switch-some :
    (t : Terminals) (new old b : ℕ)
    → old < 3
    → new < 3
    → t.screens new ≡ some b
    → (t' : Terminals) × (terminal_switch t new old ≡ some t')
unfolding terminal_switch
terminal_switch-some t new old b lo ln e =
    let inside : (ltb old 3 && ltb new 3) ≡ true = ground arith in
    rw inside (bind_some (t.screens new) _ b e)

-- The switch from one process to another: `pid` runs next, with its directory, stack and terminal.
abbrev pub Runs : (pid : ℕ) → Machine → Machine → Type 0
Runs pid m m' =
    let new_process = m.kernel.pcbs (pcb_at pid) in
    (m'.kernel.curr_process ≡ pcb_at pid)
    × (m'.kernel.tables.cr3 ≡ new_process.pd_ptr)
    × (m'.kernel.tss_esp0 ≡ new_process.k_sp)
    × (m'.terms.process_buf ≡ (new_process.file_fds 1).file_pos)

switch_process-Runs :
    (st : Stack) (pid : ℕ) (m : Machine)
    → pid ≢ minus_one
    → let (e, m') = switch_process st pid m in
      (e ≡ leaves)
      × Runs pid m m'
      × (m'.terms.screen_num ≡ m.terms.screen_num)
      × (m'.terms.components ≡ m.terms.components)
      × (m'.terms.video ≡ m.terms.video)
      × (m'.sent ≡ m.sent ++ send_eoi 0)
unfolding switch_process context_switch
switch_process-Runs st pid m ne =
    let known : (pid == minus_one) ≡ false = ground arith in
    rw known (refl, (refl, refl, refl, refl), refl, refl, refl, refl)

resume-switch :
    (st : Stack) (prev : ℕ) (m : Machine)
    → m.terms.screen_num ≢ prev
    → resume st prev (stays, m) ≡ switch_process st (process_of m.kernel m.terms.screen_num) m
unfolding resume
resume-switch st prev m ne =
    let other : (m.terms.screen_num == prev) ≡ false = ground arith in rw other refl

-- The terminal is switched, and its process runs.
abbrev pub Opened : (n : ℕ) → Machine → Machine → Type 0
Opened n m m' =
    Runs (process_of m.kernel n) m m'
    × (m'.terms.screen_num ≡ n)
    × (m'.terms.components
        ≡ set_entry m.terms.components m.terms.screen_num (saved m.terms.display))
    × (m'.sent ≡ (m.sent ++ send_eoi 1) ++ send_eoi 0)

-- the state between the two switches
abbrev middle : (n : ℕ) → Machine → Terminals → Machine
middle n m t = record (send 1 m) { terms = t }

middle-Opened :
    (st : Stack) (n : ℕ) (m : Machine) (t : Terminals)
    → m.terms.screen_num ≢ n
    → process_of m.kernel n ≢ minus_one
    → t.screen_num ≡ n
    → t.components ≡ set_entry m.terms.components m.terms.screen_num (saved m.terms.display)
    → (m' : Machine) × (resume st m.terms.screen_num (stays, middle n m t) ≡ (leaves, m'))
      × Opened n m m'
middle-Opened st n m t ne known current components =
    let other : t.screen_num ≢ m.terms.screen_num = λ e. ne (sym e ∙ current) in
    let pid = process_of m.kernel t.screen_num in
    let same : pid ≡ process_of m.kernel n = ap (process_of m.kernel) current in
    let (e, runs, screen, kept, video, sent) =
      switch_process-Runs st pid (middle n m t) (λ h. known (sym same ∙ h)) in
    let m' = (switch_process st pid (middle n m t)).1 in
    (
      m',
      resume-switch st m.terms.screen_num (middle n m t) other ∙ ap (λ e. (e, m')) e,
      (subst (λ pid. Runs pid m m') same runs, screen ∙ current, kept ∙ components, sent),
    )

open_terminal-Opened :
    (a : Addresses) (st : Stack) (n b : ℕ) (m : Machine)
    → n < 3
    → m.terms.screen_num < 3
    → m.terms.screen_num ≢ n
    → first_time n m.keys ≡ 0
    → m.terms.screens n ≡ some b
    → process_of m.kernel n ≢ minus_one
    → (m' : Machine) × (open_terminal a st n m ≡ some (leaves, m')) × Opened n m m'
unfolding open_terminal
open_terminal-Opened a st n b m lt old ne first e known =
    let t1 = record m.terms { screen_num = n } in
    let (t, switched) = terminal_switch-some t1 n m.terms.screen_num b old lt e in
    let s = terminal_switch-HasSwitched t1 n m.terms.screen_num t switched in
    let (m', resumed, opened) = middle-Opened st n m t ne known s.current s.components in
    (m', rw (switched, first, resumed) refl, opened)

-- With alt held, F1, F2 or F3 of a terminal that is not the current one, has been opened before and
-- has a buffer, and whose process is known: the interrupt does not come back here. The terminal is
-- then the current one, the cursor of the old one is saved, the process of the terminal, or the child
-- that it waits for, runs with its own directory and kernel stack and prints to its own terminal, and
-- both the interrupt of the keyboard and that of the timer have been ended.
pub kbd_int_handler-Opened :
    (a : Addresses) (st : Stack) (status x y n b buffer : ℕ) (m : Machine)
    → n < 3
    → m.terms.screen_num < 3
    → m.terms.screen_num ≢ n
    → m.keys.alt ≢ 0
    → first_time n m.keys ≡ 0
    → pass_buff m.terms ≡ some buffer
    → m.terms.screens n ≡ some b
    → process_of m.kernel n ≢ minus_one
    → (m' : Machine) × (kbd_int_handler a st status x y (0x3b + n) m ≡ some (leaves, m'))
      × Opened n m m'
unfolding kbd_int_handler kbd_logic show_line
kbd_int_handler-Opened a st status x y n b buffer m lt old ne alt first current e known =
    let f = first_key m in
    let same : hold_keys (0x3b + n) f.keys ≡ f.keys = hold_keys-function n f.keys lt in
    let (m', opened, result) = open_terminal-Opened a st n b f lt old ne first e known in
    (m', rw (current, same, act-function a st n buffer f lt alt, opened) refl, result)
