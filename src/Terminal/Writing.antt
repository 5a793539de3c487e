-- ===== src/Terminal/Writing.antt =====
-- `terminal_write` of student-distrib/terminal.c.
use fireball_os.Base.{ℕ, zero, suc, ◌+◌, ◌<◌, ◌≡◌, refl, arith, ltb, true, Option, none, some, u32}
use fireball_os.Memory.{Mem}
use fireball_os.CString.Length.{IsString, strlen-some}
use fireball_os.OpenFile.{File}
use fireball_os.Console.{Display, Buffer, put_cout}
use fireball_os.Console.Cursor.{OnScreen, Ensures, put_cout-OnScreen}
use fireball_os.Video.Draw.{printb-SameCursor}
use fireball_os.Terminal.{
  Terminals, set_entry, put_in, write_loop, terminal_write, pass_buff, show_buffer,
}

Ensures-some :
    (P : Display → Buffer → Type 0) (m : Option (Display × Buffer))
    → Ensures P m
    → (d : Display) × (b : Buffer) × (m ≡ some (d, b)) × P d b
Ensures-some P none p = absurd p
Ensures-some P (some (d, b)) p = (d, b, refl, p)

-- What writing needs: the terminal written to and the one shown have a buffer, and the cursor is on
-- the screen.
pub record CanWrite (t : Terminals) : Type 0 where
  pub known : t.process_buf < 3
  pub written : (b : ℕ) × (t.screens t.process_buf ≡ some b)
  pub shown_known : t.screen_num < 3
  pub shown : (b : ℕ) × (t.screens t.screen_num ≡ some b)
  pub cursor : OnScreen t.display

put_in-CanWrite :
    (t : Terminals) (b c : ℕ)
    → CanWrite t
    → (t' : Terminals) × (put_in t b c ≡ some t') × CanWrite t'
put_in-CanWrite t b c can =
    let (d, b', e, on) =
      Ensures-some (λ d' b'. OnScreen d') (put_cout c t.display (t.buffs b))
        (put_cout-OnScreen c t.display (t.buffs b) can.cursor) in
    (
      record t { display = d; buffs = set_entry t.buffs b b' },
      rw e,
      record {
        known = can.known;
        written = can.written;
        shown_known = can.shown_known;
        shown = can.shown;
        cursor = on;
      },
    )

write_loop-CanWrite :
    (n : ℕ) (m : Mem) (t : Terminals) (buf i : ℕ)
    → CanWrite t
    → (t' : Terminals) × (write_loop n m t buf i ≡ some t') × CanWrite t'
unfolding write_loop
write_loop-CanWrite zero m t buf i can = (t, refl, can)
write_loop-CanWrite (suc n) m t buf i can =
    let (b, e) = can.written in
    let (t1, e1, can1) = put_in-CanWrite t b (m (buf + i)) can in
    let (t2, e2, can2) = write_loop-CanWrite n m t1 buf (i + 1) can1 in
    let inside : ltb t.process_buf 3 ≡ true = ground (arith, can.known) in
    (t2, rw (inside, e, e1, e2), can2)

-- `terminal_write` of a string that ends, to a file of a terminal that has a buffer, while one that
-- has a buffer is shown and the cursor is on the screen, comes to an end inside its buffers, returns
-- the count that it was given, whatever the string's length, and leaves it all in that state.
pub terminal_write-CanWrite :
    (m : Mem) (t : Terminals) (file : File) (buf counter n : ℕ)
    → IsString m buf n
    → n < u32
    → CanWrite (record t { process_buf = file.file_pos })
    → (t' : Terminals) × (terminal_write m t file buf counter ≡ some (counter, t')) × CanWrite t'
unfolding terminal_write pass_buff
terminal_write-CanWrite m t file buf counter n string small can =
    let (t1, e1, can1) =
      write_loop-CanWrite n m (record t { process_buf = file.file_pos }) buf 0 can in
    let (b, e) = can1.shown in
    let inside : ltb t1.screen_num 3 ≡ true = ground (arith, can1.shown_known) in
    let same = printb-SameCursor (t1.buffs b) t1.display t1.video in
    (
      show_buffer t1 b,
      rw (strlen-some m buf n string small, e1, inside, e),
      record {
        known = can1.known;
        written = can1.written;
        shown_known = can1.shown_known;
        shown = can1.shown;
        cursor = record {
          column = ground (arith, can1.cursor, same);
          row = ground (arith, can1.cursor, same);
        };
      },
    )
