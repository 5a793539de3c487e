-- ===== src/Terminal/Read/Line.antt =====
-- `terminal_read` of student-distrib/terminal.c on a line of one row. The enter key has stored its line
-- break one cell behind the cell that follows the line, where the copying loop does not look.
use fireball_os.Base.{
  ℕ, zero, suc, ◌+◌, ◌-◌, ◌*◌, ◌%◌, ◌≤◌, ◌<◌, ◌≡◌, ◌≢◌, ◌∙◌, refl, ap, arith, ◌==◌, ltb, ◌||◌,
  if◌then◌else◌, true, false, some, u32, add32, is_negative, List, Bool, Bool-cases, inl, inr,
  fun_ext,
}
use native.Mathlib.Decide.{ℕ_discrete}
use fireball_os.Memory.{Mem, store}
use fireball_os.Memory.Copy.{within}
use fireball_os.Terminal.{Terminals, pass_buff}
use fireball_os.Console.{Display, Buffer, newline}
use fireball_os.Terminal.Read.{
  Round, wait_enter, line_start, terminal_read, copy_line, clear_bytes, out_length, copy_out,
}

clear_bytes-at :
    (n : ℕ) (m : Mem) (buf a : ℕ) → clear_bytes n m buf a ≡ (if within buf n a then 0 else m a)
unfolding store
clear_bytes-at zero m buf a = ground arith
clear_bytes-at (suc n) m buf a = clear_bytes-at n (store m buf 0) (buf + 1) a ∙ ground arith

-- the characters of `n` nodes
abbrev taken : Buffer → (i j n : ℕ) → (ℕ → ℕ) → ℕ → ℕ
taken b i j n out x = if within j n x then (b (i + (x - j))).mo % 256 else out x

copy_line-taken :
    (n counter : ℕ) (d : Display) (b : Buffer) (cmd_start length i j : ℕ) (out : ℕ → ℕ)
    → ((l : ℕ) → l < n → (b (i + l + 1)).mo ≢ newline)
    → i + n < 2000
    → j + n ≤ counter
    → length + n < u32
    → (out' : ℕ → ℕ) × (copy_line n counter d b cmd_start length i j out ≡ some (length + n, out'))
      × ((x : ℕ) → out' x ≡ taken b i j n out x)
unfolding copy_line
copy_line-taken zero counter d b cmd_start length i j out plain inside room small =
    (out, ap (λ l. some (l, out)) (omega arith), λ x. ground arith)
copy_line-taken (suc n) counter d b cmd_start length i j out plain inside room small =
    let e1 : ltb i 2000 ≡ true = ground arith in
    let e2 : ltb (i + 1) 2000 ≡ true = ground arith in
    let e3 : ltb j counter ≡ true = ground arith in
    let first = plain 0 (omega arith) in
    let e4 : ((b (i + 1)).mo == newline) ≡ false = ground (arith, first) in
    let put = λ (x : ℕ). if x == j then (b i).mo % 256 else out x in
    let (out', e, at) =
      copy_line-taken n counter d b cmd_start (add32 length 1) (i + 1) (j + 1) put
        (λ l lt. ground (arith, plain (suc l))) (omega arith) (omega arith) (omega arith) in
    (
      out',
      rw (e1, e3, e2, e4, copy_line) (e ∙ ap (λ l. some (l, out')) (omega arith)),
      λ x. at x ∙ ground arith,
    )

out_length-some :
    (f n i : ℕ) (out : ℕ → ℕ)
    → n < f
    → ((l : ℕ) → l < n → out (i + l) ≢ 0)
    → out (i + n) ≡ 0
    → out_length f out i ≡ some (i + n)
out_length-some zero n i out enough nonzero end = absurd (omega arith)
out_length-some (suc f) zero i out enough nonzero end =
    let stop : (out i == 0) ≡ true = ground (arith, end) in
    rw (stop, out_length) (ap some (omega arith))
out_length-some (suc f) (suc n) i out enough nonzero end =
    let first = nonzero 0 (omega arith) in
    let on : (out i == 0) ≡ false = ground (arith, first) in
    rw (on, out_length)
      (out_length-some f n (i + 1) out (omega arith) (λ l lt. ground (arith, nonzero (suc l)))
          (ground (arith, end))
        ∙ ap some (omega arith))

copy_out-at :
    (n : ℕ) (out : ℕ → ℕ) (m : Mem) (buf i a : ℕ)
    → copy_out n out m buf i a ≡ (if within (buf + i) n a then out (a - buf) else m a)
unfolding store
copy_out-at zero out m buf i a = ground arith
copy_out-at (suc n) out m buf i a =
    copy_out-at n out (store m (buf + i) (out i)) buf (i + 1) a ∙ elim (ℕ_discrete a (buf + i)) [
      | no other ↦ ground (arith, other)
      | yes here ↦
          let place : i ≡ a - buf = omega (arith, here) in
          let same : out i ≡ out (a - buf) = ap out place in ground (arith, here, same)
    ]

-- memory after `n` characters, from node `i` on, have been left at `buf`, of which 20 bytes are cleared
abbrev pub line_read : Buffer → (i n : ℕ) → Mem → (buf : ℕ) → Mem
line_read b i n m buf a =
    if within buf n a
    then (b (i + (a - buf))).mo
    else if within buf 20 a || a == buf + n
    then 0
    else m a

or_off : (c : Bool) (x : ℕ) → (if c then 0 else x) ≡ (if c || false then 0 else x)
or_off true x = refl
or_off false x = refl

or_on : (c : Bool) (x : ℕ) → 0 ≡ (if c || true then 0 else x)
or_on true x = refl
or_on false x = refl

-- what the last loop and the last store make of the array
left_at :
    (out : ℕ → ℕ) (b : Buffer) (i n : ℕ) (m : Mem) (buf : ℕ)
    → ((l : ℕ) → l < n → out l ≡ (b (i + l)).mo)
    → (a : ℕ)
    → store (copy_out (n + 1) out (clear_bytes 20 m buf) buf 0) (buf + n) 0 a
      ≡ line_read b i n m buf a
unfolding store
left_at out b i n m buf same a = elim (ℕ_discrete a (buf + n)) [
  | yes end ↦
      let on : (a == buf + n) ≡ true = ground (arith, end) in
      let apart : within buf n a ≡ false = ground (arith, end) in
      rw (on, apart) (or_on (within buf 20 a) (m a))
  | no before ↦
      let off : (a == buf + n) ≡ false = ground (arith, before) in
      elim (Bool-cases (within buf n a)) [
        | inl inside ↦
            let lt : a - buf < n = ground arith in
            let around : within (buf + 0) (n + 1) a ≡ true = ground arith in
            rw (off, inside)
              (copy_out-at (n + 1) out (clear_bytes 20 m buf) buf 0 a
                ∙ rw around (same (a - buf) lt))
        | inr outside ↦
            let behind : within (buf + 0) (n + 1) a ≡ false = ground (arith, before) in
            rw (off, outside)
              (copy_out-at (n + 1) out (clear_bytes 20 m buf) buf 0 a
                ∙ rw behind (clear_bytes-at 20 m buf a ∙ or_off (within buf 20 a) (m a)))
      ]
]

-- For a line of `n` characters, none of them a zero, in the row above the cursor, that starts at the
-- column of the call and ends, within its row, at the column that the waiting loop saw last, with no
-- line break behind its first character up to that column, where a command line counts fewer than 80
-- characters, the array of `counter` bytes has more than `n`, and `length` stays below 2 ^ 32 with `n`
-- added, and the nodes hold bytes: `terminal_read` comes to an end and returns `counter`, or 128 if
-- that is less, has added `n` to `length`, and leaves exactly the characters of the line at `buf`, with
-- a terminator right behind them, and zeros in the rest of the first 20 bytes; other memory is as it
-- was.
pub terminal_read-line_read :
    (m : Mem) (before after : Terminals) (rounds : List Round) (length buf counter b n : ℕ)
    → pass_buff before ≡ some b
    → wait_enter rounds before.display.line_count ≡ some (before.display.buf_x + n)
    → before.display.buf_x + n ≤ 80
    → after.display.line_count < 80
    → 1 ≤ after.display.buf_y
    → after.display.buf_y < 25
    → let i = 80 * (after.display.buf_y - 1) + before.display.buf_x in
      ((l : ℕ)
        → l < n
        → (0 < (after.buffs b (i + l)).mo)
          × ((after.buffs b (i + l)).mo < 256)
          × ((after.buffs b (i + l + 1)).mo ≢ newline))
      → n < counter
      → length + n < u32
      → terminal_read m before after rounds length buf counter
        ≡ some (
          if ltb 128 counter then 128 else counter,
          length + n,
          line_read (after.buffs b) i n m buf,
        )
unfolding terminal_read store
terminal_read-line_read m before after rounds length buf counter b n current waited short one_row
      low row line room small =
    let d = after.display in
    let s = before.display.buf_x in
    let i = 80 * (d.buf_y - 1) + s in
    let positive : is_negative (s + n) ≡ false = ground arith in
    let start : add32 (line_start d) s ≡ i = ground arith in
    let count : s + n - s ≡ n = omega arith in
    let (out, copied, at) =
      copy_line-taken n counter d (after.buffs b) s length i 0 (λ _. 0) (λ l lt. (line l lt).2)
        (omega arith) (omega arith) small in
    let char : (l : ℕ) → l < n → out l ≡ (after.buffs b (i + l)).mo =
      λ l lt. let fits = (line l lt).1 in let x = at l in ground (arith, x, fits) in
    let found : out_length counter out 0 ≡ some (0 + n) =
      out_length-some counter n 0 out room
        (λ l lt.
          let here = char l lt in let some_char = (line l lt).0 in ground (arith, here, some_char))
        (let here = at n in ground (arith, here)) in
    let plus : 0 + n ≡ n = omega arith in
    rw (current, waited, positive, start, count, copied, found, plus)
      (ap (λ m'. some (if ltb 128 counter then 128 else counter, length + n, m'))
        (fun_ext (left_at out (after.buffs b) i n m buf char)))
