-- ===== src/Terminal/Read.antt =====
-- `terminal_read` of student-distrib/terminal.c.
pub mod Line
use fireball_os.Base.{
  ℕ, zero, suc, ◌+◌, ◌-◌, ◌*◌, ◌%◌, ◌==◌, if◌then◌else◌, ltb, leb, ◌||◌, ◌&&◌, not, Bool, true,
  false, Option, none, some, ◌>>=◌, List, [], ◌∷◌, u32, add32, sub32, is_negative,
}
use fireball_os.Memory.{Mem, store}
use fireball_os.Console.{Display, Buffer, buffer_size, newline}
use fireball_os.Terminal.{Terminals, pass_buff}

-- What a round of the waiting loop sees of `length`, `enter_press` and `buf_x`, which interrupts
-- change between the rounds.
pub record Round : Type 0 where
  pub length : ℕ
  pub enter_press : ℕ
  pub buf_x : ℕ

-- `cmd_end` behind the waiting loop; `none` is a loop that none of the rounds ends.
unfoldable pub wait_enter : List Round → (cmd_end : ℕ) → Option ℕ
wait_enter [] cmd_end = none
wait_enter (r ∷ rs) cmd_end = elim (r.length == 127 || r.enter_press == 1) [
  | true ↦ some cmd_end
  | false ↦ wait_enter rs r.buf_x
]

-- stores of zeros from an address on
abbrev pub clear_bytes : ℕ → Mem → (buf : ℕ) → Mem
clear_bytes zero m buf = m
clear_bytes (suc n) m buf = clear_bytes n (store m buf 0) (buf + 1)

-- The row whose characters are read, as the index of its first cell.
abbrev pub line_start : Display → ℕ
line_start d =
    if leb 80 d.line_count && not (is_negative d.line_count)
    then (u32 + 80 * d.buf_y - 160) % u32
    else (u32 + 80 * d.buf_y - 80) % u32

-- `out[i] = c` of an array of `counter` bytes
abbrev pub put_out : (counter : ℕ) → (ℕ → ℕ) → (i c : ℕ) → Option (ℕ → ℕ)
put_out counter out i c =
    if ltb i counter then some (λ j. if j == i then c % 256 else out j) else none

-- The end of the copying loop at a line break behind node `i`, with `index` taken anew.
abbrev pub end_line : (counter : ℕ) → Display → (cmd_start i : ℕ) → (ℕ → ℕ) → Option (ℕ → ℕ)
end_line counter d cmd_start i out =
    let index = sub32 d.buf_y 1 in put_out counter out (sub32 (sub32 i index) cmd_start) newline

-- the loop, with `n` rounds left; it returns `length` and `out`
unfoldable pub copy_line :
    ℕ
    → (counter : ℕ) → Display
    → Buffer
    → (cmd_start length i j : ℕ) → (ℕ → ℕ)
    → Option (ℕ × (ℕ → ℕ))
copy_line zero counter d b cmd_start length i j out = some (length, out)
copy_line (suc n) counter d b cmd_start length i j out = elim (ltb i buffer_size) [
  | false ↦ none
  | true ↦ put_out counter out j (b i).mo >>= λ out'. elim (ltb (i + 1) buffer_size) [
    | false ↦ none
    | true ↦ elim ((b (i + 1)).mo == newline) [
      | true ↦ end_line counter d cmd_start i out' >>= λ out''. some (add32 length 1, out'')
      | false ↦ copy_line n counter d b cmd_start (add32 length 1) (i + 1) (j + 1) out'
    ]
  ]
]

-- The string in `out`, up to its terminator, which is searched in the array only.
abbrev pub out_length : ℕ → (ℕ → ℕ) → (i : ℕ) → Option ℕ
out_length zero out i = none
out_length (suc n) out i = elim (out i == 0) [ true ↦ some i | false ↦ out_length n out (i + 1) ]

-- the last loop, with `n` rounds left
abbrev pub copy_out : ℕ → (ℕ → ℕ) → Mem → (buf i : ℕ) → Mem
copy_out zero out m buf i = m
copy_out (suc n) out m buf i = copy_out n out (store m (buf + i) (out i)) buf (i + 1)

-- `before` is the state at the call, `after` the one when the waiting loop ends. The result has the
-- number that is returned, `length` and the memory; `enter_press` is 0. `counter` is not negative.
unfoldable pub terminal_read :
    Mem → (before after : Terminals) → List Round → (length buf counter : ℕ) → Option (ℕ × ℕ × Mem)
unfolding wait_enter copy_line
terminal_read m before after rounds length buf counter =
    let m1 = clear_bytes 20 m buf in
    let cmd_start = before.display.buf_x in
    pass_buff before >>= λ b. wait_enter rounds before.display.line_count >>= λ cmd_end.
    let n = if is_negative cmd_end then 0 else cmd_end - cmd_start in
    let index = line_start after.display in
    copy_line n counter after.display (after.buffs b) cmd_start length (add32 index cmd_start) 0
      (λ _. 0)
    >>= λ (length', out). out_length counter out 0 >>= λ n.
        let m2 = store (copy_out (n + 1) out m1 buf 0) (buf + n) 0 in
        some (if ltb 128 counter then 128 else counter, length', m2)
