-- ===== src/Format.antt =====
-- `printf`, `cout` and `puts_cout` of student-distrib/lib.c: the two loops over a format string differ
-- only in how they put a character, which is a parameter here.
pub mod Plain
use fireball_os.Base.{
  ℕ, zero, suc, ◌+◌, ◌-◌, ◌%◌, ◌==◌, if◌then◌else◌, ltb, Bool, true, false, Option, none, some,
  ◌>>=◌, u32, sub32, is_negative,
}
use fireball_os.Memory.{Mem, store}
use fireball_os.CString.{strlen, itoa}
use fireball_os.Console.{Display}
use fireball_os.Video.{Video, putc}
use fireball_os.Terminal.{Terminals, screen_at, put_in}

-- Where the loop is: in the text, or behind a `%`, with `alternate`.
pub data Place : Type 0 where
  text : Place
  spec : ℕ → Place

module _ {S : Type 0} (put : ℕ → S → Option S) where
  -- the loop of `puts` and `puts_cout`, with the number of characters
  unfoldable pub put_string : ℕ → Mem → (s index : ℕ) → S → Option (ℕ × S)
  put_string zero m s index out = none
  put_string (suc f) m s index out = elim (m (s + index) == 0) [
    | true ↦ some (index, out)
    | false ↦ put (m (s + index)) out >>= λ out'. put_string f m s (index + 1) out'
  ]

  abbrev pub put_number : Mem → (s : ℕ) → S → Option (Mem × S)
  put_number m s out = put_string u32 m s 0 out >>= λ (_, out'). some (m, out')

  -- the loop that stores zeros, with `8 - i` rounds left
  abbrev pub pad_zeros : ℕ → Mem → (conv_buf i : ℕ) → Mem
  pad_zeros zero m conv_buf i = m
  pad_zeros (suc n) m conv_buf i = pad_zeros n (store m (conv_buf + i) 48) conv_buf (i + 1)

  unfoldable pub put_hex : Mem → (conv_buf alternate value : ℕ) → S → Option (Mem × S)
  put_hex m conv_buf alternate value out =
      if alternate == 0
      then (itoa m value conv_buf 16 >>= λ m1. put_number m1 conv_buf out)
      else (itoa m value (conv_buf + 8) 16 >>= λ m1. strlen m1 (conv_buf + 8) >>= λ i.
          put_number (pad_zeros (8 - i) m1 conv_buf i) (conv_buf + i) out)

  unfoldable pub put_signed : Mem → (conv_buf value : ℕ) → S → Option (Mem × S)
  put_signed m conv_buf value out =
      (if is_negative value
        then itoa (store m conv_buf 45) (sub32 0 value) (conv_buf + 1) 10
        else itoa m value conv_buf 10)
      >>= λ m1. put_number m1 conv_buf out

  -- The `switch` over the conversion specifier `c`, with the argument `value`: whether `esp` moves on.
  unfoldable pub convert : Mem → (conv_buf c alternate value : ℕ) → S → Option (ℕ × Mem × S)
  unfolding put_hex put_signed
  convert m conv_buf c alternate value out =
      if c == 37
      then (put 37 out >>= λ out'. some (0, m, out'))
      else if c == 120
      then (put_hex m conv_buf alternate value out >>= λ (m', out'). some (1, m', out'))
      else if c == 117
      then (itoa m value conv_buf 10 >>= λ m1.
          put_number m1 conv_buf out >>= λ (m', out'). some (1, m', out'))
      else if c == 100
      then (put_signed m conv_buf value out >>= λ (m', out'). some (1, m', out'))
      else if c == 99
      then (put (value % 256) out >>= λ out'. some (1, m, out'))
      else if c == 115
      then (put_number m value out >>= λ (m', out'). some (1, m', out'))
      else some (0, m, out)

  -- The loop, a character in each round, with `args i` the argument `i` of the call. A loop that
  -- does not end is `none`. The result is the number of characters behind `format`.
  unfoldable pub format_loop :
      ℕ → Mem → (args : ℕ → ℕ) → (conv_buf format i esp : ℕ) → Place → S → Option (ℕ × Mem × S)
  unfolding convert
  format_loop zero m args conv_buf format i esp place out = none
  format_loop (suc f) m args conv_buf format i esp text out = elim (m (format + i) == 0) [
    | true ↦ some (i, m, out)
    | false ↦ elim (m (format + i) == 37) [
      | true ↦ format_loop f m args conv_buf format (i + 1) esp (spec 0) out
      | false ↦ put (m (format + i)) out >>= λ out'.
          format_loop f m args conv_buf format (i + 1) esp text out'
    ]
  ]
  format_loop (suc f) m args conv_buf format i esp (spec alternate) out =
      elim (m (format + i) == 35) [
        | true ↦ format_loop f m args conv_buf format (i + 1) esp (spec 1) out
        | false ↦
            convert m conv_buf (m (format + i)) alternate (args esp) out >>= λ (taken, m', out').
            format_loop f m' args conv_buf format (i + 1) (esp + taken) text out'
      ]

abbrev pub put_screen : ℕ → Display × Video → Option (Display × Video)
put_screen c (d, v) = some (putc c d v)

-- `put_cout` into the buffer `screens[process_buf]`
abbrev pub put_terminal : ℕ → Terminals → Option Terminals
put_terminal c t = screen_at t t.process_buf >>= λ b. put_in t b c

-- A string of the machine's memory is shorter than `u32`.
unfoldable pub printf :
    Mem
    → (args : ℕ → ℕ) → (conv_buf format : ℕ) → Display × Video
    → Option (ℕ × Mem × (Display × Video))
unfolding format_loop
printf m args conv_buf format out = format_loop put_screen u32 m args conv_buf format 0 0 text out

unfoldable pub cout :
    Mem → (args : ℕ → ℕ) → (conv_buf format : ℕ) → Terminals → Option (ℕ × Mem × Terminals)
unfolding format_loop
cout m args conv_buf format t = format_loop put_terminal u32 m args conv_buf format 0 0 text t

unfoldable pub puts_cout : Mem → (s : ℕ) → Terminals → Option (ℕ × Terminals)
unfolding put_string
puts_cout m s t = put_string put_terminal u32 m s 0 t
