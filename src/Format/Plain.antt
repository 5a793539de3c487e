-- ===== src/Format/Plain.antt =====
-- `printf` and `cout` of student-distrib/lib.c on a text without conversions, and on one that ends in `%`.
use fireball_os.Base.{
  ℕ, zero, suc, ◌+◌, ◌≤◌, ◌<◌, ◌≡◌, ◌≢◌, refl, arith, ◌==◌, false, Option, none, some, ◌>>=◌, u32,
  Bool-cases, inl, inr,
}
use fireball_os.Memory.{Mem}
use fireball_os.CString.Length.{IsString}
use fireball_os.Format.{text, format_loop, cout, put_terminal, put_string, puts_cout}
use fireball_os.Terminal.{Terminals}

-- no character of the text is `%`
abbrev pub IsPlain : Mem → (s n : ℕ) → Type 0
IsPlain m s n = (i : ℕ) → i < n → m (s + i) ≢ 37

module _ {S : Type 0} (put : ℕ → S → Option S) where
  bind_assoc :
      (o : Option S) (g : S → Option (ℕ × S)) (h : S → Option (ℕ × Mem × S)) (m : Mem)
      → ((out : S) → h out ≡ (g out >>= λ (n, out'). some (n, m, out')))
      → (o >>= h) ≡ ((o >>= g) >>= λ (n, out'). some (n, m, out'))
  bind_assoc none g h m e = refl
  bind_assoc (some out) g h m e = e out

  format_loop-plain :
      (f : ℕ) (m : Mem) (args : ℕ → ℕ) (conv_buf format i n : ℕ) (out : S)
      → IsString m format n
      → IsPlain m format n
      → i ≤ n
      → format_loop put f m args conv_buf format i 0 text out
        ≡ (put_string put f m format i out >>= λ (n, out'). some (n, m, out'))
  unfolding format_loop put_string
  format_loop-plain zero m args conv_buf format i n out string plain le = refl
  format_loop-plain (suc f) m args conv_buf format i n out string plain le =
      elim (Bool-cases (m (format + i) == 0)) [
        | inl e ↦ rw (e, format_loop, put_string) refl
        | inr e ↦
            let more : i < n = ground (arith, string.terminated) in
            let no_spec : (m (format + i) == 37) ≡ false = ground (arith, plain i more) in
            rw (e, no_spec, format_loop, put_string)
              (bind_assoc (put (m (format + i)) out) _ _ m λ out'.
                format_loop-plain f m args conv_buf format (i + 1) n out' string plain
                  (omega arith))
      ]

-- For a format of `n` characters, none of them `%`, `cout` does what `puts_cout`
-- does with the string, whatever the arguments.
pub cout-puts_cout :
    (m : Mem) (args : ℕ → ℕ) (conv_buf format n : ℕ) (t : Terminals)
    → IsString m format n
    → IsPlain m format n
    → cout m args conv_buf format t ≡ (puts_cout m format t >>= λ (n, t'). some (n, m, t'))
unfolding cout puts_cout
cout-puts_cout m args conv_buf format n t string plain =
    format_loop-plain put_terminal u32 m args conv_buf format 0 n t string plain (omega arith)
