-- ===== src/Process/Arguments.antt =====
-- `parse` and `get_arg` of student-distrib/systemcalls.c: how a command line is taken apart.
use fireball_os.Base.{
  ℕ, zero, suc, ◌+◌, ◌-◌, ◌≤◌, ◌<◌, ◌≡◌, ◌≢◌, refl, sym, subst, ap, ap₂, ◌∙◌, inl, inr, Bool-cases,
  fun_ext, arith, ◌==◌, ltb, ◌||◌, true, false, some, u32, if◌then◌else◌, Bool,
}
use native.Mathlib.Decide.{ℕ_discrete}
use fireball_os.Memory.{Mem, store}
use fireball_os.Memory.Copy.{copied, Apart, copied-store, within}
use fireball_os.CString.Length.{IsString, strlen-some}
use fireball_os.Process.{Kernel, Addresses, parse, parse_loop, get_arg, arg_loop}

-- a space or a line break
abbrev pub is_separator : ℕ → Bool
is_separator c = c == 32 || c == 10

-- The characters from `j` on are no separators up to the one at `i`, or up to the end at `n`.
pub record IsWord (m : Mem) (input n j i : ℕ) : Type 0 where
  pub from : j ≤ i
  pub to : i ≤ n
  pub plain : (l : ℕ) → j ≤ l → l < i → is_separator (m (input + l)) ≡ false
  pub ends : i < n → is_separator (m (input + i)) ≡ true

copied-none : (m : Mem) (d s : ℕ) → copied m d s 0 ≡ m
copied-none m d s = fun_ext (λ a. ground arith)

-- each line has a first word
IsWord-end : (k : ℕ) (m : Mem) (input n j : ℕ) → j + k ≡ n → (i : ℕ) × IsWord m input n j i
IsWord-end zero m input n j e = (
  j,
  record {
    from = omega arith;
    to = omega arith;
    plain = λ l le lt. absurd (omega arith);
    ends = λ lt. absurd (omega arith);
  },
)
IsWord-end (suc k) m input n j e = elim (Bool-cases (is_separator (m (input + j)))) [
  | inl here ↦ (
    j,
    record {
      from = omega arith;
      to = omega arith;
      plain = λ l le lt. absurd (omega arith);
      ends = λ lt. here;
    },
  )
  | inr on ↦
      let (i, w) = IsWord-end k m input n (j + 1) (omega arith) in
      (
        i,
        record {
          from = omega (arith, w.from);
          to = w.to;
          plain = λ l le lt. elim (ℕ_discrete l j) [
            | yes first ↦ rw first on
            | no later ↦ w.plain l (omega (arith, later)) lt
          ];
          ends = w.ends;
        },
      )
]

-- a store to the output leaves the rest of the word
IsWord-store :
    (m : Mem) (input output n j i : ℕ)
    → Apart output input n
    → IsWord m input n j i
    → i ≢ j
    → j < n
    → IsWord (store m (output + j) (m (input + j))) input n (j + 1) i
unfolding store
IsWord-store m input output n j i apart w later lt = record {
  from = omega (arith, w.from, later);
  to = w.to;
  plain = λ l le below.
      let miss : (input + l == output + j) ≡ false = ground (arith, apart, w.to) in
      rw miss (w.plain l (omega arith) below);
  ends = λ below.
      let miss : (input + i == output + j) ≡ false = ground (arith, apart) in
      rw miss (w.ends below);
}

-- one byte, and the rest of a copy
copied_step :
    (m : Mem) (d s r : ℕ)
    → Apart d s (suc r)
    → copied (store m d (m s)) (d + 1) (s + 1) r ≡ copied m d s (suc r)
copied_step m d s r apart = fun_ext (λ a. copied-store m d s r a apart)

parse_loop-copied :
    (k : ℕ) (m : Mem) (input output n j i : ℕ)
    → j + k ≡ n
    → Apart output input n
    → IsWord m input n j i
    → parse_loop k m input output j ≡ (copied m (output + j) (input + j) (i - j), i, ltb i n)
unfolding parse_loop
parse_loop-copied zero m input output n j i e apart w =
    let here : i ≡ j = omega (arith, w.from, w.to) in
    let off : ltb j n ≡ false = ground (arith, w.from) in
    let none_left : j - j ≡ 0 = omega arith in
    rw (here, off, none_left)
      (ap (λ c. (c, j, false)) (sym (copied-none m (output + j) (input + j))))
parse_loop-copied (suc k) m input output n j i e apart w = elim (ℕ_discrete i j) [
  | yes here ↦
      let stop : (m (input + j) == 32 || m (input + j) == 10) ≡ true =
        subst (λ l. is_separator (m (input + l)) ≡ true) here (w.ends (omega arith)) in
      let on : ltb j n ≡ true = ground arith in
      let none_left : j - j ≡ 0 = omega arith in
      rw (here, stop, on, none_left)
        (ap (λ c. (c, j, true)) (sym (copied-none m (output + j) (input + j))))
  | no later ↦
      let m1 = store m (output + j) (m (input + j)) in
      let go_on : (m (input + j) == 32 || m (input + j) == 10) ≡ false =
        w.plain j (omega arith) (omega (arith, w.from, later)) in
      let rest =
        parse_loop-copied k m1 input output n (j + 1) i (omega arith) apart
          (IsWord-store m input output n j i apart w later (omega arith)) in
      let d : output + (j + 1) ≡ output + j + 1 = omega arith in
      let s : input + (j + 1) ≡ input + j + 1 = omega arith in
      let r : suc (i - (j + 1)) ≡ i - j = omega (arith, w.from, later) in
      let copy : copied m1 (output + (j + 1)) (input + (j + 1)) (i - (j + 1))
          ≡ copied m (output + j) (input + j) (i - j) =
        ap₂ (λ d s. copied m1 d s (i - (j + 1))) d s
        ∙ copied_step m (output + j) (input + j) (i - (j + 1)) (ground (arith, apart, w.to, w.from))
        ∙ ap (copied m (output + j) (input + j)) r in
      rw (go_on, parse_loop) (rest ∙ ap (λ c. (c, i, ltb i n)) copy)
]

arg_loop-copied :
    (k : ℕ) (m : Mem) (input args j length : ℕ)
    → Apart (args + length) (input + j) k
    → arg_loop k m input args j length ≡ (copied m (args + length) (input + j) k, length + k)
unfolding arg_loop
arg_loop-copied zero m input args j length apart =
    ap₂ (λ c n. (c, n)) (sym (copied-none m (args + length) (input + j))) (omega arith)
arg_loop-copied (suc k) m input args j length apart =
    let rest =
      arg_loop-copied k (store m (args + length) (m (input + j))) input args (j + 1) (length + 1)
        (omega (arith, apart)) in
    let d : args + (length + 1) ≡ args + length + 1 = omega arith in
    let s : input + (j + 1) ≡ input + j + 1 = omega arith in
    rest
    ∙ ap₂ (λ c n. (c, n))
        (ap₂ (λ d s. copied (store m (args + length) (m (input + j))) d s k) d s
          ∙ copied_step m (args + length) (input + j) k apart)
        (omega arith)

-- What `parse` and `get_arg` make of a command line of `n` characters at `input` whose first word has
-- `i` of them: the word, and the characters behind its separator, each as a string of its own.
pub record IsTakenApart (a : Addresses) (k : Kernel) (input n i : ℕ) (k' : Kernel) : Type 0 where
  pub args : k'.args ≡ a.random_str2
  pub index : k'.index ≡ i
  pub name : (j : ℕ) → j < i → k'.mem (a.random_str1 + j) ≡ k.mem (input + j)
  pub name_end : k'.mem (a.random_str1 + i) ≡ 0
  pub rest : (j : ℕ) → j < n - (i + 1) → k'.mem (a.random_str2 + j) ≡ k.mem (input + (i + 1) + j)
  pub rest_end : k'.mem (a.random_str2 + (n - (i + 1))) ≡ 0

-- memory after `parse`
abbrev parsed : Mem → (output input i : ℕ) → Mem
parsed m output input i = store (copied m output input i) (output + i) 0

parse-parsed :
    (a : Addresses) (k : Kernel) (input n i : ℕ)
    → IsString k.mem input n
    → n < u32
    → 0 < n
    → k.mem input ≢ 32
    → Apart a.random_str1 input n
    → IsWord k.mem input n 0 i
    → parse a k input
      ≡ some (
        a.random_str1,
        record k {
          mem = parsed k.mem a.random_str1 input i;
          index = i;
          space_seen = if ltb i n then 1 else k.space_seen;
        },
      )
unfolding parse
parse-parsed a k input n i is small more first apart w =
    let test : (n == 0 || k.mem input == 32) ≡ false = ground (arith, first) in
    let loop = parse_loop-copied n k.mem input a.random_str1 n 0 i (omega arith) apart w in
    let d : a.random_str1 + 0 ≡ a.random_str1 = omega arith in
    let s : input + 0 ≡ input = omega arith in
    let z : i - 0 ≡ i = omega arith in
    rw (strlen-some k.mem input n is small, test, loop, d, s, z) refl

-- memory after `get_arg`, whose loop runs for `r` rounds
abbrev argued : Mem → (args from r : ℕ) → Mem
argued m args from r = store (copied m (args + 0) from r) (args + (0 + r)) 0

module _ (m : Mem) (input str1 str2 n i : ℕ) (le : i ≤ n) (apart1 : Apart str1 input (n + 1))
    (apart2 : Apart str2 input (n + 1)) (apart : Apart str1 str2 (n + 1)) where
  abbrev both : Mem
  both = argued (parsed m str1 input i) str2 (input + (i + 1)) (n - (i + 1))

  argued-name : (j : ℕ) → j < i → both (str1 + j) ≡ m (input + j)
  unfolding store
  argued-name j lt =
      let place : str1 + j - str1 ≡ j = omega arith in
      ground (arith, apart, ap (λ x. m (input + x)) place)

  argued-name_end : both (str1 + i) ≡ 0
  unfolding store
  argued-name_end = ground (arith, apart)

  argued-rest : (j : ℕ) → j < n - (i + 1) → both (str2 + j) ≡ m (input + (i + 1) + j)
  unfolding store
  argued-rest j lt =
      let place : str2 + j - (str2 + 0) ≡ j = omega arith in
      let miss : within str1 i (input + (i + 1) + j) ≡ false = ground (arith, apart1) in
      let miss_end : (input + (i + 1) + j == str1 + i) ≡ false = ground (arith, apart1) in
      let inside : within (str2 + 0) (n - (i + 1)) (str2 + j) ≡ true = ground arith in
      let before : (str2 + j == str2 + (0 + (n - (i + 1)))) ≡ false = ground arith in
      rw (before, inside, place, miss_end, miss) refl

  argued-rest_end : both (str2 + (n - (i + 1))) ≡ 0
  unfolding store
  argued-rest_end = ground arith

-- A command line that ends, is not empty, begins with no space and does not overlap the two strings
-- that the routines write to, which do not overlap each other: `parse` comes to an end with the first string,
-- which holds the word up to the first space or line break, or the whole line; and after `get_arg`
-- the second one, which is `args`, holds the characters behind that separator. Both are terminated.
pub parse-get_arg :
    (a : Addresses) (k : Kernel) (input n : ℕ)
    → IsString k.mem input n
    → n < u32
    → 0 < n
    → k.mem input ≢ 32
    → Apart a.random_str1 input (n + 1)
    → Apart a.random_str2 input (n + 1)
    → Apart a.random_str1 a.random_str2 (n + 1)
    → (i : ℕ) × IsWord k.mem input n 0 i
      × (k1 : Kernel) × (parse a k input ≡ some (a.random_str1, k1))
      × IsTakenApart a k input n i (get_arg a k1 input n)
unfolding get_arg store
parse-get_arg a k input n is small more first apart1 apart2 apart =
    let (i, w) = IsWord-end n k.mem input n 0 (omega arith) in
    let m1 = parsed k.mem a.random_str1 input i in
    let parse_done = parse-parsed a k input n i is small more first (omega (arith, apart1)) w in
    let loop =
      arg_loop-copied (n - (i + 1)) m1 input a.random_str2 (i + 1) 0
        (ground (arith, apart2, w.to)) in
    let no_space : (m1 input == 32) ≡ false = ground (arith, apart1, first, w.to) in
    (
      i,
      w,
      _,
      parse_done,
      rw (no_space, loop)
          (record {
            args = refl;
            index = refl;
            name = argued-name k.mem input a.random_str1 a.random_str2 n i w.to apart1 apart2 apart;
            name_end =
                argued-name_end k.mem input a.random_str1 a.random_str2 n i w.to apart1 apart2
                  apart;
            rest = argued-rest k.mem input a.random_str1 a.random_str2 n i w.to apart1 apart2 apart;
            rest_end =
                argued-rest_end k.mem input a.random_str1 a.random_str2 n i w.to apart1 apart2
                  apart;
          }),
    )
