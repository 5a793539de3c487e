-- ===== src/Programs.antt =====
-- syscalls/ece391support.c and the calls of syscalls/ece391syscall.h: what the programs of the directory
-- syscalls are written with. A program is a step on the state of the operating system below it, which
-- is a parameter; an access or a loop that does not end is `none`.
pub mod SysErr
pub mod Files
pub mod Talk
pub mod Compare
pub mod OnKernel
use Prim.Native.Char.{code}
use Prim.Native.String.{String}
use fireball_os.Base.{
  ℕ, zero, suc, ◌+◌, ◌-◌, ◌==◌, if◌then◌else◌, ltb, Bool, true, false, not, ◌&&◌, ◌||◌, Option,
  none, some, List, [], ◌∷◌, u32, sub32,
}
use fireball_os.Memory.{Mem, store}
use fireball_os.CString.{strlen, strcpy, itoa}

abbrev pub Prog : Type 0 → Type 0 → Type 0
Prog S A = S → Option (A × S)

infixl 5 ◌>>=◌ ◌>>◌
abbrev pub ◌>>=◌ : {S A B : Type 0} → Prog S A → (A → Prog S B) → Prog S B
◌>>=◌ p f s = elim (p s) [ none ↦ none | some r ↦ f r.0 r.1 ]

abbrev pub ◌>>◌ : {S A B : Type 0} → Prog S A → Prog S B → Prog S B
p >> q = p >>= λ _. q

abbrev pub pure : {S A : Type 0} → A → Prog S A
pure a s = some (a, s)

-- a part of a program that may have no result
abbrev pub lift : {S A : Type 0} → Option A → Prog S A
lift none s = none
lift (some a) s = some (a, s)

abbrev pub when : {S : Type 0} → Bool → Prog S (Unit {0}) → Prog S (Unit {0})
when true p = p
when false p = pure tt

-- The operating system: its state, the memory of the program in it, and the calls, with -1 as
-- 2 ^ 32 - 1. `call_sys` is of syscalls/ece391syserr.c.
pub record Os : Type 1 where
  pub State : Type 0
  pub mem : State → Mem
  pub with_mem : Mem → State → State
  pub ece391_open : (filename : ℕ) → Prog State ℕ
  pub ece391_read : (fd buf nbytes : ℕ) → Prog State ℕ
  pub ece391_write : (fd buf nbytes : ℕ) → Prog State ℕ
  pub ece391_close : (fd : ℕ) → Prog State ℕ
  pub ece391_getargs : (buf nbytes : ℕ) → Prog State ℕ
  pub ece391_execute : (command : ℕ) → Prog State ℕ
  pub ece391_vidmap : (screen_start : ℕ) → Prog State ℕ
  pub call_sys : (num : ℕ) → Prog State ℕ

-- the bytes of a string constant, less the terminator
abbrev pub codes : String → List ℕ
codes String.[] = []
codes (String.◌∷◌ c s) = code c ∷ codes s

-- the loop of `ece391_strcmp`; the difference of two bytes is an `int32_t`
unfoldable pub strcmp_loop : ℕ → Mem → (s1 s2 i : ℕ) → Option ℕ
strcmp_loop zero m s1 s2 i = none
strcmp_loop (suc f) m s1 s2 i = elim (m (s1 + i) == m (s2 + i)) [
  | false ↦ some (sub32 (m (s1 + i)) (m (s2 + i)))
  | true ↦ elim (m (s1 + i) == 0) [ true ↦ some 0 | false ↦ strcmp_loop f m s1 s2 (i + 1) ]
]

unfoldable pub ece391_strcmp : Mem → (s1 s2 : ℕ) → Option ℕ
unfolding strcmp_loop
ece391_strcmp m s1 s2 = strcmp_loop u32 m s1 s2 0

-- the loop of `ece391_strncmp`, with `n` as it is before the round
unfoldable pub strncmp_loop : (n : ℕ) → Mem → (s1 s2 i : ℕ) → ℕ
strncmp_loop zero m s1 s2 i = 0
strncmp_loop (suc n) m s1 s2 i =
    let rest = strncmp_loop n m s1 s2 (i + 1) in
    if not (m (s1 + i) == m (s2 + i))
    then sub32 (m (s1 + i)) (m (s2 + i))
    else if m (s1 + i) == 0 || n == 0
    then 0
    else rest

unfoldable pub ece391_strncmp : Mem → (s1 s2 n : ℕ) → ℕ
unfolding strncmp_loop
ece391_strncmp m s1 s2 n = strncmp_loop n m s1 s2 0

module _ (os : Os) where
  abbrev pub Run : Type 0 → Type 0
  Run A = Prog os.State A

  -- the memory of the program
  abbrev pub peek : (at : ℕ) → Run ℕ
  peek at s = some (os.mem s at, s)

  abbrev pub poke : (at c : ℕ) → Run (Unit {0})
  poke at c s = some (tt, os.with_mem (store (os.mem s) at c) s)

  -- The routine has the loop of the kernel's `strlen`.
  unfoldable pub ece391_strlen : (s : ℕ) → Run ℕ
  ece391_strlen s st = lift (strlen (os.mem st) s) st

  -- the number of characters that `fdputs` hands on is not compared with what is written
  unfoldable pub ece391_fdputs : (fd s : ℕ) → Run (Unit {0})
  unfolding ece391_strlen
  ece391_fdputs fd s = do n ← ece391_strlen s; os.ece391_write fd s n >> pure tt

  -- The routines copy as the kernel's `strcpy` and `itoa` do.
  unfoldable pub ece391_strcpy : (dst src : ℕ) → Run (Unit {0})
  ece391_strcpy dst src s =
      (lift (strcpy (os.mem s) dst src) >>= λ m s. some (tt, os.with_mem m s)) s

  unfoldable pub ece391_itoa : (value buf radix : ℕ) → Run (Unit {0})
  ece391_itoa value buf radix s =
      (lift (itoa (os.mem s) value buf radix) >>= λ m s. some (tt, os.with_mem m s)) s
