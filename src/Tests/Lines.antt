-- ===== src/Tests/Lines.antt =====
-- The command line "ls a", and its argument.
use fireball_os.Base.{
  ℕ, ◌+◌, ◌-◌, ◌≡◌, refl, arith, ◌==◌, if◌then◌else◌, some, inl, inr, ret_success,
}
use fireball_os.Memory.{Mem}
use fireball_os.Memory.Copy.{within}
use fireball_os.CString.Length.{IsString}
use fireball_os.Process.{Kernel, Addresses, parse, get_arg}
use fireball_os.Process.Arguments.{IsWord, IsTakenApart, parse-get_arg}
use fireball_os.Calls.{getargs}
use fireball_os.Calls.Arguments.{getargs-copied}
use fireball_os.Tests.Processes.{kernel}

-- the line at 2000
abbrev line : Mem
line a =
    if a == 2000
    then 108
    else if a == 2001
    then 115
    else if a == 2002
    then 32
    else if a == 2003
    then 97
    else 0

line-IsString : IsString line 2000 4
line-IsString = record { nonzero = λ i lt. ground arith; terminated = refl }

abbrev literals : Addresses
literals = record {
  random_str1 = 100;
  random_str2 = 200;
  minus_one_str = 300;
  dentry_temp = 400;
  elf_check = 500;
  buf_temp = 600;
  load_dentry = 700;
}

abbrev typed : Kernel
typed = record kernel { mem = line; args = 2000 }

parse-get_arg_example :
    (i : ℕ) × IsWord line 2000 4 0 i
    × (k1 : Kernel) × (parse literals typed 2000 ≡ some (100, k1))
    × IsTakenApart literals typed 2000 4 i (get_arg literals k1 2000 4)
parse-get_arg_example =
    parse-get_arg literals typed 2000 4 line-IsString (omega arith) (omega arith) (omega arith)
      (inl (omega arith)) (inl (omega arith)) (inl (omega arith))

-- a buffer of two bytes
getargs-copied_example :
    (m : Mem) × (getargs typed 3000 2 ≡ some (ret_success, record typed { mem = m }))
    × ((a : ℕ)
        → m a ≡ (
            if within 3000 4 a
            then line (2000 + (a - 3000))
            else if within 3000 2 a
            then 0
            else line a))
getargs-copied_example =
    getargs-copied typed 3000 2 4 line-IsString (omega arith) (inr (omega arith))
      (inr (omega arith))
