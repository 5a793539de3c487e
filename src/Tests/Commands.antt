-- ===== src/Tests/Commands.antt =====
-- Opening the clock, and commands that start no program.
use fireball_os.Base.{
  ℕ, ◌*◌, ◌≡◌, inl, refl, ◌==◌, if◌then◌else◌, some, arith, ret_failure, ret_success,
}
use fireball_os.Memory.{Mem, load32, store}
use fireball_os.CString.{strlen}
use fireball_os.CString.Length.{strlen-some}
use fireball_os.FileSystem.{read_dentry_by_name, file_type}
use fireball_os.FileSystem.Lookup.{copied_entry}
use fireball_os.FileSystem.Names.{
  CanSearch, Matches, read_dentry_by_name-found, read_dentry_by_name-missing,
}
use fireball_os.Descriptors.{set_file, open_file, open_by_type, rtc_open}
use fireball_os.Descriptors.Slots.{open_file-lowest}
use fireball_os.Process.{Kernel, Addresses, returned, parse, parse_loop, get_arg, arg_loop, execute}
use fireball_os.Process.Lifecycle.{execute_missing}
use fireball_os.Tests.Disk.{disk, fs}
use fireball_os.Tests.Processes.{kernel, memory, two_files, two-IsLowest, clock_file}

-- the image in which the file is the clock
abbrev clock_disk : Mem
clock_disk a = if a == 65632 then 0 else disk a

clock-CanSearch : CanSearch fs clock_disk 100 200 1 (λ j. 1)
unfolding load32
clock-CanSearch = record {
  bytes = λ a. ground arith;
  name_given = omega arith;
  target_given = omega arith;
  name =
      strlen-some clock_disk 100 1 (record { nonzero = λ i lt. ground arith; terminated = refl })
        (omega arith);
  names = λ j lt.
      let zero_th : 64 * j ≡ 0 = omega arith in
      rw zero_th (
        strlen-some clock_disk 65600 1 (record { nonzero = λ i l. ground arith; terminated = refl })
          (omega arith));
}

abbrev clock_found : Mem
clock_found = copied_entry clock_disk 200 65600

clock-Matches : Matches fs clock_disk 100 1 (λ j. 1) 0
clock-Matches = (refl, λ j lt before. let z : j ≡ 0 = omega arith in rw z)

clock_lookup : read_dentry_by_name fs clock_disk 100 200 ≡ some (ret_success, clock_found)
unfolding load32
clock_lookup =
    read_dentry_by_name-found fs clock_disk 100 200 1 (λ j. 1) clock-CanSearch 0 (omega arith)
      (λ h lt. absurd (omega arith)) clock-Matches (inl (omega arith))

clock_opened :
    open_by_type fs 300 (file_type clock_found 200) (two_files 2) clock_found 100
    ≡ some (ret_success, clock_file, clock_found)
unfolding open_by_type rtc_open load32
clock_opened = refl

open_file-lowest_example :
    (open_file fs 200 300 two_files clock_disk 100
      ≡ some (2, set_file two_files 2 clock_file, clock_found))
    × (clock_file.flags ≡ 1)
open_file-lowest_example =
    open_file-lowest fs 200 300 two_files clock_disk clock_found clock_found 100 2 clock_file
      two-IsLowest clock_lookup clock_opened

abbrev pub addresses : Addresses
addresses = record {
  random_str1 = 500;
  random_str2 = 520;
  minus_one_str = 540;
  dentry_temp = 600;
  elf_check = 700;
  buf_temp = 710;
  load_dentry = 720;
}

-- after the command "b" has been copied
abbrev parsed : Kernel → Kernel
parsed k = record k { mem = store (store memory 500 98) 501 0; index = 1 }

command_length : strlen memory 300 ≡ some 1
command_length =
    strlen-some memory 300 1 (record { nonzero = λ i lt. ground arith; terminated = refl })
      (omega arith)

-- kernels with other process numbers taken
abbrev with_taken : ℕ → Kernel
with_taken o = record kernel { open_processes = o }

command_parsed : (o : ℕ) → parse addresses (with_taken o) 300 ≡ some (500, parsed (with_taken o))
unfolding parse parse_loop
command_parsed o = rw command_length refl

parsed_length : (o : ℕ) → strlen (parsed (with_taken o)).mem 300 ≡ some 1
unfolding store
parsed_length o =
    strlen-some (parsed (with_taken o)).mem 300 1
      (record { nonzero = λ i lt. ground arith; terminated = refl }) (omega arith)

-- what the look-up of the command works on
abbrev searched : Mem
searched = store (store (store memory 500 98) 501 0) 520 0

searched-CanSearch : CanSearch fs searched 500 600 1 (λ j. 1)
unfolding load32 store
searched-CanSearch = record {
  bytes = λ a. ground arith;
  name_given = omega arith;
  target_given = omega arith;
  name =
      strlen-some searched 500 1 (record { nonzero = λ i lt. ground arith; terminated = refl })
        (omega arith);
  names = λ j lt.
      let zero_th : 64 * j ≡ 0 = omega arith in
      rw zero_th (
        strlen-some searched 65600 1 (record { nonzero = λ i l. ground arith; terminated = refl })
          (omega arith));
}

searched_missing : read_dentry_by_name fs searched 500 600 ≡ some (ret_failure, searched)
unfolding load32 store
searched_missing =
    read_dentry_by_name-missing fs searched 500 600 1 (λ j. 1) searched-CanSearch
      (λ h lt hit.
        let z : h ≡ 0 = omega arith in
        let differ : 98 ≡ 97 = rw z at hit.1 0 (omega arith) (λ i l. absurd (omega arith)) in
        absurd (omega arith))

execute_missing_example :
    (k' : Kernel) × (execute addresses (with_taken 0x80) 300 10 20
      ≡ some (returned ret_failure, k'))
    × (k'.open_processes ≡ 0xc0)
unfolding get_arg arg_loop store
execute_missing_example =
    execute_missing addresses (with_taken 0x80) (parsed (with_taken 0x80)) 300 10 20 500 1 1
      searched (command_parsed 0x80) (parsed_length 0x80) searched_missing (omega arith)
      (omega arith) refl (λ j lt. let z : j ≡ 0 = omega arith in rw z)
