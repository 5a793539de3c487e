-- ===== src/Tests/Running.antt =====
-- A program of syscalls/ece391syserr.c that runs on the kernel, and numbers that are printed.
use fireball_os.Base.{
  ℕ, ◌+◌, ◌-◌, ◌≡◌, refl, arith, ◌==◌, not, if◌then◌else◌, ltb, none, some, List, [], ◌∷◌,
  passes_below, passes-passes_below, true, ret_failure,
}
use fireball_os.Memory.{Mem, load32}
use fireball_os.FileSystem.{read_dentry_by_name, dentry_loop}
use fireball_os.Tests.Disk.{fs}
use fireball_os.CString.{itoa, strlen}
use fireball_os.CString.Numeral.{IsNumeral, itoa-IsNumeral}
use fireball_os.Descriptors.{init_files}
use fireball_os.OpenFile.{has_write}
use fireball_os.Calls.{System}
use fireball_os.Calls.Gate.{Entry}
use fireball_os.Programs.{codes}
use fireball_os.Programs.SysErr.{run_test}
use fireball_os.Programs.OnKernel.{Machine}
use fireball_os.Programs.OnKernel.Errors.{IsMessage, CanTell, Prints, machine}
use fireball_os.Programs.OnKernel.Passing.{addresses, number, message, run_test-Prints}
use fireball_os.Tests.Calling.{system, no_wait}
use fireball_os.Tests.Pages.{layout}
use fireball_os.Tests.Processes.{two_files}

abbrev nth : List ℕ → ℕ → ℕ
nth [] i = 0
nth (c ∷ cs) i = if i == 0 then c else nth cs (i - 1)

-- the message at 300
abbrev printed : Mem
printed a = if ltb a 300 then 0 else nth (codes "err_vidmap: PASS\n") (a - 300)

abbrev running : System
running = record system {
  kernel = record system.kernel {
    mem = printed;
    pcbs = λ p. record (system.kernel.pcbs p) { file_fds = two_files };
  };
}

running-CanTell : CanTell running
unfolding init_files
running-CanTell = record {
  used = omega arith;
  is_output = refl;
  can = record {
    known = omega arith;
    written = (0, refl);
    shown_known = omega arith;
    shown = (0, refl);
    cursor = record { column = omega arith; row = omega arith };
  };
}

letters : passes_below 17 (λ i. not (printed (300 + i) == 0)) ≡ true
unfolding passes_below
letters = refl

printed-IsMessage : IsMessage printed 300 17
printed-IsMessage = record {
  nonzero = omega arith;
  is_string = record {
    nonzero = λ i lt.
        ground (arith, passes-passes_below 17 (λ i. not (printed (300 + i) == 0)) i letters lt);
    terminated = refl;
  };
  small = omega arith;
}

-- there are no entries in this memory
no_name : read_dentry_by_name fs printed 300 200 ≡ some (ret_failure, printed)
unfolding read_dentry_by_name strlen dentry_loop load32
no_name = refl

abbrev nothing : Entry Machine
nothing ebx ecx edx s = none

run_test-Prints_example :
    Prints layout 200 400
      (λ reads. no_wait)
      nothing
      nothing
      running
      (λ s. 300)
      500
      (run_test
        (machine layout 200 400 (λ reads. no_wait) nothing nothing running (λ s. 300) 500)
        (λ s. 300)
        500
        (number addresses))
      (message addresses)
      17
      0
unfolding init_files has_write
run_test-Prints_example =
    run_test-Prints layout 200 400 (λ reads. no_wait) nothing nothing running (λ s. 300) 500
      addresses 17 0 running-CanTell refl (λ i lo hi. ground arith) (no_name, no_name, no_name)
      printed-IsMessage

abbrev zeros : Mem
zeros a = 0

-- 255 in the digits of radix 16
itoa-IsNumeral_example :
    (k : ℕ) × (m' : Mem) × (itoa zeros 255 100 16 ≡ some m') × IsNumeral zeros 255 100 16 k m'
itoa-IsNumeral_example = itoa-IsNumeral zeros 255 100 16 (omega arith) (omega arith) (omega arith)
