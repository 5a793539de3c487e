-- ===== src/Programs/OnKernel/Passing.antt =====
-- The tests of syscalls/ece391syserr.c that the kernel passes.
use fireball_os.Base.{some, ret_failure, ℕ, ◌+◌, ◌≤◌, ◌<◌, ◌≡◌, arith, false}
use Prim.Native.String.{String}
use fireball_os.OpenFile.{has_write}
use fireball_os.Paging.{Layout}
use fireball_os.Calls.{System, Waiting, files_of}
use fireball_os.Calls.Gate.{Entry}
use fireball_os.Programs.{Os, Run, ◌>>=◌}
use fireball_os.FileSystem.{read_dentry_by_name}
use fireball_os.Programs.SysErr.{err_open, expect_error, each_fd, report, err_unopened, run_test}
use fireball_os.Programs.OnKernel.{Machine}
use fireball_os.Programs.OnKernel.Errors.{
  CanTell, IsMessage, Prints, Refused, Passes, machine, three-Passes, >>=-Passes, report-Passes,
  quiet_read, quiet_write, quiet_close, select_read-bad, select_write-bad, close-bad,
}
use fireball_os.Programs.OnKernel.Refusing.{
  err_neg_fd-Passes, err_big_fd-Passes, err_stdin_out-Passes, err_vidmap-Passes,
  err_syscall_num-Passes,
}
use fireball_os.Programs.OnKernel.Quiet.{open-Quiet, Quiet, each_fd-Quiet, expect_error-Quiet}

-- the tests whose calls are all refused
pub data Refusal : Type 0 where
  negative large names unopened addresses directions numbers : Refusal

abbrev pub number : Refusal → ℕ
number negative = 1
number large = 2
number names = 4
number unopened = 5
number addresses = 6
number directions = 7
number numbers = 8

abbrev pub message : Refusal → String
message negative = "err_neg_fd: PASS\n"
message large = "err_big_fd: PASS\n"
message names = "err_open: PASS\n"
message unopened = "err_unopened: PASS\n"
message addresses = "err_vidmap: PASS\n"
message directions = "err_stdin_out: PASS\n"
message numbers = "err_syscall_num: PASS\n"

module _ (l : Layout) (dentry frame : ℕ) (waits : ℕ → Waiting) (halt execute : Entry Machine)
    (system : System) (text : String → ℕ) (buf : ℕ) where
  abbrev here : Os
  here = machine l dentry frame waits halt execute system text buf

  -- no descriptor from 2 on is open
  abbrev pub NoneOpen : Type 0
  NoneOpen = (i : ℕ) → 2 ≤ i → i < 8 → (files_of system.kernel i).flags ≡ 0

  -- a loop over descriptors whose calls are all refused
  abbrev each_refused : (n i : ℕ) (call : ℕ → Run here ℕ) (words : String) → ℕ → Run here ℕ
  each_refused n i call words =
      each_fd here text buf n i (λ j. expect_error here text buf (call j) words)

  each_refused-Quiet :
      (n i : ℕ) (call : ℕ → Run here ℕ) (words : String) (fail : ℕ)
      → ((j : ℕ)
          → i ≤ j
          → j < i + n
          → Refused l dentry frame waits halt execute system text buf (call j))
      → Quiet l dentry frame waits halt execute system text buf
          (each_refused n i call words fail)
          fail
  each_refused-Quiet n i call words fail refuses =
      each_fd-Quiet l dentry frame waits halt execute system text buf n i
        (λ j. expect_error here text buf (call j) words) fail
        (λ j le lt.
          expect_error-Quiet l dentry frame waits halt execute system text buf (call j) words fail
            (refuses j le lt))

  err_unopened-Passes :
      CanTell system
      → NoneOpen
      → Passes l dentry frame waits halt execute system text buf
          (err_unopened here text buf)
          "err_unopened: PASS\n"
  unfolding err_unopened
  err_unopened-Passes tell closed =
      let fds = files_of system.kernel in
      let passed : String = "err_unopened: PASS\n" in
      let finish : ℕ → Run here ℕ = report here text buf "err_unopened: FAIL\n" passed in
      let closing = each_refused 8 0 here.ece391_close "close unopened or invalid fd fail\n" in
      let reading =
        each_refused 6 2 (λ j. here.ece391_read j buf 31) "read from unopened fd fail\n" in
      let writing =
        each_refused 6 2 (λ j. here.ece391_write j buf 31) "write to unopened fd fail\n" in
      let then_write : ℕ → Run here ℕ = λ fail. (writing fail >>= finish) in
      >>=-Passes l dentry frame waits halt execute system text buf (closing 0)
        (λ fail. (reading fail >>= then_write)) 0 passed
        (each_refused-Quiet 8 0 here.ece391_close "close unopened or invalid fd fail\n" 0
          (λ j le lt.
            quiet_close l dentry frame waits halt execute system text buf j
              (close-bad fds j (ground (arith, closed j)))))
        (>>=-Passes l dentry frame waits halt execute system text buf (reading 0) then_write 0
          passed
          (each_refused-Quiet 6 2 (λ j. here.ece391_read j buf 31) "read from unopened fd fail\n" 0
            (λ j le lt.
              quiet_read l dentry frame waits halt execute system text buf j buf 31
                (select_read-bad fds j buf 31 (ground (arith, closed j)))))
          (>>=-Passes l dentry frame waits halt execute system text buf (writing 0) finish 0 passed
            (each_refused-Quiet 6 2 (λ j. here.ece391_write j buf 31) "write to unopened fd fail\n"
              0
              (λ j le lt.
                quiet_write l dentry frame waits halt execute system text buf j buf 31
                  (select_write-bad fds j buf 31 (ground (arith, closed j)))))
            (report-Passes l dentry frame waits halt execute system text buf "err_unopened: FAIL\n"
              passed tell)))

  abbrev pub IsMissing : (filename : ℕ) → Type 0
  IsMissing filename =
      read_dentry_by_name system.kernel.fs system.kernel.mem filename dentry
      ≡ some (ret_failure, system.kernel.mem)

  -- none of the three names is found
  abbrev pub AreMissing : Type 0
  AreMissing = IsMissing (text "helloo") × IsMissing (text "shel") × IsMissing (text "")

  err_open-Passes :
      CanTell system
      → AreMissing
      → Passes l dentry frame waits halt execute system text buf
          (err_open here text buf)
          "err_open: PASS\n"
  unfolding err_open
  err_open-Passes tell missing =
      let quiet_open = open-Quiet l dentry frame waits halt execute system text buf in
      three-Passes l dentry frame waits halt execute system text buf
        (here.ece391_open (text "helloo")) (here.ece391_open (text "shel"))
        (here.ece391_open (text "")) "'helloo' fail\n" "'shel' fail\n" "empty string fail\n"
        "err_open: FAIL\n" "err_open: PASS\n" tell (quiet_open (text "helloo") missing.0)
        (quiet_open (text "shel") missing.1) (quiet_open (text "") missing.2)

  -- A test of `syserr` whose calls the kernel refuses, 1, 2, 4, 5, 6, 7 or 8 (of negative and of large descriptors, of names that are missing, of
  -- closed descriptors, of addresses for `vidmap`, of the directions of standard input and output, of
  -- the numbers of calls), on the kernel: when descriptor 1 is open for output to a terminal that can
  -- be written to, descriptor 0 is one that has no write, the others are closed, the look-up of each of the three names fails, and the message that
  -- the test is passed is a string in memory, the test comes to an end and returns 0, and has changed
  -- nothing but the terminals, to which it has printed that message, and the number of reads.
  pub run_test-Prints :
      (test : Refusal) (n reads : ℕ)
      → CanTell system
      → has_write (files_of system.kernel 0).file_op ≡ false
      → NoneOpen
      → AreMissing
      → IsMessage system.kernel.mem (text (message test)) n
      → Prints l dentry frame waits halt execute system text buf
          (run_test here text buf (number test))
          (message test)
          n
          reads
  unfolding run_test
  run_test-Prints negative n reads tell input closed missing is =
      err_neg_fd-Passes l dentry frame waits halt execute system text buf tell n reads is
  run_test-Prints large n reads tell input closed missing is =
      err_big_fd-Passes l dentry frame waits halt execute system text buf tell n reads is
  run_test-Prints names n reads tell input closed missing is =
      err_open-Passes tell missing n reads is
  run_test-Prints unopened n reads tell input closed missing is =
      err_unopened-Passes tell closed n reads is
  run_test-Prints addresses n reads tell input closed missing is =
      err_vidmap-Passes l dentry frame waits halt execute system text buf tell n reads is
  run_test-Prints directions n reads tell input closed missing is =
      err_stdin_out-Passes l dentry frame waits halt execute system text buf tell input n reads is
  run_test-Prints numbers n reads tell input closed missing is =
      err_syscall_num-Passes l dentry frame waits halt execute system text buf tell n reads is
