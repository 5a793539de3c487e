-- ===== src/Programs/SysErr.antt =====
-- syscalls/ece391syserr.c: the tests of the errors that the system calls report.
use Prim.Native.String.{String}
use fireball_os.Base.{ℕ, zero, suc, ◌+◌, ◌-◌, ◌==◌, if◌then◌else◌, minus_one, u32, sub32}
use fireball_os.Programs.{Os, Run, ◌>>=◌, ◌>>◌, pure, peek, ece391_fdputs}

-- NEG_FD and NEG_NUM, and BIG_FD and BIG_NUM
abbrev pub neg_fd : ℕ
neg_fd = u32 - 1073741823

abbrev pub big_fd : ℕ
big_fd = 1073741823

-- Where the linker say the string constants is a parameter, and so are the addresses of the local
-- arrays.
module _ (os : Os) (text : String → ℕ) (buf : ℕ) where
  abbrev pub say : String → Run os (Unit {0})
  say s = ece391_fdputs os 1 (text s)

  -- `if (-1 != call) { fail = 2; fdputs (1, message); }`
  unfoldable pub expect_error : (call : Run os ℕ) (message : String) (fail : ℕ) → Run os ℕ
  expect_error call message fail = do
    r ← call
    if r == minus_one then pure fail else (say message >> pure 2)

  -- the end of each test
  unfoldable pub report : (failed passed : String) (fail : ℕ) → Run os ℕ
  report failed passed fail = (if fail == 0 then say passed else say failed) >> pure fail

  unfoldable pub err_neg_fd : Run os ℕ
  unfolding expect_error report
  err_neg_fd = do
    fail ← expect_error (os.ece391_read neg_fd buf 31) "read fail\n" 0
    fail ← expect_error (os.ece391_write neg_fd buf 31) "write fail\n" fail
    fail ← expect_error (os.ece391_close neg_fd) "close fail\n" fail
    report "err_neg_fd: FAIL\n" "err_neg_fd: PASS\n" fail

  unfoldable pub err_big_fd : Run os ℕ
  unfolding expect_error report
  err_big_fd = do
    fail ← expect_error (os.ece391_read big_fd buf 31) "read fail\n" 0
    fail ← expect_error (os.ece391_write big_fd buf 31) "write fail\n" fail
    fail ← expect_error (os.ece391_close big_fd) "close fail\n" fail
    report "err_big_fd: FAIL\n" "err_big_fd: PASS\n" fail

  -- a loop over the descriptors from `i` on, with `n` rounds left
  unfoldable pub each_fd : (n i : ℕ) → (ℕ → ℕ → Run os ℕ) → (acc : ℕ) → Run os ℕ
  each_fd zero i f acc = pure acc
  each_fd (suc n) i f acc = do acc' ← f i acc; each_fd n (i + 1) f acc'

  abbrev pub count_failure : ℕ → ℕ → Run os ℕ
  count_failure i cnt = do
    r ← os.ece391_open (text ".")
    pure (if r == minus_one then cnt + 1 else cnt)

  unfoldable pub err_open_lots : Run os ℕ
  unfolding each_fd
  err_open_lots = do
    cnt ← each_fd 7 0 count_failure 0
    each_fd 6 2 (λ i acc. os.ece391_close i >> pure acc) 0
    if cnt == 1
        then (say "err_open_lots: PASS\n" >> pure 0)
        else (say "err_open_lots: FAIL\n" >> pure 2)

  unfoldable pub err_open : Run os ℕ
  unfolding expect_error report
  err_open = do
    fail ← expect_error (os.ece391_open (text "helloo")) "'helloo' fail\n" 0
    fail ← expect_error (os.ece391_open (text "shel")) "'shel' fail\n" fail
    fail ← expect_error (os.ece391_open (text "")) "empty string fail\n" fail
    report "err_open: FAIL\n" "err_open: PASS\n" fail

  unfoldable pub err_unopened : Run os ℕ
  unfolding each_fd expect_error report
  err_unopened = do
    fail ←
        each_fd 8 0 (λ i. expect_error (os.ece391_close i) "close unopened or invalid fd fail\n") 0
    fail ←
        each_fd 6 2 (λ i. expect_error (os.ece391_read i buf 31) "read from unopened fd fail\n")
          fail
    fail ←
        each_fd 6 2 (λ i. expect_error (os.ece391_write i buf 31) "write to unopened fd fail\n")
          fail
    report "err_unopened: FAIL\n" "err_unopened: PASS\n" fail

  unfoldable pub err_vidmap : Run os ℕ
  unfolding expect_error report
  err_vidmap = do
    fail ← expect_error (os.ece391_vidmap 0) "Null pointer fail\n" 0
    fail ← expect_error (os.ece391_vidmap 0x40_0000) "Kernel pointer fail fail\n" fail
    report "err_vidmap: FAIL\n" "err_vidmap: PASS\n" fail

  unfoldable pub err_stdin_out : Run os ℕ
  unfolding expect_error report
  err_stdin_out = do
    fail ← expect_error (os.ece391_write 0 buf 31) "write to stdin fail\n" 0
    fail ← expect_error (os.ece391_read 1 buf 31) "read from stdout fail\n" fail
    report "err_stdin_out: FAIL\n" "err_stdin_out: PASS\n" fail

  unfoldable pub err_syscall_num : Run os ℕ
  unfolding expect_error report
  err_syscall_num = do
    fail ← expect_error (os.call_sys big_fd) "syscall 0 fail\n" 0
    fail ← expect_error (os.call_sys neg_fd) "big num syscall fail\n" fail
    fail ← expect_error (os.call_sys 0) "neg num syscall fail\n" fail
    report "err_syscall_num: FAIL\n" "err_syscall_num: PASS\n" fail

  -- the case of all tests
  unfoldable pub run_all : Run os ℕ
  unfolding err_neg_fd err_big_fd err_open_lots err_open err_unopened err_vidmap err_stdin_out
      err_syscall_num
  run_all = do
    a ← err_neg_fd
    b ← err_big_fd
    c ← err_open_lots
    d ← err_open
    e ← err_unopened
    f ← err_vidmap
    g ← err_stdin_out
    h ← err_syscall_num
    let fail = a + b + c + d + e + f + g + h
    (if fail == 0 then say "\nOverall Tests: PASS\n" else say "\nOverall Tests: FAIL\n")
    pure fail

  -- the `switch` over the test that is chosen
  unfoldable pub run_test : (select : ℕ) → Run os ℕ
  unfolding run_all
  run_test select =
      if select == 0
      then run_all
      else if select == 1
      then err_neg_fd
      else if select == 2
      then err_big_fd
      else if select == 3
      then err_open_lots
      else if select == 4
      then err_open
      else if select == 5
      then err_unopened
      else if select == 6
      then err_vidmap
      else if select == 7
      then err_stdin_out
      else if select == 8
      then err_syscall_num
      else (say "Invalid test number. Choose from tests 1-8 or 0" >> pure 0)

  -- `main`, with its own array at `line`
  unfoldable pub main : (line : ℕ) → Run os ℕ
  unfolding run_test
  main line = do
    say "Choose from tests 1-8. 0 to run all: "
    cnt ← os.ece391_read 0 line 127
    if cnt == minus_one
        then (say "Can't read test #\n" >> pure 2)
        else do c ← peek os line; run_test (sub32 c 48)
