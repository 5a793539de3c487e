-- ===== src/Programs/OnKernel/Refusing.antt =====
-- Single tests of syscalls/ece391syserr.c on the kernel, of descriptors, addresses and numbers.
use fireball_os.Base.{
  ℕ, ◌≤◌, ◌<◌, ◌^◌, ◌≡◌, ◌⊎◌, inl, inr, refl, ap, ◌∙◌, arith, true, false, is_negative, ltb, ◌||◌,
}
use Prim.Native.String.{String}
use fireball_os.OpenFile.{has_read, has_write}
use fireball_os.Paging.{Layout}
use fireball_os.Calls.{System, Waiting, files_of, vidmap}
use fireball_os.Calls.Gate.{Entry, syscall_handler, jump_table}
use fireball_os.Programs.{Os, ◌>>=◌}
use fireball_os.Programs.SysErr.{
  neg_fd, big_fd, expect_error, report, err_neg_fd, err_big_fd, err_vidmap, err_stdin_out,
  err_syscall_num,
}
use fireball_os.Programs.OnKernel.{Machine, on_vidmap}
use fireball_os.Programs.OnKernel.Errors.{
  CanTell, Refused, Passes, machine, two-Passes, three-Passes, quiet_read, quiet_write, quiet_close,
  select_read-bad, select_write-bad, close-bad,
}

module _ (l : Layout) (dentry frame : ℕ) (waits : ℕ → Waiting) (halt execute : Entry Machine)
    (system : System) (text : String → ℕ) (buf : ℕ) where
  abbrev here : Os
  here = machine l dentry frame waits halt execute system text buf

  bad_fd-Passes :
      (fd : ℕ) (failed passed : String)
      → (is_negative fd || ltb 7 fd) ≡ true
      → CanTell system
      → Passes l dentry frame waits halt execute system text buf
          (expect_error here text buf (here.ece391_read fd buf 31) "read fail\n" 0 >>= λ fail.
            (expect_error here text buf (here.ece391_write fd buf 31) "write fail\n" fail
              >>= λ fail.
                  (expect_error here text buf (here.ece391_close fd) "close fail\n" fail >>= λ fail.
                  report here text buf failed passed fail)))
          passed
  bad_fd-Passes fd failed passed bad tell =
      three-Passes l dentry frame waits halt execute system text buf (here.ece391_read fd buf 31)
        (here.ece391_write fd buf 31) (here.ece391_close fd) "read fail\n" "write fail\n"
        "close fail\n" failed passed tell
        (quiet_read l dentry frame waits halt execute system text buf fd buf 31
          (select_read-bad (files_of system.kernel) fd buf 31 (rw bad refl)))
        (quiet_write l dentry frame waits halt execute system text buf fd buf 31
          (select_write-bad (files_of system.kernel) fd buf 31 (rw bad refl)))
        (quiet_close l dentry frame waits halt execute system text buf fd
          (close-bad (files_of system.kernel) fd (ground (arith, bad))))

  pub err_neg_fd-Passes :
      CanTell system
      → Passes l dentry frame waits halt execute system text buf
          (err_neg_fd here text buf)
          "err_neg_fd: PASS\n"
  unfolding err_neg_fd
  err_neg_fd-Passes = bad_fd-Passes neg_fd "err_neg_fd: FAIL\n" "err_neg_fd: PASS\n" refl

  pub err_big_fd-Passes :
      CanTell system
      → Passes l dentry frame waits halt execute system text buf
          (err_big_fd here text buf)
          "err_big_fd: PASS\n"
  unfolding err_big_fd
  err_big_fd-Passes = bad_fd-Passes big_fd "err_big_fd: FAIL\n" "err_big_fd: PASS\n" refl

  pub err_stdin_out-Passes :
      CanTell system
      → has_write (files_of system.kernel 0).file_op ≡ false
      → Passes l dentry frame waits halt execute system text buf
          (err_stdin_out here text buf)
          "err_stdin_out: PASS\n"
  unfolding err_stdin_out
  err_stdin_out-Passes tell input =
      let unread : has_read (files_of system.kernel 1).file_op ≡ false =
        ap has_read tell.is_output ∙ (unfold has_read in refl) in
      two-Passes l dentry frame waits halt execute system text buf (here.ece391_write 0 buf 31)
        (here.ece391_read 1 buf 31) "write to stdin fail\n" "read from stdout fail\n"
        "err_stdin_out: FAIL\n" "err_stdin_out: PASS\n" tell
        (quiet_write l dentry frame waits halt execute system text buf 0 buf 31
          (select_write-bad (files_of system.kernel) 0 buf 31 (ground (arith, input))))
        (quiet_read l dentry frame waits halt execute system text buf 1 buf 31
          (select_read-bad (files_of system.kernel) 1 buf 31 (ground (arith, unread))))

  number_refused :
      (n : ℕ)
      → ((2 ^ 31 ≤ n) ⊎ ((n ≡ 0) ⊎ (10 < n)))
      → Refused l dentry frame waits halt execute system text buf (here.call_sys n)
  unfolding syscall_handler
  number_refused n bad reads = (reads, ground (arith, bad))

  pub err_syscall_num-Passes :
      CanTell system
      → Passes l dentry frame waits halt execute system text buf
          (err_syscall_num here text buf)
          "err_syscall_num: PASS\n"
  unfolding err_syscall_num
  err_syscall_num-Passes tell =
      three-Passes l dentry frame waits halt execute system text buf (here.call_sys big_fd)
        (here.call_sys neg_fd) (here.call_sys 0) "syscall 0 fail\n" "big num syscall fail\n"
        "neg num syscall fail\n" "err_syscall_num: FAIL\n" "err_syscall_num: PASS\n" tell
        (number_refused big_fd (inr (inr (omega arith))))
        (number_refused neg_fd (inl (omega arith))) (number_refused 0 (inr (inl refl)))

  vidmap_refused :
      (at : ℕ)
      → at < 0x800_0000
      → Refused l dentry frame waits halt execute system text buf (here.ece391_vidmap at)
  unfolding syscall_handler jump_table on_vidmap vidmap
  vidmap_refused at low reads = (reads, ground (arith, low))

  pub err_vidmap-Passes :
      CanTell system
      → Passes l dentry frame waits halt execute system text buf
          (err_vidmap here text buf)
          "err_vidmap: PASS\n"
  unfolding err_vidmap
  err_vidmap-Passes tell =
      two-Passes l dentry frame waits halt execute system text buf (here.ece391_vidmap 0)
        (here.ece391_vidmap 0x40_0000) "Null pointer fail\n" "Kernel pointer fail fail\n"
        "err_vidmap: FAIL\n" "err_vidmap: PASS\n" tell (vidmap_refused 0 (omega arith))
        (vidmap_refused 0x40_0000 (omega arith))
