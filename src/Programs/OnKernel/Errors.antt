-- ===== src/Programs/OnKernel/Errors.antt =====
-- What the tests of syscalls/ece391syserr.c make of calls that the kernel refuses.
use fireball_os.Base.{
  ℕ, ◌<◌, ◌^◌, ◌≡◌, ◌≢◌, refl, ap, ◌∙◌, arith, ◌==◌, some, minus_one, true, false, is_negative, ltb,
  u32, ret_failure, not, ◌||◌,
}
use Prim.Native.String.{String}
use fireball_os.Memory.{Mem}
use fireball_os.CString.Length.{IsString, strlen-some}
use fireball_os.OpenFile.{stdout_jt, has_read, has_write}
use fireball_os.Paging.{Layout}
use fireball_os.Descriptors.{Files, select_read, select_write, refused, calls, close, bad_request}
use fireball_os.Terminal.{Terminals, terminal_write}
use fireball_os.Terminal.Writing.{CanWrite, terminal_write-CanWrite}
use fireball_os.Calls.{System, Waiting, files_of, write, call_write}
use fireball_os.Calls.Gate.{Entry, syscall_handler, jump_table}
use fireball_os.Programs.{Os, Run, ◌>>=◌, ece391_fdputs, ece391_strlen}
use fireball_os.Programs.SysErr.{expect_error, report, say}
use fireball_os.Programs.OnKernel.{Machine, on_write}
use fireball_os.Programs.OnKernel.Quiet.{
  os, Quiet, expect_error-Quiet, read-Quiet, write-Quiet, close-Quiet,
}

-- A string constant of `n` characters in the memory of the program.
pub record IsMessage (m : Mem) (at n : ℕ) : Type 0 where
  pub nonzero : at ≢ 0
  pub is_string : IsString m at n
  pub small : n < 2 ^ 31

-- Descriptor 1 is open for output, to a terminal that can be written to.
pub record CanTell (s : System) : Type 0 where
  pub used : (files_of s.kernel 1).flags ≢ 0
  pub is_output : (files_of s.kernel 1).file_op ≡ stdout_jt
  pub can : CanWrite (record s.terms { process_buf = (files_of s.kernel 1).file_pos })

select_write-output :
    (fds : Files) (at n : ℕ)
    → at ≢ 0
    → n < 2 ^ 31
    → (fds 1).flags ≢ 0
    → (fds 1).file_op ≡ stdout_jt
    → select_write fds 1 at n ≡ calls stdout_jt (fds 1)
unfolding select_write
select_write-output fds at n nonzero small used is_output =
    let good : bad_request 1 at n ≡ false = ground arith in
    let writable : has_write (fds 1).file_op ≡ true =
      ap has_write is_output ∙ (unfold has_write in refl) in
    let chosen : ((fds 1).flags == 0 || not (has_write (fds 1).file_op)) ≡ false =
      ground (arith, writable) in
    rw (good, chosen) (ap (λ j. calls j (fds 1)) is_output)

pub select_read-bad :
    (fds : Files) (fd at n : ℕ)
    → (bad_request fd at n || ((fds fd).flags == 0 || not (has_read (fds fd).file_op))) ≡ true
    → select_read fds fd at n ≡ refused
unfolding select_read
select_read-bad fds fd at n h = ground (arith, h)

pub select_write-bad :
    (fds : Files) (fd at n : ℕ)
    → (bad_request fd at n || ((fds fd).flags == 0 || not (has_write (fds fd).file_op))) ≡ true
    → select_write fds fd at n ≡ refused
unfolding select_write
select_write-bad fds fd at n h = ground (arith, h)

pub close-bad :
    (fds : Files) (fd : ℕ)
    → ((is_negative fd || ltb fd 2) || (ltb 7 fd || (fds fd).flags == 0)) ≡ true
    → close fds fd ≡ (ret_failure, fds)
unfolding close
close-bad fds fd h = rw h refl

module _ (l : Layout) (dentry frame : ℕ) (waits : ℕ → Waiting) (halt execute : Entry Machine)
    (system : System) (text : String → ℕ) (buf : ℕ) where
  abbrev pub machine : Os
  machine = os l dentry frame waits halt execute system text buf

  -- the state in which the terminals are `t`
  abbrev pub told : (t : Terminals) (reads : ℕ) → Machine
  told t reads = record { system = record system { terms = t }; reads = reads }

  pub say-told :
      (s : String) (n reads : ℕ)
      → CanTell system
      → IsMessage system.kernel.mem (text s) n
      → (t : Terminals) × (say machine text buf s (record { system = system; reads = reads })
          ≡ some (tt, told t reads))
        × (terminal_write system.kernel.mem system.terms (files_of system.kernel 1) (text s) n
            ≡ some (n, t))
        × CanWrite t
  unfolding ece391_fdputs ece391_strlen
  say-told s n reads tell is =
      let file = files_of system.kernel 1 in
      let below : n < u32 = omega (arith, is.small) in
      let (t, e, can) =
        terminal_write-CanWrite system.kernel.mem system.terms file (text s) n n is.is_string below
          tell.can in
      let chosen =
        select_write-output (files_of system.kernel) (text s) n is.nonzero is.small tell.used
          tell.is_output in
      let written : machine.ece391_write 1 (text s) n (record { system = system; reads = reads })
          ≡ some (n, told t reads) =
        unfold syscall_handler jump_table on_write write call_write in rw (chosen, e) refl in
      (
        t,
        rw (strlen-some system.kernel.mem (text s) n is.is_string below, written, ◌>>=◌) refl,
        e,
        can,
      )

  -- The test comes back with 0, has printed the message of `n` characters, and has changed nothing but
  -- the terminals and the number of reads.
  abbrev pub Prints : (test : Run machine ℕ) (message : String) (n reads : ℕ) → Type 0
  Prints test message n reads =
      (reads' : ℕ) × (t : Terminals) × (test (record { system = system; reads = reads })
        ≡ some (0, told t reads'))
      × (terminal_write system.kernel.mem system.terms (files_of system.kernel 1) (text message) n
          ≡ some (n, t))
      × CanWrite t

  abbrev pub Passes : (test : Run machine ℕ) (message : String) → Type 0
  Passes test message =
      (n reads : ℕ) → IsMessage system.kernel.mem (text message) n → Prints test message n reads

  pub report-Passes :
      (failed passed : String)
      → CanTell system
      → Passes (report machine text buf failed passed 0) passed
  unfolding report
  report-Passes failed passed tell n reads is =
      let (t, e, shown, can) = say-told passed n reads tell is in
      (reads, t, rw (e, ◌>>=◌) refl, shown, can)

  pub >>=-Passes :
      (p : Run machine ℕ) (f : ℕ → Run machine ℕ) (r : ℕ) (message : String)
      → Quiet l dentry frame waits halt execute system text buf p r
      → Passes (f r) message
      → Passes (p >>= f) message
  >>=-Passes p f r message quiet passes n reads is =
      let (k, e) = quiet reads in
      let (reads', t, e', shown, can) = passes n k is in (reads', t, rw (e, ◌>>=◌) e', shown, can)

  abbrev pub Refused : Run machine ℕ → Type 0
  Refused call = Quiet l dentry frame waits halt execute system text buf call minus_one

  -- what the tests make of a call that is refused, with the rest of the test behind it
  refused-Passes :
      (call : Run machine ℕ) (m : String) (f : ℕ → Run machine ℕ) (message : String)
      → Refused call
      → Passes (f 0) message
      → Passes (expect_error machine text buf call m 0 >>= f) message
  refused-Passes call m f message quiet =
      >>=-Passes (expect_error machine text buf call m 0) f 0 message
        (expect_error-Quiet l dentry frame waits halt execute system text buf call m 0 quiet)

  -- two calls that are refused, and the report
  pub two-Passes :
      (c d : Run machine ℕ) (m m' failed passed : String)
      → CanTell system
      → Refused c
      → Refused d
      → Passes
          (expect_error machine text buf c m 0 >>= λ fail.
            (expect_error machine text buf d m' fail >>= λ fail.
            report machine text buf failed passed fail))
          passed
  two-Passes c d m m' failed passed tell hc hd =
      refused-Passes c m
        (λ fail.
          (expect_error machine text buf d m' fail >>= λ fail.
          report machine text buf failed passed fail))
        passed hc
        (refused-Passes d m' (λ fail. report machine text buf failed passed fail) passed hd
          (report-Passes failed passed tell))

  pub three-Passes :
      (b c d : Run machine ℕ) (m m' m'' failed passed : String)
      → CanTell system
      → Refused b
      → Refused c
      → Refused d
      → Passes
          (expect_error machine text buf b m 0 >>= λ fail.
            (expect_error machine text buf c m' fail >>= λ fail.
            (expect_error machine text buf d m'' fail >>= λ fail.
            report machine text buf failed passed fail)))
          passed
  three-Passes b c d m m' m'' failed passed tell hb hc hd =
      refused-Passes b m
        (λ fail.
          (expect_error machine text buf c m' fail >>= λ fail.
          (expect_error machine text buf d m'' fail >>= λ fail.
          report machine text buf failed passed fail)))
        passed hb (two-Passes c d m' m'' failed passed tell hc hd)

  abbrev pub quiet_read :
      (fd at nbytes : ℕ)
      → select_read (files_of system.kernel) fd at nbytes ≡ refused
      → Refused (machine.ece391_read fd at nbytes)
  quiet_read = read-Quiet l dentry frame waits halt execute system text buf

  abbrev pub quiet_write :
      (fd at nbytes : ℕ)
      → select_write (files_of system.kernel) fd at nbytes ≡ refused
      → Refused (machine.ece391_write fd at nbytes)
  quiet_write = write-Quiet l dentry frame waits halt execute system text buf

  abbrev pub quiet_close :
      (fd : ℕ)
      → close (files_of system.kernel) fd ≡ (ret_failure, files_of system.kernel)
      → Refused (machine.ece391_close fd)
  quiet_close = close-Quiet l dentry frame waits halt execute system text buf
