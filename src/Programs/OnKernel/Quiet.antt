-- ===== src/Programs/OnKernel/Quiet.antt =====
-- Calls on the kernel that leave everything as it was but for the number of reads.
use fireball_os.Base.{
  Bool-cases, inl, inr, ltb, ℕ, zero, suc, ◌+◌, ◌≤◌, ◌<◌, ◌≡◌, refl, ap, fun_ext, arith, some,
  minus_one, ret_failure,
}
use native.Mathlib.Decide.{ℕ_discrete}
use fireball_os.Paging.{Layout}
use fireball_os.Process.{Kernel, set_pcb}
use fireball_os.FileSystem.{read_dentry_by_name}
use fireball_os.Descriptors.{open_file, find_slot, select_read, select_write, refused, close}
use fireball_os.Calls.{System, Waiting, files_of, read, call_read, write, call_write}
use fireball_os.Calls.Gate.{Entry, syscall_handler, jump_table}
use fireball_os.Programs.{Os, Run, ◌>>=◌}
use fireball_os.Programs.SysErr.{expect_error, each_fd}
use fireball_os.Programs.OnKernel.{
  Machine, kernel_os, on_read, on_write, on_close, on_open, set_files, set_kernel,
}
use Prim.Native.String.{String}

set_files-same : (k : Kernel) → set_files k (files_of k) ≡ k
set_files-same k =
    let same : set_pcb k.pcbs k.curr_process (k.pcbs k.curr_process) ≡ k.pcbs = fun_ext (λ p.
      elim (ℕ_discrete p k.curr_process) [
        | yes here ↦ rw here (ground arith)
        | no other ↦ ground (arith, other)
      ]) in
    ap (λ pcbs. record k { pcbs = pcbs }) same

module _ (l : Layout) (dentry frame : ℕ) (waits : ℕ → Waiting) (halt execute : Entry Machine)
    (system : System) (text : String → ℕ) (buf : ℕ) where
  abbrev pub os : Os
  os = kernel_os l dentry frame waits halt execute

  -- the state in which `reads` calls of `read` have been made
  abbrev pub after : ℕ → Machine
  after reads = record { system = system; reads = reads }

  -- the part of a program comes back with the value and has changed nothing but the number of reads
  abbrev pub Quiet : (p : Run os ℕ) (r : ℕ) → Type 0
  Quiet p r = (reads : ℕ) → (reads' : ℕ) × (p (after reads) ≡ some (r, after reads'))

  pub >>=-Quiet :
      (p : Run os ℕ) (f : ℕ → Run os ℕ) (r r' : ℕ) → Quiet p r → Quiet (f r) r' → Quiet (p >>= f) r'
  >>=-Quiet p f r r' hp hf reads =
      let (n, e) = hp reads in let (n', e') = hf n in (n', rw (e, ◌>>=◌) e')

  pub each_fd-Quiet :
      (n i : ℕ) (f : ℕ → ℕ → Run os ℕ) (acc : ℕ)
      → ((j : ℕ) → i ≤ j → j < i + n → Quiet (f j acc) acc)
      → Quiet (each_fd os text buf n i f acc) acc
  unfolding each_fd
  each_fd-Quiet zero i f acc h = λ reads. (reads, refl)
  each_fd-Quiet (suc n) i f acc h =
      >>=-Quiet (f i acc) (each_fd os text buf n (i + 1) f) acc acc
        (h i (omega arith) (omega arith))
        (each_fd-Quiet n (i + 1) f acc (λ j le lt. h j (omega arith) (omega arith)))

  pub expect_error-Quiet :
      (call : Run os ℕ) (message : String) (fail : ℕ)
      → Quiet call minus_one
      → Quiet (expect_error os text buf call message fail) fail
  unfolding expect_error
  expect_error-Quiet call message fail h reads = let (n, e) = h reads in (n, rw (e, ◌>>=◌) refl)

  pub read-Quiet :
      (fd at nbytes : ℕ)
      → select_read (files_of system.kernel) fd at nbytes ≡ refused
      → Quiet (os.ece391_read fd at nbytes) minus_one
  unfolding syscall_handler jump_table on_read read call_read
  read-Quiet fd at nbytes h reads = (reads + 1, rw h refl)

  pub write-Quiet :
      (fd at nbytes : ℕ)
      → select_write (files_of system.kernel) fd at nbytes ≡ refused
      → Quiet (os.ece391_write fd at nbytes) minus_one
  unfolding syscall_handler jump_table on_write write call_write
  write-Quiet fd at nbytes h reads = (reads, rw h refl)

  pub close-Quiet :
      (fd : ℕ)
      → close (files_of system.kernel) fd ≡ (ret_failure, files_of system.kernel)
      → Quiet (os.ece391_close fd) minus_one
  unfolding syscall_handler jump_table on_close
  close-Quiet fd h reads = (
    reads,
    rw h (ap (λ k. some (minus_one, set_kernel (after reads) k)) (set_files-same system.kernel)),
  )

  -- a name that is not found, whether there is a slot or not
  pub open-Quiet :
      (filename : ℕ)
      → read_dentry_by_name system.kernel.fs system.kernel.mem filename dentry
        ≡ some (ret_failure, system.kernel.mem)
      → Quiet (os.ece391_open filename) minus_one
  unfolding syscall_handler jump_table on_open open_file
  open-Quiet filename missing reads =
      let same =
        ap (λ k. some (minus_one, set_kernel (after reads) k)) (set_files-same system.kernel) in
      (
        reads,
        elim (Bool-cases (ltb 7 (find_slot 8 (files_of system.kernel) 0))) [
          | inl full ↦ rw full same
          | inr room ↦ rw (room, missing) same
        ],
      )
