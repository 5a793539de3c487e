-- ===== src/Programs/OnKernel.antt =====
-- The kernel as the operating system that the programs run on: the calls of syscalls/ece391syscall.S by
-- way of `syscall_handler` of student-distrib/wrapper.S.
use fireball_os.Base.{ℕ, ◌+◌, Option, none, some, ◌>>=◌}
use fireball_os.Memory.{Mem}
use fireball_os.Paging.{Layout}
use fireball_os.Process.{Kernel, set_pcb}
use fireball_os.Descriptors.{Files, open_file, close}
use fireball_os.Calls.{System, Waiting, files_of, read, write, getargs, vidmap}
use fireball_os.Calls.Gate.{Entry, Entries, syscall_handler}
pub mod Quiet
pub mod Errors
pub mod Refusing
pub mod Passing
use fireball_os.Programs.{Os}

-- the state, with the number of calls of `read` so far
pub record Machine : Type 0 where
  pub system : System
  pub reads : ℕ

abbrev pub set_kernel : Machine → Kernel → Machine
set_kernel s k = record s { system = record s.system { kernel = k } }

-- the running process with another array of open files
abbrev pub set_files : Kernel → Files → Kernel
set_files k fds = record k {
  pcbs = set_pcb k.pcbs k.curr_process (record (k.pcbs k.curr_process) { file_fds = fds });
}

-- The local `dentry_t` of `open` stands at `dentry`, that of the operations on files at `frame`. What
-- interrupts bring about in the call of `read` of a number is `waits`. Of `halt` and `execute`, which
-- go on in another program, what they come back with is a parameter.
module _ (l : Layout) (dentry frame : ℕ) (waits : ℕ → Waiting) (halt execute : Entry Machine) where
  unfoldable pub on_read : Entry Machine
  on_read fd buf nbytes s = read frame (waits s.reads) s.system fd buf nbytes >>= λ (r, system).
      some (r, record { system = system; reads = s.reads + 1 })

  unfoldable pub on_write : Entry Machine
  on_write fd buf nbytes s =
      write s.system fd buf nbytes >>= λ (r, system). some (r, record s { system = system })

  unfoldable pub on_open : Entry Machine
  on_open filename ecx edx s =
      let k = s.system.kernel in
      open_file k.fs dentry frame (files_of k) k.mem filename >>= λ (r, fds, m).
      some (r, set_kernel s (set_files (record k { mem = m }) fds))

  unfoldable pub on_close : Entry Machine
  on_close fd ecx edx s =
      let k = s.system.kernel in
      let (r, fds) = close (files_of k) fd in some (r, set_kernel s (set_files k fds))

  unfoldable pub on_getargs : Entry Machine
  on_getargs buf nbytes edx s =
      getargs s.system.kernel buf nbytes >>= λ (r, k). some (r, set_kernel s k)

  unfoldable pub on_vidmap : Entry Machine
  on_vidmap screen_start ecx edx s =
      let (r, k) = vidmap l s.system.kernel screen_start in some (r, set_kernel s k)

  abbrev pub entries : Entries Machine
  entries = record {
    to_halt = halt;
    to_execute = execute;
    to_read = on_read;
    to_write = on_write;
    to_open = on_open;
    to_close = on_close;
    to_getargs = on_getargs;
    to_vidmap = on_vidmap;
  }

  -- A call say its number into eax, and leaves the registers that it does not use: 0 stands for them.
  abbrev pub kernel_os : Os
  kernel_os = record {
    State = Machine;
    mem = λ s. s.system.kernel.mem;
    with_mem = λ m s. set_kernel s (record s.system.kernel { mem = m });
    ece391_execute = λ command. syscall_handler entries 2 command 0 0;
    ece391_read = syscall_handler entries 3;
    ece391_write = syscall_handler entries 4;
    ece391_open = λ filename. syscall_handler entries 5 filename 0 0;
    ece391_close = λ fd. syscall_handler entries 6 fd 0 0;
    ece391_getargs = λ buf nbytes. syscall_handler entries 7 buf nbytes 0;
    ece391_vidmap = λ screen_start. syscall_handler entries 8 screen_start 0 0;
    call_sys = λ num. syscall_handler entries num 0 0 0;
  }
