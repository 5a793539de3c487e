-- ===== src/Calls.antt =====
-- The system calls of student-distrib/systemcalls.c on the running process: `read` and `write` with the
-- operations behind the jump tables, `getargs` and `vidmap`.
pub mod Reading
pub mod Gate
pub mod Arguments
use fireball_os.Base.{
  ℕ, ◌+◌, ◌==◌, if◌then◌else◌, ltb, leb, ◌||◌, Option, none, some, ◌>>=◌, List, [], ◌∷◌, true,
  false, ret_failure, ret_success,
}
use fireball_os.Memory.{Mem, store32, memset, memcpy}
use fireball_os.CString.{strlen}
use fireball_os.OpenFile.{
  File, JumpTable, file_jt, directory_jt, rtc_jt, stdin_jt, stdout_jt, null_jt,
}
use fireball_os.FileOps.{file_read, file_write, dir_read, dir_write}
use fireball_os.Paging.{Layout, user_vidmap}
use fireball_os.Descriptors.{Files, set_file, Dispatch, refused, calls, select_read, select_write}
use fireball_os.Process.{Kernel, set_pcb}
use fireball_os.Rtc.{Clock, rtc_write}
use fireball_os.Terminal.{Terminals, terminal_write}
use fireball_os.Terminal.Read.{Round, terminal_read}

-- The state that the calls work on, with `length` of student-distrib/terminal.c.
pub record System : Type 0 where
  pub kernel : Kernel
  pub terms : Terminals
  pub clock : Clock
  pub length : ℕ

-- What interrupts bring about while a call waits: what the rounds of the loop in `terminal_read` see and
-- the terminals at its end, and the counts that the loop in `rtc_read` sees.
pub record Waiting : Type 0 where
  pub rounds : List Round
  pub terms : Terminals
  pub interrupt_numbers : List ℕ

-- the descriptors of the running process
abbrev pub files_of : Kernel → Files
files_of k = (k.pcbs k.curr_process).file_fds

-- the running process with another `file_t` at the descriptor
abbrev pub set_fd : Kernel → (fd : ℕ) → File → Kernel
set_fd k fd f = record k {
  pcbs =
      set_pcb k.pcbs k.curr_process
        (record (k.pcbs k.curr_process) { file_fds = set_file (files_of k) fd f });
}

-- the state behind an operation on a `file_t` and memory
abbrev pub with_file : System → (fd : ℕ) → ℕ × File × Mem → ℕ × System
with_file s fd (r, f, m) = (r, record s { kernel = record (set_fd s.kernel fd f) { mem = m } })

-- `while(temp == interrupt_number);`
unfoldable pub rtc_read : List ℕ → Clock → Option (ℕ × Clock)
rtc_read [] c = none
rtc_read (n ∷ ns) c = elim (n == c.interrupt_number) [
  | true ↦ rtc_read ns c
  | false ↦ some (ret_success, record c { interrupt_number = n })
]

-- the entry `read` of each jump table; `frame` is the local `dentry_t` of `dir_read`
unfoldable pub call_read :
    (frame : ℕ) → Waiting → System → (fd : ℕ) → Dispatch → (buf nbytes : ℕ) → Option (ℕ × System)
unfolding rtc_read
call_read frame w s fd refused buf nbytes = some (ret_failure, s)
call_read frame w s fd (calls file_jt file) buf nbytes =
    file_read s.kernel.fs file s.kernel.mem buf nbytes >>= λ r. some (with_file s fd r)
call_read frame w s fd (calls directory_jt file) buf nbytes =
    dir_read s.kernel.fs frame file s.kernel.mem buf nbytes >>= λ r. some (with_file s fd r)
call_read frame w s fd (calls rtc_jt file) buf nbytes =
    rtc_read w.interrupt_numbers s.clock >>= λ (r, c). some (r, record s { clock = c })
call_read frame w s fd (calls stdin_jt file) buf nbytes =
    terminal_read s.kernel.mem s.terms w.terms w.rounds s.length buf nbytes >>= λ (r, length, m).
    some (r, record s { kernel = record s.kernel { mem = m }; terms = w.terms; length = length })
call_read frame w s fd (calls stdout_jt file) buf nbytes = none
call_read frame w s fd (calls null_jt file) buf nbytes = none

unfoldable pub read : (frame : ℕ) → Waiting → System → (fd buf nbytes : ℕ) → Option (ℕ × System)
unfolding call_read
read frame w s fd buf nbytes =
    call_read frame w s fd (select_read (files_of s.kernel) fd buf nbytes) buf nbytes

-- the entry `write` of each jump table
unfoldable pub call_write : System → (fd : ℕ) → Dispatch → (buf nbytes : ℕ) → Option (ℕ × System)
call_write s fd refused buf nbytes = some (ret_failure, s)
call_write s fd (calls file_jt file) buf nbytes =
    file_write file s.kernel.mem buf nbytes >>= λ r. some (with_file s fd r)
call_write s fd (calls directory_jt file) buf nbytes =
    dir_write file s.kernel.mem buf nbytes >>= λ r. some (with_file s fd r)
call_write s fd (calls rtc_jt file) buf nbytes =
    rtc_write s.kernel.mem s.clock buf nbytes >>= λ (r, c). some (r, record s { clock = c })
call_write s fd (calls stdout_jt file) buf nbytes =
    terminal_write s.kernel.mem s.terms file buf nbytes >>= λ (r, t).
    some (r, record s { terms = t })
call_write s fd (calls stdin_jt file) buf nbytes = none
call_write s fd (calls null_jt file) buf nbytes = none

unfoldable pub write : System → (fd buf nbytes : ℕ) → Option (ℕ × System)
unfolding call_write
write s fd buf nbytes = call_write s fd (select_write (files_of s.kernel) fd buf nbytes) buf nbytes

-- `args` is not copied up to `nbytes`, but whole.
unfoldable pub getargs : Kernel → (buf nbytes : ℕ) → Option (ℕ × Kernel)
getargs k buf nbytes = strlen k.mem k.args >>= λ length.
    some (ret_success, record k { mem = memcpy (memset k.mem buf 0 nbytes) buf k.args length })

-- _128MB and _4MB
abbrev pub user_start : ℕ
user_start = 0x800_0000

abbrev pub user_size : ℕ
user_size = 0x40_0000

-- `*screen_start` is stored in the memory of the program.
unfoldable pub vidmap : Layout → Kernel → (screen_start : ℕ) → ℕ × Kernel
vidmap l k screen_start =
    if ltb screen_start user_start || leb (user_start + user_size) screen_start
    then (ret_failure, k)
    else (let (address, t) = user_vidmap l k.tables in
        (ret_success, record k { mem = store32 k.mem screen_start address; tables = t }))
