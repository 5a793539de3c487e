-- ===== src/Descriptors.antt =====
-- student-distrib/systemcalls.c: the system calls on a process's array of open files (`open`,
-- `read`, `write`, `close`), with `stdin`, `stdout` and the `rtc_open` of student-distrib/rtc.c,
-- less the port writes of `init_rtc`.
pub mod Slots
use fireball_os.Base.{
  ℕ, zero, suc, ◌+◌, ◌-◌, ◌==◌, if◌then◌else◌, ltb, leb, Bool, true, false, not, ◌&&◌, ◌||◌, Option,
  none, some, ◌>>=◌, ret_failure, ret_success, minus_one, is_negative,
}
use fireball_os.Memory.{Mem}
use fireball_os.OpenFile.{
  File, JumpTable, null_jt, file_jt, directory_jt, rtc_jt, stdin_jt, stdout_jt, closed_file,
  has_read, has_write,
}
use fireball_os.FileSystem.{FileSys, file_type, read_dentry_by_name}
use fireball_os.FileOps.{
  FileResult, file_open, file_read, file_write, dir_open, dir_read, dir_write,
}

-- `file_fds` of a process
abbrev pub Files : Type 0
Files = ℕ → File

abbrev pub set_file : Files → ℕ → File → Files
set_file fds fd f i = if i == fd then f else fds i

-- `while(farray[fd].flags == 1) fd++`, with the slots that are left. A search that finds all eight in
-- use goes on behind the array; wherever it stops, `fd` is above 7, for which 8 stands here.
unfoldable pub find_slot : ℕ → Files → ℕ → ℕ
find_slot zero fds fd = fd
find_slot (suc n) fds fd =
    let next = find_slot n fds (fd + 1) in if (fds fd).flags == 1 then next else fd

unfoldable pub rtc_open : File → Mem → FileResult
rtc_open file m =
    some (ret_success, record { file_op = rtc_jt; inode_ptr = 0; file_pos = 0; flags = 1 }, m)

-- the `switch` on the type of the entry
unfoldable pub open_by_type : FileSys → (frame kind : ℕ) → File → Mem → (filename : ℕ) → FileResult
open_by_type fs frame kind file m filename =
    if kind == 0
    then rtc_open file m
    else if kind == 1
    then dir_open file m filename
    else if kind == 2
    then file_open fs frame file m filename
    else some (ret_failure, file, m)

-- The local `dentry_t` of `open` stands at `dentry`, and that of `file_open` at `frame`.
unfoldable pub open_file :
    FileSys → (dentry frame : ℕ) → Files → Mem → (filename : ℕ) → Option (ℕ × Files × Mem)
open_file fs dentry frame fds m filename =
    let fd = find_slot 8 fds 0 in
    if ltb 7 fd
    then some (ret_failure, fds, m)
    else (read_dentry_by_name fs m filename dentry >>= λ (found, m1).
        if found == minus_one
        then some (ret_failure, fds, m1)
        else (open_by_type fs frame (file_type m1 dentry) (fds fd) m1 filename >>= λ (ret, f, m2).
            if ret == minus_one
            then some (ret_failure, set_file fds fd f, m2)
            else some (fd, set_file fds fd f, m2)))

-- The guards that `read` and `write` share: `fd` and `nbytes` are `int32_t`, and 0 is `NULL`.
abbrev pub bad_request : (fd buf nbytes : ℕ) → Bool
bad_request fd buf nbytes = (is_negative fd || ltb 7 fd) || (buf == 0 || is_negative nbytes)

-- What a call of `read` or `write` comes to: -1, or the entry of a jump table on a file.
pub data Dispatch : Type 0 where
  refused : Dispatch
  calls : JumpTable → File → Dispatch

unfoldable pub select_read : Files → (fd buf nbytes : ℕ) → Dispatch
unfolding has_read
select_read fds fd buf nbytes =
    if bad_request fd buf nbytes
    then refused
    else if (fds fd).flags == 0 || not (has_read (fds fd).file_op)
    then refused
    else calls (fds fd).file_op (fds fd)

unfoldable pub select_write : Files → (fd buf nbytes : ℕ) → Dispatch
unfolding has_write
select_write fds fd buf nbytes =
    if bad_request fd buf nbytes
    then refused
    else if (fds fd).flags == 0 || not (has_write (fds fd).file_op)
    then refused
    else calls (fds fd).file_op (fds fd)

unfoldable pub close : Files → ℕ → ℕ × Files
close fds fd =
    if (is_negative fd || ltb fd 2) || (ltb 7 fd || (fds fd).flags == 0)
    then (ret_failure, fds)
    else (ret_success, set_file fds fd (record (fds fd) { flags = 0 }))

unfoldable pub stdin : Files → ℕ → Files
stdin fds fd = set_file fds fd (record (fds fd) { file_op = stdin_jt; flags = 1 })

unfoldable pub stdout : (screen_num : ℕ) → Files → ℕ → Files
stdout screen_num fds fd =
    set_file fds fd (record (fds fd) { file_op = stdout_jt; flags = 1; file_pos = screen_num })

-- `execute` clears the eight entries and opens the first two.
unfoldable pub init_files : (screen_num : ℕ) → Files → Files
unfolding stdin stdout
init_files screen_num fds =
    stdout screen_num (stdin (λ i. if ltb i 8 then closed_file else fds i) 0) 1
