-- ===== src/FileOps.antt =====
-- student-distrib/filesys.c: the operations behind the file and directory jump tables, and
-- `program_load`. A local `dentry_t` stands at an address `frame` of the stack.
pub mod Reading
pub mod Loading
pub mod Listing
pub mod Names
use fireball_os.Base.{
  ℕ, zero, suc, ◌+◌, ◌-◌, ◌*◌, ◌/◌, ◌%◌, ◌==◌, if◌then◌else◌, ltb, leb, Bool, true, false, not,
  ◌&&◌, ◌||◌, Option, none, some, ◌>>=◌, u32, add32, sub32, minus_one, ret_failure, ret_success,
  is_negative,
}
use fireball_os.Memory.{Mem}
use fireball_os.CString.{strlen, strncpy}
use fireball_os.OpenFile.{File, file_jt, directory_jt, closed_file}
use fireball_os.FileSystem.{
  FileSys, num_dir_entries, num_inodes, inode_at, inode_num, file_type, block_size, max_name_length,
  read_dentry_by_name, read_dentry_by_index, read_data,
}

-- the difference of two `inode_t` pointers, an `int32_t`
abbrev pub inode_diff : (p q : ℕ) → ℕ
inode_diff p q = if leb q p then (p - q) / block_size else sub32 0 ((q - p) / block_size)

-- a 32-bit word can be used as a file: its return value, the new `file_t` and memory
abbrev pub FileResult : Type 0
FileResult = Option (ℕ × File × Mem)

-- The result of the look-up is not tested: when there is no such name, `inode_num` is what the
-- stack held.
unfoldable pub file_open : FileSys → (frame : ℕ) → File → Mem → (filename : ℕ) → FileResult
file_open fs frame file m filename = read_dentry_by_name fs m filename frame >>= λ (ret, m').
    if leb (num_inodes fs m') (inode_num m' frame)
    then some (ret_failure, file, m')
    else some (
      ret_success,
      record {
        file_op = file_jt;
        inode_ptr = inode_at fs (inode_num m' frame);
        file_pos = 0;
        flags = 1;
      },
      m',
    )

unfoldable pub file_read : FileSys → File → Mem → (buf nbytes : ℕ) → FileResult
file_read fs file m buf nbytes =
    read_data fs m (inode_diff file.inode_ptr fs.index_nodes) file.file_pos buf nbytes
    >>= λ (bytes_read, m').
        some (bytes_read, record file { file_pos = add32 file.file_pos bytes_read }, m')

unfoldable pub file_write : File → Mem → (buf nbytes : ℕ) → FileResult
file_write file m buf nbytes = some (ret_failure, file, m)

unfoldable pub file_close : File → Mem → FileResult
file_close file m = some (ret_success, closed_file, m)

unfoldable pub dir_open : File → Mem → (filename : ℕ) → FileResult
dir_open file m filename =
    some (ret_success, record { file_op = directory_jt; inode_ptr = 0; file_pos = 0; flags = 1 }, m)

-- `nbytes` is compared as an `int32_t`
abbrev pub dir_name_len : ℕ → ℕ
dir_name_len nbytes =
    if not (is_negative nbytes) && ltb max_name_length nbytes then max_name_length else nbytes

unfoldable pub dir_read : FileSys → (frame : ℕ) → File → Mem → (buf nbytes : ℕ) → FileResult
dir_read fs frame file m buf nbytes =
    if leb (num_dir_entries fs m) file.file_pos
    then some (ret_success, file, m)
    else (let (ret, m1) = read_dentry_by_index fs m file.file_pos frame in
        if ret == minus_one
        then some (ret_failure, file, m1)
        else (let m2 = strncpy m1 buf frame (dir_name_len nbytes) in
            strlen m2 buf >>= λ n. some (n, record file { file_pos = add32 file.file_pos 1 }, m2)))

unfoldable pub dir_write : File → Mem → (buf nbytes : ℕ) → FileResult
dir_write file m buf nbytes = some (ret_failure, file, m)

unfoldable pub dir_close : File → Mem → FileResult
dir_close file m = some (ret_success, closed_file, m)

-- The loop of `program_load`. Each round reads a byte or more, so a file of `n` bytes takes at most
-- `n` rounds and the last one, which reads nothing. The inode's number is read from the stack in each
-- round anew.
unfoldable pub load_loop : ℕ → FileSys → (frame : ℕ) → Mem → (offset buf : ℕ) → Option (ℕ × Mem)
load_loop zero fs frame m offset buf = none
load_loop (suc f) fs frame m offset buf =
    read_data fs m (inode_num m frame) offset buf block_size >>= λ (ret, m').
    let next = load_loop f fs frame m' (add32 offset ret) (buf + ret) in
    if ret == 0
    then some (ret_success, m')
    else if ret == minus_one
    then some (ret_failure, m')
    else next

unfoldable pub program_load : FileSys → (frame : ℕ) → Mem → (fname addr : ℕ) → Option (ℕ × Mem)
program_load fs frame m fname addr = read_dentry_by_name fs m fname frame >>= λ (ret, m').
    if ret == minus_one
    then some (ret_failure, m')
    else if not (file_type m' frame == 2)
    then some (ret_failure, m')
    else load_loop u32 fs frame m' 0 addr
