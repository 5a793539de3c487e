-- ===== src/FileSystem.antt =====
-- student-distrib/filesys.c: the read-only file system image in memory. The boot block, the inodes
-- and the data blocks are structures at addresses, read as the C code reads them.
pub mod Image
mod Rounds
pub mod ReadData
pub mod Wraps
pub mod Lookup
pub mod Names
use fireball_os.Base.{
  ℕ, zero, suc, ◌+◌, ◌-◌, ◌*◌, ◌/◌, ◌%◌, ◌==◌, if◌then◌else◌, ltb, leb, Bool, true, false, not,
  ◌&&◌, Option, none, some, ◌>>=◌, u32, add32, sub32, minus_one, ret_failure, ret_success,
  is_negative,
}
use fireball_os.Memory.{Mem, store, load32, store32, movsb, memcpy}
use fireball_os.CString.{strlen, strncmp, strncpy}
use fireball_os.OpenFile.{File, file_jt, directory_jt, closed_file}

-- BLOCKSIZE, MAX_NAME_LENGTH and DENTRY_RESERVED
abbrev pub block_size : ℕ
block_size = 4096

abbrev pub max_name_length : ℕ
max_name_length = 32

abbrev pub dentry_reserved : ℕ
dentry_reserved = 24

-- the global pointers
pub record FileSys : Type 0 where
  pub boot_block : ℕ
  pub index_nodes : ℕ
  pub data_blocks : ℕ

-- fields of `bootblock_t`
abbrev pub num_dir_entries : FileSys → Mem → ℕ
num_dir_entries fs m = load32 m fs.boot_block

abbrev pub num_inodes : FileSys → Mem → ℕ
num_inodes fs m = load32 m (fs.boot_block + 4)

abbrev pub num_data_blocks : FileSys → Mem → ℕ
num_data_blocks fs m = load32 m (fs.boot_block + 8)

-- `&boot_block->dir_entries[i]`: three words and 52 reserved bytes stand before the array
abbrev pub dir_entry : FileSys → ℕ → ℕ
dir_entry fs i = fs.boot_block + 64 + 64 * i

-- fields of the `dentry_t` at an address, whose name comes first
abbrev pub file_type : Mem → ℕ → ℕ
file_type m dentry = load32 m (dentry + 32)

abbrev pub inode_num : Mem → ℕ → ℕ
inode_num m dentry = load32 m (dentry + 36)

-- `&index_nodes[i]`, and the fields of an `inode_t`
abbrev pub inode_at : FileSys → ℕ → ℕ
inode_at fs i = fs.index_nodes + 4096 * i

abbrev pub inode_length : Mem → ℕ → ℕ
inode_length m inode = load32 m inode

abbrev pub data_block_num : Mem → ℕ → ℕ → ℕ
data_block_num m inode i = load32 m (inode + 4 + 4 * i)

-- The image is at least one block long, so that its pointers do not wrap.
unfoldable pub init_filesys : Mem → ℕ → FileSys
init_filesys m bootblockptr = record {
  boot_block = bootblockptr;
  index_nodes = bootblockptr + block_size;
  data_blocks = bootblockptr + block_size * (load32 m (bootblockptr + 4) + 1);
}

-- the copy of a directory entry, field by field
unfoldable pub copy_dentry : Mem → (dentry cur_entry : ℕ) → Mem
copy_dentry m dentry cur_entry =
    let m1 = strncpy m dentry cur_entry max_name_length in
    let m2 = store32 m1 (dentry + 32) (file_type m1 cur_entry) in
    let m3 = store32 m2 (dentry + 36) (inode_num m2 cur_entry) in
    movsb dentry_reserved m3 (dentry + 40) (cur_entry + 40)

-- names count for at most 31 characters
abbrev pub clamp_name : ℕ → ℕ
clamp_name n = if ltb (max_name_length - 1) n then max_name_length - 1 else n

-- The loop of `read_dentry_by_name`, with `num_dir_entries - i` rounds left.
unfoldable pub dentry_loop : ℕ → FileSys → Mem → (fname typed_len dentry i : ℕ) → Option (ℕ × Mem)
dentry_loop zero fs m fname typed_len dentry i = some (ret_failure, m)
dentry_loop (suc k) fs m fname typed_len dentry i =
    let next = dentry_loop k fs m fname typed_len dentry (i + 1) in
    let cur_entry = dir_entry fs i in
    strlen m cur_entry >>= λ n.
    if not (clamp_name n == typed_len)
    then next
    else if not (strncmp m fname cur_entry (clamp_name n) == 0)
    then next
    else some (ret_success, copy_dentry m dentry cur_entry)

unfoldable pub read_dentry_by_name : FileSys → Mem → (fname dentry : ℕ) → Option (ℕ × Mem)
read_dentry_by_name fs m fname dentry =
    if fname == 0
    then some (ret_failure, m)
    else if dentry == 0
    then some (ret_failure, m)
    else (strlen m fname >>= λ n.
        dentry_loop (num_dir_entries fs m) fs m fname (clamp_name n) dentry 0)

unfoldable pub read_dentry_by_index : FileSys → Mem → (index dentry : ℕ) → ℕ × Mem
read_dentry_by_index fs m index dentry =
    if dentry == 0
    then (ret_failure, m)
    else if leb (num_dir_entries fs m) index
    then (ret_failure, m)
    else (ret_success, copy_dentry m dentry (dir_entry fs index))

-- `copy_len` of round `i`
abbrev pub copy_len : (i offset len copied : ℕ) → ℕ
copy_len i offset len copied =
    if i == 0
    then (if ltb (block_size - offset % block_size) len
        then block_size - offset % block_size
        else len)
    else (if ltb block_size (sub32 len copied) then block_size else sub32 len copied)

-- `data_start` of round `i`, in data block `b`
abbrev pub data_start : FileSys → (i offset b : ℕ) → ℕ
data_start fs i offset b =
    if i == 0
    then fs.data_blocks + block_size * b + offset % block_size
    else fs.data_blocks + block_size * b

-- The loop of `read_data`; `none` when the fuel has run out. The test `cur_data_block < 0` of the
-- source is never true of an unsigned number.
unfoldable pub read_blocks :
    ℕ → FileSys → (cur_inode offset len : ℕ) → Mem → (i copied buf : ℕ) → Option (ℕ × Mem)
read_blocks zero fs cur_inode offset len m i copied buf = none
read_blocks (suc f) fs cur_inode offset len m i copied buf =
    let cur_data_block = data_block_num m cur_inode (add32 i (offset / block_size)) in
    let n = copy_len i offset len copied in
    let next =
      read_blocks f fs cur_inode offset len (memcpy m buf (data_start fs i offset cur_data_block) n)
        (add32 i 1) (add32 copied n) (buf + n) in
    if ltb copied len
    then (if leb (num_data_blocks fs m) cur_data_block then some (ret_failure, m) else next)
    else some (copied, m)

-- the length that is left after the check against the end of the file
abbrev pub read_length : (file_len offset len : ℕ) → ℕ
read_length file_len offset len =
    if ltb file_len (add32 offset len) then sub32 file_len offset else len

-- Each round copies a byte or more, so one round more than the length is enough.
unfoldable pub read_data : FileSys → Mem → (inode offset buf len : ℕ) → Option (ℕ × Mem)
read_data fs m inode offset buf len =
    if leb (num_inodes fs m) inode
    then some (ret_failure, m)
    else if leb (inode_length m (inode_at fs inode)) offset
    then some (ret_success, m)
    else (let n = read_length (inode_length m (inode_at fs inode)) offset len in
        read_blocks (n + 1) fs (inode_at fs inode) offset n m 0 0 buf)
