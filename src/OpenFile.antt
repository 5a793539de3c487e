-- ===== src/OpenFile.antt =====
-- `file_t` of student-distrib/systemcalls.h, the entry of a process's descriptor array.
use fireball_os.Base.{ℕ, Bool, true, false}

-- the jump tables that `file_op` may point to
pub data JumpTable : Type 0 where
  null_jt file_jt directory_jt rtc_jt stdin_jt stdout_jt : JumpTable

pub record File : Type 0 where
  pub file_op : JumpTable
  pub inode_ptr : ℕ
  pub file_pos : ℕ
  pub flags : ℕ

-- an entry that is not in use
abbrev pub closed_file : File
closed_file = record { file_op = null_jt; inode_ptr = 0; file_pos = 0; flags = 0 }

-- whether the table has an entry for `read`, and for `write`
unfoldable pub has_read : JumpTable → Bool
has_read null_jt = false
has_read stdout_jt = false
has_read _ = true

unfoldable pub has_write : JumpTable → Bool
has_write null_jt = false
has_write stdin_jt = false
has_write _ = true
