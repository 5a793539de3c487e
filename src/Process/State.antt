-- ===== src/Process/State.antt =====
-- The control blocks, the global variables of student-distrib/systemcalls.c, and their addresses.
use fireball_os.Base.{ℕ, ◌+◌, ◌-◌, ◌*◌, ◌/◌, ◌%◌, ◌==◌, if◌then◌else◌, u32}
use fireball_os.Memory.{Mem}
use fireball_os.FileSystem.{FileSys}
use fireball_os.Paging.{Tables}
use fireball_os.Descriptors.{Files}

-- MASK, _8MB and _8KB
abbrev pub mask : ℕ
mask = 0x80

abbrev pub max_tasks : ℕ
max_tasks = 7

-- `(pcb_t *) (k_bp & 0xFFFFE000)` with `k_bp = _8MB - (_8KB)*(pid) - 4`: the start of the 8 KB that
-- hold the kernel stack of process `pid`
abbrev pub kernel_bp : ℕ → ℕ
kernel_bp pid = (0x800000 + u32 - 0x2000 * pid % u32 + u32 - 4) % u32

abbrev pub pcb_at : ℕ → ℕ
pcb_at pid = kernel_bp pid / 0x2000 * 0x2000

-- `pcb_t`; a page directory is its index, and a block is named by its address.
pub record Pcb : Type 0 where
  pub file_fds : Files
  pub k_bp : ℕ
  pub k_sp : ℕ
  pub pd_ptr : ℕ
  pub process_id : ℕ
  pub child_flag : ℕ
  pub parent_process : ℕ
  pub child : ℕ

-- The global variables of the file, and the state of the parts that it calls. The control blocks
-- are kept apart from byte memory: they lie below 8 MB, where no buffer of a program is.
pub record Kernel : Type 0 where
  pub mem : Mem
  pub fs : FileSys
  pub tables : Tables
  pub pcbs : ℕ → Pcb
  pub open_processes : ℕ
  pub process_id : ℕ
  pub curr_process : ℕ
  pub k_bp : ℕ
  pub retval : ℕ
  pub initial_shell : ℕ
  pub task_queue : ℕ → ℕ
  pub next_available : ℕ
  pub next_task : ℕ
  pub tss_esp0 : ℕ
  pub screen_num : ℕ
  pub process_buf : ℕ
  pub args : ℕ
  pub index : ℕ
  pub space_seen : ℕ

-- The addresses of the three string literals, and of the locals of `execute` and `program_load`.
pub record Addresses : Type 0 where
  pub random_str1 : ℕ
  pub random_str2 : ℕ
  pub minus_one_str : ℕ
  pub dentry_temp : ℕ
  pub elf_check : ℕ
  pub buf_temp : ℕ
  pub load_dentry : ℕ

abbrev pub set_pcb : (ℕ → Pcb) → ℕ → Pcb → ℕ → Pcb
set_pcb pcbs p v q = if q == p then v else pcbs q

abbrev pub set_task : (ℕ → ℕ) → ℕ → ℕ → ℕ → ℕ
set_task q i v j = if j == i then v else q j
