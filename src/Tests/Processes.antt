-- ===== src/Tests/Processes.antt =====
-- A kernel that starts, ends and schedules processes, and the descriptors of one.
use fireball_os.Base.{◌≡◌, refl, ◌==◌, if◌then◌else◌, arith, ret_success}
use fireball_os.Memory.{Mem}
use fireball_os.OpenFile.{File, closed_file, rtc_jt}
use fireball_os.Descriptors.{Files, set_file, init_files, close, find_slot}
use fireball_os.Descriptors.Slots.{IsLowest, close-IsLowest}
use fireball_os.Paging.{task_mem_init}
use fireball_os.Process.{Kernel, Pcb, returned, pcb_at, launch, start_process, halt}
use fireball_os.Process.Lifecycle.{halt-launch}
use fireball_os.Process.Queue.{halt-launch-queue}
use fireball_os.Tests.Disk.{disk, fs}
use fireball_os.Tests.Pages.{booted}

abbrev no_files : Files
no_files i = closed_file

-- descriptors 0 and 1 are in use
abbrev pub two_files : Files
two_files = init_files 0 no_files

abbrev full_files : Files
full_files i = record closed_file { flags = 1 }

pub two-IsLowest : IsLowest two_files 2
unfolding init_files
two-IsLowest = record { in_range = omega arith; free = omega arith; below = λ i lt. ground arith }

abbrev pub clock_file : File
clock_file = record { file_op = rtc_jt; inode_ptr = 0; file_pos = 0; flags = 1 }

close-IsLowest_example :
    let (ret, fds') = close (set_file two_files 2 clock_file) 2 in
    (ret ≡ ret_success) × (find_slot 8 fds' 0 ≡ 2)
close-IsLowest_example = close-IsLowest two_files 2 clock_file two-IsLowest (omega arith) refl

abbrev block : Pcb
block = record {
  file_fds = no_files;
  k_bp = 0;
  k_sp = 0;
  pd_ptr = 0;
  process_id = 0;
  child_flag = 0;
  parent_process = pcb_at 0;
  child = 0;
}

-- the command "b", for which there is no file, stands at 300
abbrev pub memory : Mem
memory = λ a. if a == 300 then 98 else disk a

-- process 0 runs
abbrev pub kernel : Kernel
kernel = record {
  mem = memory;
  fs = fs;
  tables = booted;
  pcbs = λ p. block;
  open_processes = 0x80;
  process_id = 0;
  curr_process = pcb_at 0;
  k_bp = 0;
  retval = 0;
  initial_shell = 0;
  task_queue = λ i. if i == 0 then 0 else 0xffff_ffff;
  next_available = 1;
  next_task = 0;
  tss_esp0 = 0;
  screen_num = 0;
  process_buf = 0;
  args = 0;
  index = 0;
  space_seen = 0;
}

-- the number of the process that starts is taken already
abbrev starting : Kernel
starting = record kernel { open_processes = 0xc0 }

halt-launch_example :
    let with_memory = record starting { tables = (task_mem_init starting.tables 1).1 } in
    let (out, k') = halt (launch with_memory 1 (pcb_at 0) 10 20) 259 in
    (out ≡ returned 3)
    × (k'.curr_process ≡ pcb_at 0)
    × (k'.open_processes ≡ 0x80)
    × (k'.tss_esp0 ≡ 10)
    × (k'.tables.cr3 ≡ 0)
    × (k'.tables.cur_pd ≡ 1)
    × ((k'.pcbs (pcb_at 0)).child_flag ≡ 0)
halt-launch_example =
    halt-launch starting 1 (pcb_at 0) 10 20 259 0x80 (omega arith) (omega arith) refl refl refl
      (omega arith) (omega arith)

halt-launch-queue_example :
    let (out, k') = halt (launch starting 1 (pcb_at 0) 10 20) 0 in
    (k'.task_queue 1 ≡ 1) × (k'.next_available ≡ 2)
unfolding launch start_process
halt-launch-queue_example =
    halt-launch-queue starting 1 (pcb_at 0) 10 20 0 (omega arith) (omega arith) (omega arith)
      (omega arith)
