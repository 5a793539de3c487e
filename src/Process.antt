-- ===== src/Process.antt =====
-- student-distrib/systemcalls.c: processes. The bitmap of process numbers, the queue of tasks, the
-- process control blocks, and `execute`, `halt`, `scheduling` and `context_switch` on them.
mod State
pub mod Bitmap
pub mod Lifecycle
pub mod Queue
pub mod Turn
pub mod Arguments
pub use State.{mask, max_tasks, kernel_bp, pcb_at, Pcb, Kernel, Addresses, set_pcb, set_task}
use Prim.Native.Nat.{bit_and, bit_or, bit_xor}
use fireball_os.Base.{
  ℕ, zero, suc, ◌+◌, ◌-◌, ◌*◌, ◌/◌, ◌%◌, ◌^◌, ◌==◌, if◌then◌else◌, ltb, leb, Bool, true, false, not,
  ◌&&◌, ◌||◌, Option, none, some, ◌>>=◌, u32, add32, sub32, ret_failure, ret_success, minus_one,
  is_negative,
}
use fireball_os.Memory.{Mem, store}
use fireball_os.CString.{strlen}
use fireball_os.FileSystem.{FileSys, inode_num, read_dentry_by_name, read_data}
use fireball_os.FileOps.{program_load}
use fireball_os.Paging.{Tables, task_mem_init, pgrm_img}
use fireball_os.Descriptors.{Files, init_files}

-- The search for a process number, with `7 - i` rounds left: the number and the new bitmap, or
-- `none` for `i == 7`. `process_mask` is a `uint8_t`.
unfoldable pub find_pid : ℕ → (open_processes process_mask i : ℕ) → Option (ℕ × ℕ)
find_pid zero open_processes process_mask i = none
find_pid (suc n) open_processes process_mask i =
    let next = find_pid n open_processes (process_mask / 2) (i + 1) in
    if bit_and process_mask open_processes == 0
    then some (i, bit_or open_processes process_mask)
    else next

-- The copy loop of `parse`, with `len - i` rounds left; it returns `i` and whether a separator
-- ended it.
unfoldable pub parse_loop : ℕ → Mem → (input output i : ℕ) → Mem × ℕ × Bool
parse_loop zero m input output i = (m, i, false)
parse_loop (suc n) m input output i =
    let next = parse_loop n (store m (output + i) (m (input + i))) input output (i + 1) in
    if m (input + i) == 32 || m (input + i) == 10 then (m, i, true) else next

-- The address of the command's name.
unfoldable pub parse : Addresses → Kernel → (input : ℕ) → Option (ℕ × Kernel)
parse a k input = strlen k.mem input >>= λ len.
    if len == 0 || k.mem input == 32
    then some (a.minus_one_str, k)
    else (let (m, i, separated) = parse_loop len k.mem input a.random_str1 0 in
        some (
          a.random_str1,
          record k {
            mem = store m (a.random_str1 + i) 0;
            index = i;
            space_seen = if separated then 1 else k.space_seen;
          },
        ))

-- The copy loop of `get_arg`, with `nbytes - j` rounds left and `arg_length = j - index - 1`.
unfoldable pub arg_loop : ℕ → Mem → (input args j arg_length : ℕ) → Mem × ℕ
arg_loop zero m input args j arg_length = (m, arg_length)
arg_loop (suc n) m input args j arg_length =
    arg_loop n (store m (args + arg_length) (m (input + j))) input args (j + 1) (arg_length + 1)

-- `nbytes` is a string's length, so it is not negative.
unfoldable pub get_arg : Addresses → Kernel → (input nbytes : ℕ) → Kernel
get_arg a k input nbytes =
    if k.mem input == 32
    then record k { args = a.minus_one_str }
    else (let (m, n) =
          arg_loop (nbytes - (k.index + 1)) k.mem input a.random_str2 (k.index + 1) 0 in
        record k { args = a.random_str2; mem = store m (a.random_str2 + n) 0 })

-- What a call of `execute` or `halt` comes to: a return to the caller, a jump to a program's entry
-- point, or the endless loop of the first shell's `halt`.
pub data Outcome : Type 0 where
  returned : ℕ → Outcome
  user : ℕ → Outcome
  spins : Outcome

abbrev pub is_elf : Mem → ℕ → Bool
is_elf m p = (m p == 0x7f && m (p + 1) == 0x45) && (m (p + 2) == 0x4c && m (p + 3) == 0x46)

-- The checks on the file: its entry point, or `none` for the ways in which `execute` returns -1.
unfoldable pub find_entry : Addresses → FileSys → Mem → (fname : ℕ) → Option (Option ℕ × Mem)
find_entry a fs m fname = read_dentry_by_name fs m fname a.dentry_temp >>= λ (found, m1).
    if found == minus_one
    then some (none, m1)
    else (read_data fs m1 (inode_num m1 a.dentry_temp) 0 a.elf_check 4 >>= λ (r1, m2).
        if r1 == minus_one
        then some (none, m2)
        else if not (is_elf m2 a.elf_check)
        then some (none, m2)
        else (read_data fs m2 (inode_num m2 a.dentry_temp) 24 a.buf_temp 4 >>= λ (r2, m3).
            if r2 == minus_one
            then some (none, m3)
            else some (
              some (
                  m3 a.buf_temp
                  + 256 * m3 (a.buf_temp + 1)
                  + 65536 * m3 (a.buf_temp + 2)
                  + 16777216 * m3 (a.buf_temp + 3)),
              m3,
            )))

-- The control block of a new process, from the entry of the page directory to the file array.
unfoldable pub start_process : Kernel → (pid previous : ℕ) → Kernel
start_process k pid previous =
    let bp = kernel_bp pid in
    let cur = pcb_at pid in
    let block = record (k.pcbs cur) {
      process_id = pid % 256;
      pd_ptr = pid;
      k_bp = bp;
      k_sp = bp;
    } in
    let pcbs1 =
      if k.initial_shell == 0
      then (let linked = set_pcb k.pcbs cur (record block { parent_process = previous }) in
          set_pcb linked previous (record (linked previous) { child_flag = 1; child = pid }))
      else set_pcb k.pcbs cur
          (record block { parent_process = cur; child_flag = 0; child = minus_one }) in
    let pcbs2 =
      set_pcb pcbs1 cur
        (record (pcbs1 cur) { file_fds = init_files k.screen_num (pcbs1 cur).file_fds }) in
    record k { k_bp = bp; curr_process = cur; pcbs = pcbs2; initial_shell = 0 }

-- one `task_queue[next_available] = process_id`
abbrev pub enqueue : Kernel → ℕ → Kernel
enqueue k pid = record k {
  task_queue = set_task k.task_queue k.next_available pid;
  next_available = add32 k.next_available 1 % max_tasks;
}

-- The stack and base pointers that `execute` stores in the caller's block are `esp` and `ebp`.
unfoldable pub launch : Kernel → (pid previous esp ebp : ℕ) → Kernel
launch k pid previous esp ebp =
    let k1 = enqueue (enqueue (start_process k pid previous) pid) pid in
    let k2 = record k1 { tss_esp0 = (k1.pcbs k1.curr_process).k_sp } in
    if previous == 0 then k2 else record k2 {
      pcbs = set_pcb k2.pcbs previous (record (k2.pcbs previous) { k_sp = esp; k_bp = ebp });
    }

-- `execute` behind the allocation of the process number.
unfoldable pub run_program :
    Addresses → Kernel → (fname pid previous esp ebp : ℕ) → Option (Outcome × Kernel)
run_program a k fname pid previous esp ebp = find_entry a k.fs k.mem fname >>= λ (found, m1).
    elim found [
      | none ↦ some (returned ret_failure, record k { mem = m1 })
      | some entry ↦
          let (dir, t) = task_mem_init k.tables pid in
          elim dir [
            | none ↦ some (returned 1, record k { mem = m1; tables = t })
            | some d ↦ program_load k.fs a.load_dentry m1 fname pgrm_img >>= λ (ret, m2).
                let k2 = record k { mem = m2; tables = t } in
                if ret == minus_one
                then some (returned ret_failure, k2)
                else some (user entry, launch k2 pid previous esp ebp)
          ]
    ]

-- `execute` behind the parsing of the command.
unfoldable pub allocate :
    Addresses → Kernel → (fname previous esp ebp : ℕ) → Option (Outcome × Kernel)
allocate a k fname previous esp ebp = elim (find_pid 7 k.open_processes mask 0) [
  | none ↦ some (returned 1, k)
  | some r ↦
      run_program a (record k { process_id = r.0; open_processes = r.1 }) fname r.0 previous esp ebp
]

unfoldable pub execute : Addresses → Kernel → (command esp ebp : ℕ) → Option (Outcome × Kernel)
execute a k command esp ebp = parse a k command >>= λ (fname, k1).
    strlen k1.mem command >>= λ n. allocate a (get_arg a k1 command n) fname k.curr_process esp ebp

-- `returned` is the return of the parent's `execute`, to which `halt` jumps.
unfoldable pub halt : Kernel → (status : ℕ) → Outcome × Kernel
halt k status =
    let cur = k.pcbs k.curr_process in
    let parent = k.pcbs cur.parent_process in
    let halting_task = sub32 k.next_available 1 % max_tasks in
    if k.curr_process == cur.parent_process then (spins, k) else (
      returned (status % 256),
      record k {
        retval = status % 256;
        open_processes = bit_xor k.open_processes (mask / 2 ^ cur.process_id) % 256;
        pcbs = set_pcb k.pcbs cur.parent_process (record parent { child_flag = 0 });
        tss_esp0 = parent.k_sp;
        tables = record k.tables { cr3 = parent.pd_ptr };
        task_queue = set_task k.task_queue halting_task minus_one;
        next_available = halting_task;
        curr_process = cur.parent_process;
      },
    )

unfoldable pub context_switch : Kernel → (new_pid esp ebp : ℕ) → Kernel
context_switch k new_pid esp ebp =
    if new_pid == minus_one
    then k
    else (let new_process = pcb_at new_pid in
        let new = k.pcbs new_process in
        record k {
          tables = record k.tables { cr3 = new.pd_ptr };
          tss_esp0 = new.k_sp;
          process_buf = (new.file_fds 1).file_pos;
          process_id = new_pid;
          pcbs =
              set_pcb k.pcbs k.curr_process
                (record (k.pcbs k.curr_process) { k_sp = esp; k_bp = ebp });
          curr_process = new_process;
        })

-- the number of entries of the queue that are not -1
unfoldable pub count_tasks : ℕ → (ℕ → ℕ) → ℕ
count_tasks zero q = 0
count_tasks (suc n) q = (if q n == minus_one then 0 else 1) + count_tasks n q

-- one round of the `while` loop of `scheduling`: the head of the queue goes to its end
abbrev pub rotate : Kernel → Kernel
rotate k =
    let next_pid = k.task_queue k.next_task in
    record k {
      task_queue = set_task (set_task k.task_queue k.next_task minus_one) k.next_available next_pid;
      next_task = add32 k.next_task 1 % max_tasks;
      next_available = add32 k.next_available 1 % max_tasks;
    }

-- The loop, with `num_tasks - j` rounds left: the process number on which it breaks. For an empty
-- entry, -1, it reads what stands at 0x800000 as a control block, that of no process.
unfoldable pub pick_task : ℕ → Kernel → Option ℕ × Kernel
pick_task zero k = (none, k)
pick_task (suc n) k =
    let next_pid = k.task_queue k.next_task in
    let next = pick_task n (rotate k) in
    if ((k.pcbs (pcb_at next_pid)).child_flag == 0)
      && not (next_pid == (k.pcbs k.curr_process).process_id)
    then (some next_pid, rotate k)
    else next

-- the switch behind the loop, when it broke
unfoldable pub switch_to : Option ℕ × Kernel → (esp ebp : ℕ) → Kernel
unfolding context_switch
switch_to (none, k) esp ebp = k
switch_to (some pid, k) esp ebp = context_switch k pid esp ebp

unfoldable pub scheduling : Kernel → (esp ebp : ℕ) → Kernel
unfolding switch_to
scheduling k esp ebp = switch_to (pick_task (count_tasks max_tasks k.task_queue) k) esp ebp
