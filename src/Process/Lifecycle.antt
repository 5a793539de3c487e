-- ===== src/Process/Lifecycle.antt =====
-- `execute` and `halt`: what a process that starts and ends leaves behind.
use Prim.Native.Nat.{bit_xor}
use fireball_os.Base.{
  ℕ, ◌+◌, ◌/◌, ◌%◌, ◌^◌, ◌<◌, ◌≡◌, ◌≢◌, refl, ◌∙◌, ap, arith, ◌==◌, ltb, ap₂, true, false, none,
  some, ret_failure,
}
use fireball_os.Memory.{Mem}
use fireball_os.CString.{strlen}
use fireball_os.FileSystem.{read_dentry_by_name}
use fireball_os.Paging.{Tables, task_mem_init, map_4mb_page}
use fireball_os.Process.{
  Kernel, Addresses, returned, find_pid, mask, pcb_at, parse, get_arg, find_entry, run_program,
  allocate, execute, launch, start_process, halt,
}
use fireball_os.Process.Bitmap.{taken, pid_bit, find_pid-lowest, find_pid-full, bit_xor-set}

parse-open_processes :
    (a : Addresses) (k k1 : Kernel) (input fname : ℕ)
    → parse a k input ≡ some (fname, k1)
    → k1.open_processes ≡ k.open_processes
unfolding parse
parse-open_processes a k k1 input fname e = ground arith

get_arg-open_processes :
    (a : Addresses) (k : Kernel) (input n : ℕ)
    → (get_arg a k input n).open_processes ≡ k.open_processes
unfolding get_arg
get_arg-open_processes a k input n = ground arith

allocate_missing :
    (a : Addresses) (k : Kernel) (fname previous esp ebp pid o : ℕ) (m1 : Mem)
    → find_pid 7 k.open_processes mask 0 ≡ some (pid, o)
    → read_dentry_by_name k.fs k.mem fname a.dentry_temp ≡ some (ret_failure, m1)
    → allocate a k fname previous esp ebp
      ≡ some (returned ret_failure, record k { process_id = pid; open_processes = o; mem = m1 })
unfolding allocate run_program find_entry
allocate_missing a k fname previous esp ebp pid o m1 found missing =
    rw (found, allocate) (rw missing)

allocate_full :
    (a : Addresses) (k : Kernel) (fname previous esp ebp : ℕ)
    → find_pid 7 k.open_processes mask 0 ≡ none
    → allocate a k fname previous esp ebp ≡ some (returned 1, k)
unfolding allocate
allocate_full a k fname previous esp ebp none_left = rw (none_left, allocate)

-- When no file has the command's name, `execute` returns -1, and the process number that it had
-- taken stays taken, though no process has it.
pub execute_missing :
    (a : Addresses) (k k1 : Kernel) (command esp ebp fname n pid : ℕ) (m1 : Mem)
    → parse a k command ≡ some (fname, k1)
    → strlen k1.mem command ≡ some n
    → read_dentry_by_name
        (get_arg a k1 command n).fs
        (get_arg a k1 command n).mem
        fname
        a.dentry_temp
      ≡ some (ret_failure, m1)
    → k.open_processes < 256
    → pid < 7
    → taken k.open_processes pid ≡ false
    → ((j : ℕ) → j < pid → taken k.open_processes j ≡ true)
    → (k' : Kernel) × (execute a k command esp ebp ≡ some (returned ret_failure, k'))
      × (k'.open_processes ≡ k.open_processes + pid_bit pid)
unfolding execute
execute_missing a k k1 command esp ebp fname n pid m1 parsed len missing byte lt free below =
    let k2 = get_arg a k1 command n in
    let bitmap : k2.open_processes ≡ k.open_processes =
      get_arg-open_processes a k1 command n ∙ parse-open_processes a k k1 command fname parsed in
    let next = k.open_processes + pid_bit pid in
    let search : find_pid 7 k2.open_processes mask 0 ≡ some (pid, next) =
      ap (λ b. find_pid 7 b mask 0) bitmap
      ∙ find_pid-lowest k.open_processes byte pid lt free below in
    (
      record k2 { process_id = pid; open_processes = next; mem = m1 },
      rw (parsed, len)
          (allocate_missing a k2 fname k.curr_process esp ebp pid next m1 search missing),
      refl,
    )

-- With all seven numbers taken, `execute` returns 1 and has neither looked the file up nor started
-- anything: the bitmap, the current process and the control blocks are as before.
pub execute_full :
    (a : Addresses) (k k1 : Kernel) (command esp ebp fname n : ℕ)
    → parse a k command ≡ some (fname, k1)
    → strlen k1.mem command ≡ some n
    → k.open_processes < 256
    → ((j : ℕ) → j < 7 → taken k.open_processes j ≡ true)
    → execute a k command esp ebp ≡ some (returned 1, get_arg a k1 command n)
unfolding execute
execute_full a k k1 command esp ebp fname n parsed len byte full =
    let bitmap : (get_arg a k1 command n).open_processes ≡ k.open_processes =
      get_arg-open_processes a k1 command n ∙ parse-open_processes a k k1 command fname parsed in
    let search : find_pid 7 (get_arg a k1 command n).open_processes mask 0 ≡ none =
      ap (λ b. find_pid 7 b mask 0) bitmap ∙ find_pid-full k.open_processes byte full in
    rw (parsed, len) (allocate_full a (get_arg a k1 command n) fname k.curr_process esp ebp search)

-- What `launch` makes of the new block, of the parent's, and of the variables that `halt` reads.
record Launched (k : Kernel) (pid previous esp o : ℕ) (k' : Kernel) : Type 0 where
  current : k'.curr_process ≡ pcb_at pid
  parent : (k'.pcbs (pcb_at pid)).parent_process ≡ previous
  number : (k'.pcbs (pcb_at pid)).process_id ≡ pid
  stack : (k'.pcbs previous).k_sp ≡ esp
  directory : (k'.pcbs previous).pd_ptr ≡ (k.pcbs previous).pd_ptr
  bitmap : k'.open_processes ≡ o
  tables : k'.tables ≡ k.tables

launch-Launched :
    (k : Kernel) (pid previous esp ebp o : ℕ)
    → pid < 7
    → k.open_processes ≡ o
    → k.initial_shell ≡ 0
    → previous ≢ 0
    → previous ≢ pcb_at pid
    → Launched k pid previous esp o (launch k pid previous esp ebp)
unfolding launch start_process
launch-Launched k pid previous esp ebp o lt bitmap shell given apart =
    let a : (previous == pcb_at pid) ≡ false = ground (arith, apart) in
    let b : (pcb_at pid == previous) ≡ false = ground (arith, apart) in
    let c : (previous == 0) ≡ false = ground (arith, given) in
    let s : (pcb_at pid == pcb_at pid) ≡ true = ground arith in
    let e : (previous == previous) ≡ true = ground arith in
    record {
      current = simp (c, shell);
      parent = simp (a, b, c, s, e, shell);
      number = simp (a, b, c, s, e, shell) (omega arith);
      stack = simp (a, b, c, s, e, shell);
      directory = simp (a, b, c, s, e, shell);
      bitmap = simp (c, shell) bitmap;
      tables = simp (c, shell);
    }

halt-Launched :
    (k k2 : Kernel) (pid previous esp status o : ℕ)
    → pid < 7
    → o < 256
    → taken o pid ≡ false
    → previous ≢ pcb_at pid
    → Launched k pid previous esp (o + pid_bit pid) k2
    → let (out, k') = halt k2 status in
      (out ≡ returned (status % 256))
      × (k'.curr_process ≡ previous)
      × (k'.open_processes ≡ o)
      × (k'.tss_esp0 ≡ esp)
      × (k'.tables.cr3 ≡ (k.pcbs previous).pd_ptr)
      × (k'.tables.cur_pd ≡ k.tables.cur_pd)
      × ((k'.pcbs previous).child_flag ≡ 0)
unfolding halt
halt-Launched k k2 pid previous esp status o lt byte free apart l =
    let b : (pcb_at pid == previous) ≡ false = ground (arith, apart) in
    let e : (previous == previous) ≡ true = ground arith in
    let x : bit_xor k2.open_processes (mask / 2 ^ (k2.pcbs (pcb_at pid)).process_id) % 256 ≡ o =
      ap₂ (λ u v. bit_xor u (mask / 2 ^ v) % 256) l.bitmap l.number
      ∙ bit_xor-set pid o lt byte free in
    rw (l.current, l.parent, b)
      (refl, refl, x, l.stack, l.directory, ap (λ (t : Tables). t.cur_pd) l.tables, rw e)

cur_pd-task_mem_init : (t : Tables) (pid : ℕ) → pid < 7 → (task_mem_init t pid).1.cur_pd ≡ pid
unfolding task_mem_init map_4mb_page
cur_pd-task_mem_init t pid lt = let known : ltb 6 pid ≡ false = ground arith in rw known refl

-- A program gets its memory and is started under a number below 7 that was free, by a parent that is
-- there and is not the new process, and not as the first shell. When it halts, its parent is current
-- again: with its stack, its page directory loaded, the exit status and the bitmap from before the
-- start, and with no child. The directory that `user_vidmap` works on is still number `pid`, that of
-- the process that has halted.
pub halt-launch :
    (k : Kernel) (pid previous esp ebp status o : ℕ)
    → pid < 7
    → o < 256
    → taken o pid ≡ false
    → k.open_processes ≡ o + pid_bit pid
    → k.initial_shell ≡ 0
    → previous ≢ 0
    → previous ≢ pcb_at pid
    → let with_memory = record k { tables = (task_mem_init k.tables pid).1 } in
      let (out, k') = halt (launch with_memory pid previous esp ebp) status in
      (out ≡ returned (status % 256))
      × (k'.curr_process ≡ previous)
      × (k'.open_processes ≡ o)
      × (k'.tss_esp0 ≡ esp)
      × (k'.tables.cr3 ≡ (k.pcbs previous).pd_ptr)
      × (k'.tables.cur_pd ≡ pid)
      × ((k'.pcbs previous).child_flag ≡ 0)
halt-launch k pid previous esp ebp status o lt byte free bitmap shell given apart =
    let with_memory = record k { tables = (task_mem_init k.tables pid).1 } in
    let (a, b, c, d, e, f, g) =
      halt-Launched with_memory (launch with_memory pid previous esp ebp) pid previous esp status o
        lt byte free apart
        (launch-Launched with_memory pid previous esp ebp (o + pid_bit pid) lt bitmap shell given
          apart) in
    (a, b, c, d, e, f ∙ cur_pd-task_mem_init k.tables pid lt, g)
