-- ===== src/Process/Queue.antt =====
-- The queue of tasks: which process `scheduling` switches to, and what `halt` leaves in the queue.
use fireball_os.Base.{
  ℕ, zero, suc, ◌+◌, ◌%◌, ◌<◌, ◌≡◌, ◌≢◌, ◌⊎◌, refl, arith, ◌==◌, if◌then◌else◌, true, false, Option,
  none, some, inl, inr, sub32, minus_one,
}
use native.Mathlib.Decide.{ℕ_discrete}
use fireball_os.Process.{
  Kernel, pcb_at, rotate, pick_task, scheduling, switch_to, count_tasks, max_tasks, launch,
  start_process, halt,
}

-- A process that may be switched to: it waits for no child, and is not the current one.
pub record IsReady (k : Kernel) (pid : ℕ) : Type 0 where
  pub childless : (k.pcbs (pcb_at pid)).child_flag ≡ 0
  pub other : pid ≢ (k.pcbs k.curr_process).process_id

-- The rounds change the queue and its two positions only.
record SameProcesses (k k' : Kernel) : Type 0 where
  current : k'.curr_process ≡ k.curr_process
  blocks : k'.pcbs ≡ k.pcbs
  tables : k'.tables ≡ k.tables

-- what the loop comes to
abbrev Picked : Kernel → Option ℕ × Kernel → Type 0
Picked k (none, k') = SameProcesses k k'
Picked k (some pid, k') = SameProcesses k k' × IsReady k pid

Picked-rotate : (k : Kernel) (r : Option ℕ × Kernel) → Picked (rotate k) r → Picked k r
Picked-rotate k (none, k') p = record { current = p.current; blocks = p.blocks; tables = p.tables }
Picked-rotate k (some pid, k') p = (
  record { current = p.0.current; blocks = p.0.blocks; tables = p.0.tables },
  record { childless = p.1.childless; other = p.1.other },
)

pick_task-Picked : (n : ℕ) (k : Kernel) → Picked k (pick_task n k)
unfolding pick_task
pick_task-Picked zero k = record { current = refl; blocks = refl; tables = refl }
pick_task-Picked (suc n) k =
    let pid = k.task_queue k.next_task in
    elim (ℕ_discrete (k.pcbs (pcb_at pid)).child_flag 0) [
      | no busy ↦
          let e : ((k.pcbs (pcb_at pid)).child_flag == 0) ≡ false = ground (arith, busy) in
          rw e (Picked-rotate k (pick_task n (rotate k)) (pick_task-Picked n (rotate k)))
      | yes free ↦ elim (ℕ_discrete pid (k.pcbs k.curr_process).process_id) [
        | yes self ↦
            let e : (pid == (k.pcbs k.curr_process).process_id) ≡ true = ground (arith, self) in
            rw (free, e) (Picked-rotate k (pick_task n (rotate k)) (pick_task-Picked n (rotate k)))
        | no other ↦
            let e : (pid == (k.pcbs k.curr_process).process_id) ≡ false = ground (arith, other) in
            rw (free, e)
              (
                record { current = refl; blocks = refl; tables = refl },
                record { childless = free; other = other },
              )
      ]
    ]

-- The current process, the blocks and the tables are as they were.
abbrev pub Stays : Kernel → Kernel → Type 0
Stays k k' = (k'.curr_process ≡ k.curr_process) × (k'.pcbs ≡ k.pcbs) × (k'.tables ≡ k.tables)

-- Process `pid` runs: on its block, its page directory and its kernel stack, with the registers of
-- the process that ran before kept in that one's block.
abbrev pub Switched : Kernel → (pid esp ebp : ℕ) → Kernel → Type 0
Switched k pid esp ebp k' =
    (k'.curr_process ≡ pcb_at pid)
    × (k'.process_id ≡ pid)
    × (k'.tables.cr3 ≡ (k.pcbs (pcb_at pid)).pd_ptr)
    × (k'.tss_esp0 ≡ (k.pcbs (pcb_at pid)).k_sp)
    × ((k'.pcbs k.curr_process).k_sp ≡ esp)
    × ((k'.pcbs k.curr_process).k_bp ≡ ebp)

switch_to-Switched :
    (k : Kernel) (r : Option ℕ × Kernel) (esp ebp : ℕ)
    → Picked k r
    → Stays k (switch_to r esp ebp)
      ⊎ ((pid : ℕ) × (IsReady k pid × Switched k pid esp ebp (switch_to r esp ebp)))
unfolding switch_to
switch_to-Switched k (none, k1) esp ebp s = inl (s.current, s.blocks, s.tables)
switch_to-Switched k (some pid, k1) esp ebp (s, ready) = elim (ℕ_discrete pid minus_one) [
  | yes empty ↦
      let e : (pid == minus_one) ≡ true = ground (arith, empty) in
      inl (rw e s.current, rw e s.blocks, rw e s.tables)
  | no real ↦
      let e : (pid == minus_one) ≡ false = ground (arith, real) in
      let same : (k.curr_process == k.curr_process) ≡ true = ground arith in
      inr (pid, (ready, rw (e, s.current, s.blocks, same) (refl, refl, refl, refl, refl, refl)))
]

-- `scheduling` either leaves the current process as it is, or switches to a process of the queue
-- that is not the current one and has no child, and keeps the registers of the one it leaves.
scheduling-Switched :
    (k : Kernel) (esp ebp : ℕ)
    → Stays k (scheduling k esp ebp)
      ⊎ ((pid : ℕ) × (IsReady k pid × Switched k pid esp ebp (scheduling k esp ebp)))
unfolding scheduling
scheduling-Switched k esp ebp =
    switch_to-Switched k (pick_task (count_tasks max_tasks k.task_queue) k) esp ebp
      (pick_task-Picked (count_tasks max_tasks k.task_queue) k)

queue_after_launch :
    (k : Kernel) (pid previous esp ebp : ℕ)
    → k.next_available < 7
    → previous ≢ 0
    → let k' = launch k pid previous esp ebp in
      (k'.task_queue k.next_available ≡ pid)
      × (k'.next_available ≡ (k.next_available + 2) % 7)
      × (k'.curr_process ≡ pcb_at pid)
unfolding launch start_process
queue_after_launch k pid previous esp ebp lt given =
    let c : (previous == 0) ≡ false = ground (arith, given) in
    rw c (ground arith, omega arith, refl)

-- `execute` puts a process into the queue twice and `halt` takes one entry out, and that not always
-- the last: when a process that some other process started, under a number below 7, has halted, its number still stands where the queue had its end, and
-- the end is one place further, or, from place 5, at place 3.
pub halt-launch-queue :
    (k : Kernel) (pid previous esp ebp status : ℕ)
    → k.next_available < 7
    → pid < 7
    → previous ≢ 0
    → ((launch k pid previous esp ebp).pcbs (pcb_at pid)).parent_process ≢ pcb_at pid
    → let (out, k') = halt (launch k pid previous esp ebp) status in
      (k'.task_queue k.next_available ≡ pid)
      × (k'.next_available ≡ (if k.next_available == 5 then 3 else (k.next_available + 1) % 7))
unfolding halt
halt-launch-queue k pid previous esp ebp status lt small given apart =
    let (entry, end, current) = queue_after_launch k pid previous esp ebp lt given in
    let alive : (pcb_at pid == ((launch k pid previous esp ebp).pcbs (pcb_at pid)).parent_process)
        ≡ false =
      ground (arith, apart) in
    let moved : (k.next_available == sub32 ((k.next_available + 2) % 7) 1 % 7) ≡ false =
      ground arith in
    rw (current, alive, end, moved) (entry, ground arith)
