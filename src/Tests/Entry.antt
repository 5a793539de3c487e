-- ===== src/Tests/Entry.antt =====
-- The table of the interrupts, and a queue of two tasks.
use fireball_os.Base.{
  ℕ, zero, suc, ◌≢◌, ◌<◌, ◌≤◌, ◌≡◌, refl, ◌==◌, if◌then◌else◌, ◌||◌, arith, true,
}
use fireball_os.Process.{pcb_at, Kernel, rotate, count_tasks, max_tasks, scheduling, context_switch}
use fireball_os.Process.Turn.{IsNumbered, rotated, head, is_ready, IsFirst, scheduling-IsFirst}
use fireball_os.Idt.{Gate, Idt, Handler, set_idt, syscall_handler}
use fireball_os.Idt.Gates.{is_interrupt, is_exception, target, set_idt-user}
use fireball_os.Tests.Processes.{kernel}

-- process 0 runs and stands before process 1
abbrev queued : Kernel
queued = record kernel {
  task_queue = λ i. if i == 0 then 0 else if i == 1 then 1 else 0xffff_ffff;
  next_available = 2;
}

two_tasks : 1 < count_tasks max_tasks queued.task_queue
unfolding count_tasks
two_tasks = omega arith

second-ready : is_ready (rotated 1 queued) ≡ true
unfolding rotated
second-ready = refl

queued-IsNumbered : IsNumbered queued
queued-IsNumbered = (omega arith, refl)

queued_real : (l : ℕ) → l ≤ 1 → head (rotated l queued) < 7
unfolding rotated
queued_real zero le = omega arith
queued_real (suc zero) le = omega arith
queued_real (suc (suc l)) le = absurd (omega arith)

scheduling-IsFirst_example :
    (i : ℕ) × (i ≤ 1)
    × IsFirst queued i
    × (scheduling queued 10 20
        ≡ context_switch (rotate (rotated i queued)) (head (rotated i queued)) 10 20)
    × ((scheduling queued 10 20).curr_process ≡ pcb_at (head (rotated i queued)))
    × ((scheduling queued 10 20).curr_process ≢ queued.curr_process)
scheduling-IsFirst_example =
    scheduling-IsFirst queued 1 10 20 queued-IsNumbered two_tasks queued_real second-ready

-- a gate of zeros, and all handlers at one place
abbrev pub no_gate : Gate
no_gate = record {
  offset_15_00 = 0;
  seg_selector = 0;
  reserved4 = 0;
  reserved3 = 0;
  reserved2 = 0;
  reserved1 = 0;
  size = 0;
  reserved0 = 0;
  dpl = 0;
  present = 0;
  offset_31_16 = 0;
}

abbrev pub no_gates : Idt
no_gates i = no_gate

abbrev pub address : Handler → ℕ
address h = 0x40_1234

set_idt-user_example :
    let v : ℕ = 128 in
    let g = set_idt address no_gate no_gate no_gate no_gates v in
    (g.dpl ≡ 3 → (v ≡ 128) × (target g ≡ address syscall_handler))
    × (g.present ≡ (if (v == 128 || is_interrupt v) || is_exception v then 1 else 0))
set_idt-user_example =
    set_idt-user address (λ h. omega arith) no_gate no_gate no_gate no_gates 128 (λ v. omega arith)
      (λ v. refl)
