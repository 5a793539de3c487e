-- ===== src/Process/Turn.antt =====
-- `scheduling` of student-distrib/systemcalls.c: which of the queued tasks gets its turn, and when.
use fireball_os.Base.{
  ℕ, zero, suc, ◌≤◌, ◌<◌, ◌≡◌, ◌≢◌, ◌∙◌, sym, ap, refl, arith, minus_one, ◌==◌, Bool, true, false,
  some, ◌&&◌, not, Bool-cases, inl, inr,
}
use fireball_os.Process.{
  Kernel, pcb_at, max_tasks, count_tasks, rotate, pick_task, switch_to, scheduling, context_switch,
}

-- the queue after `j` rounds
unfoldable pub rotated : ℕ → Kernel → Kernel
rotated zero k = k
rotated (suc j) k = rotated j (rotate k)

-- the process number at the head, and whether it can run: it waits for no child and is not running
abbrev pub head : Kernel → ℕ
head k = k.task_queue k.next_task

abbrev pub is_ready : Kernel → Bool
is_ready k =
    ((k.pcbs (pcb_at (head k))).child_flag == 0)
    && not (head k == (k.pcbs k.curr_process).process_id)

-- round `i` is the first one with a head that can run
abbrev pub IsFirst : Kernel → ℕ → Type 0
IsFirst k i = (is_ready (rotated i k) ≡ true) × ((l : ℕ) → l < i → is_ready (rotated l k) ≡ false)

-- what the loop comes to: round `i`, at most `j`, is the first
abbrev Picks : (n : ℕ) → Kernel → (j : ℕ) → Type 0
Picks n k j =
    (i : ℕ) × (i ≤ j)
    × IsFirst k i
    × (pick_task n k ≡ (some (head (rotated i k)), rotate (rotated i k)))

Picks-now : (n : ℕ) (k : Kernel) (j : ℕ) → is_ready k ≡ true → Picks (suc n) k j
unfolding pick_task rotated
Picks-now n k j ready = (0, omega arith, (ready, λ l lt. absurd (omega arith)), rw ready refl)

earlier :
    (k : Kernel) (i : ℕ)
    → is_ready k ≡ false
    → ((l : ℕ) → l < i → is_ready (rotated l (rotate k)) ≡ false)
    → (l : ℕ) → l < suc i
    → is_ready (rotated l k) ≡ false
unfolding rotated
earlier k i now later zero lt = now
earlier k i now later (suc l) lt = later l (omega arith)

Picks-later :
    (n : ℕ) (k : Kernel) (j : ℕ)
    → is_ready k ≡ false
    → Picks n (rotate k) j
    → Picks (suc n) k (suc j)
unfolding pick_task rotated
Picks-later n k j now (i, le, (ready, first), e) =
    (suc i, omega arith, (ready, earlier k i now first), rw now e)

pick_task-IsFirst :
    (n : ℕ) (k : Kernel) (j : ℕ) → j < n → is_ready (rotated j k) ≡ true → Picks n k j
unfolding rotated
pick_task-IsFirst zero k j lt ready = absurd (omega arith)
pick_task-IsFirst (suc n) k zero lt ready = Picks-now n k 0 ready
pick_task-IsFirst (suc n) k (suc j) lt ready = elim (Bool-cases (is_ready k)) [
  | inl now ↦ Picks-now n k (suc j) now
  | inr now ↦ Picks-later n k j now (pick_task-IsFirst n (rotate k) j (omega arith) ready)
]

-- two process numbers have two control blocks
pcb_at-ne : (a b : ℕ) → a < 7 → b < 7 → a ≢ b → pcb_at a ≢ pcb_at b
pcb_at-ne a b lta ltb ne e = omega (arith, ne, e)

not_head : (a b : Bool) → (a && not b) ≡ true → b ≡ false
not_head a b e = ground arith

-- the current process is the one with its own number
abbrev pub IsNumbered : Kernel → Type 0
IsNumbered k =
    ((k.pcbs k.curr_process).process_id < 7)
    × (k.curr_process ≡ pcb_at (k.pcbs k.curr_process).process_id)

curr_process-rotated : (j : ℕ) (k : Kernel) → (rotated j k).curr_process ≡ k.curr_process
unfolding rotated
curr_process-rotated zero k = refl
curr_process-rotated (suc j) k = curr_process-rotated j (rotate k)

IsNumbered-rotated : (j : ℕ) (k : Kernel) → IsNumbered k → IsNumbered (rotated j k)
unfolding rotated
IsNumbered-rotated zero k own = own
IsNumbered-rotated (suc j) k own = IsNumbered-rotated j (rotate k) own

context_switch-switched :
    (k : Kernel) (pid esp ebp : ℕ)
    → pid < 7
    → (context_switch (rotate k) pid esp ebp).curr_process ≡ pcb_at pid
unfolding context_switch
context_switch-switched k pid esp ebp lt =
    let real : (pid == minus_one) ≡ false = ground arith in rw real refl

ready-other :
    (k : Kernel) → IsNumbered k → head k < 7 → is_ready k ≡ true → pcb_at (head k) ≢ k.curr_process
ready-other k (small, own) lt ready e =
    let apart : (head k == (k.pcbs k.curr_process).process_id) ≡ false =
      not_head ((k.pcbs (pcb_at (head k))).child_flag == 0)
        (head k == (k.pcbs k.curr_process).process_id) ready in
    pcb_at-ne (head k) (k.pcbs k.curr_process).process_id lt small (ground (arith, apart)) (e ∙ own)

-- The current process being the one with its own number below 7: when some task among the first
-- `count_tasks` of the queue, the one at place `j`, waits for no child and is not the running process,
-- and the queue has process numbers below 7, and no empty place, up to that one, `scheduling` does
-- switch, and to another process: the first such task, at most `j` places behind the head, with the
-- queue turned that far and once more.
pub scheduling-IsFirst :
    (k : Kernel) (j esp ebp : ℕ)
    → IsNumbered k
    → j < count_tasks max_tasks k.task_queue
    → ((l : ℕ) → l ≤ j → head (rotated l k) < 7)
    → is_ready (rotated j k) ≡ true
    → (i : ℕ) × (i ≤ j)
      × IsFirst k i
      × (scheduling k esp ebp ≡ context_switch (rotate (rotated i k)) (head (rotated i k)) esp ebp)
      × ((scheduling k esp ebp).curr_process ≡ pcb_at (head (rotated i k)))
      × ((scheduling k esp ebp).curr_process ≢ k.curr_process)
unfolding scheduling switch_to
scheduling-IsFirst k j esp ebp numbered lt real ready =
    let (i, le, first, e) = pick_task-IsFirst (count_tasks max_tasks k.task_queue) k j lt ready in
    let turned = rotated i k in
    let done : scheduling k esp ebp ≡ context_switch (rotate turned) (head turned) esp ebp =
      rw e refl in
    let now : (scheduling k esp ebp).curr_process ≡ pcb_at (head turned) =
      ap (λ (k' : Kernel). k'.curr_process) done
      ∙ context_switch-switched turned (head turned) esp ebp (real i le) in
    let other = ready-other turned (IsNumbered-rotated i k numbered) (real i le) first.0 in
    (i, le, first, done, now, λ stays. other (sym now ∙ stays ∙ sym (curr_process-rotated i k)))
