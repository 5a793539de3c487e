-- ===== src/Calls/Gate.antt =====
-- `syscall_handler` of student-distrib/wrapper.S: the interrupt 0x80 and its jump table.
use fireball_os.Base.{
  ℕ, ◌==◌, if◌then◌else◌, ltb, Bool, ◌||◌, ◌&&◌, not, Option, none, some, minus_one, is_negative,
}

-- What stands behind a number, given the registers ebx, ecx and edx; `S` is the state of the kernel.
abbrev pub Entry : Type 0 → Type 0
Entry S = (ebx ecx edx : ℕ) → S → Option (ℕ × S)

pub record Entries (S : Type 0) : Type 0 where
  pub to_halt : Entry S
  pub to_execute : Entry S
  pub to_read : Entry S
  pub to_write : Entry S
  pub to_open : Entry S
  pub to_close : Entry S
  pub to_getargs : Entry S
  pub to_vidmap : Entry S

-- The entries 1 to 8. The table ends there, and entry 0 is no function: `none`.
unfoldable pub jump_table : {S : Type 0} → Entries S → ℕ → Entry S
jump_table e n =
    if n == 1
    then e.to_halt
    else if n == 2
    then e.to_execute
    else if n == 3
    then e.to_read
    else if n == 4
    then e.to_write
    else if n == 5
    then e.to_open
    else if n == 6
    then e.to_close
    else if n == 7
    then e.to_getargs
    else if n == 8
    then e.to_vidmap
    else (λ ebx ecx edx s. none)

-- `cmpl $1, %eax; jl` and `cmpl $10, %eax; jg`, both signed
abbrev pub out_of_range : (eax : ℕ) → Bool
out_of_range eax = (is_negative eax || ltb eax 1) || (not (is_negative eax) && ltb 10 eax)

unfoldable pub syscall_handler : {S : Type 0} → Entries S → (eax : ℕ) → Entry S
unfolding jump_table
syscall_handler e eax ebx ecx edx s =
    if out_of_range eax then some (minus_one, s) else jump_table e eax ebx ecx edx s
