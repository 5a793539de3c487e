-- ===== src/Paging/Walk.antt =====
-- The page walk that the processor documents for 32-bit paging with 4 MB pages: what an access to
-- a virtual address reaches, or `none` for a page fault. It is the specification of the tables.
use fireball_os.Base.{
  ℕ, ◌+◌, ◌*◌, ◌/◌, ◌%◌, ◌^◌, ◌==◌, if◌then◌else◌, ◌&&◌, Bool, Option, none, some,
}
use fireball_os.Paging.{Pde, Pte, Tables}

-- whether an access, of a user program or of the kernel, is refused by an entry
abbrev pub refused : (user : Bool) (present user_super : ℕ) → Bool
refused user present user_super = if present == 0 then Bool.true else user && user_super == 0

unfoldable pub walk_pte : Bool → Pte → ℕ → Option ℕ
walk_pte user pte vaddr =
    if refused user pte.present pte.user_super
    then none
    else some (pte.page_base * 4096 + vaddr % 4096)

unfoldable pub walk_pde : Bool → (ℕ → ℕ → Pte) → Pde → ℕ → Option ℕ
walk_pde user pt pde vaddr =
    if refused user pde.present pde.user_super
    then none
    else if pde.page_size == 1
    then some (pde.page_table_base / 2 ^ 10 * 2 ^ 22 + vaddr % 2 ^ 22)
    else walk_pte user (pt (pde.page_table_base * 4096) (vaddr / 4096 % 1024)) vaddr

unfoldable pub translate : Tables → (user : Bool) (vaddr : ℕ) → Option ℕ
translate t user vaddr = walk_pde user t.pt (t.pd t.cr3 (vaddr / 2 ^ 22)) vaddr
