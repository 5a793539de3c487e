-- ===== src/Paging.antt =====
-- student-distrib/paging.c and paging.h: page directories and tables, and the operations that set
-- them up for the kernel and for a process.
pub mod Walk
pub mod Invariant
pub mod Tasks
pub mod Kernel
use fireball_os.Base.{
  ℕ, zero, suc, ◌+◌, ◌-◌, ◌*◌, ◌/◌, ◌%◌, ◌^◌, ◌≤◌, ◌<◌, ◌≡◌, ◌≢◌, ◌==◌, if◌then◌else◌, ltb, leb,
  ◌&&◌, ◌||◌, Bool, true, false, Option, none, some, u32,
}

-- VIDEO_MEM, KERNEL_MEM, USER_VID, PGRM_IMG, PAGE1 and PAGE_SIZE
abbrev pub video_mem : ℕ
video_mem = 0xb8000

abbrev pub kernel_mem : ℕ
kernel_mem = 0x400000

abbrev pub user_vid : ℕ
user_vid = 0x7cb8000

abbrev pub pgrm_img : ℕ
pgrm_img = 0x8048000

abbrev pub page1 : ℕ
page1 = 0x800000

abbrev pub page_size_4mb : ℕ
page_size_4mb = 0x400000

-- NUM_PD, NUM_PT, NUM_PDE and NUM_PTE
abbrev pub num_pd : ℕ
num_pd = 7

abbrev pub num_pt : ℕ
num_pt = 7

abbrev pub num_pde : ℕ
num_pde = 1024

abbrev pub num_pte : ℕ
num_pte = 1024

-- `PDE_t`, by its bit fields
pub record Pde : Type 0 where
  pub present : ℕ
  pub read_write : ℕ
  pub user_super : ℕ
  pub write_through : ℕ
  pub cache_disabled : ℕ
  pub accessed : ℕ
  pub reserved : ℕ
  pub page_size : ℕ
  pub global : ℕ
  pub avail : ℕ
  pub page_table_base : ℕ

-- `PTE_t`, by its bit fields
pub record Pte : Type 0 where
  pub present : ℕ
  pub read_write : ℕ
  pub user_super : ℕ
  pub write_through : ℕ
  pub cache_disabled : ℕ
  pub accessed : ℕ
  pub dirty : ℕ
  pub page_table_attribute : ℕ
  pub global : ℕ
  pub avail : ℕ
  pub page_base : ℕ

abbrev pub pde_default : Pde
pde_default = record {
  present = 0;
  read_write = 0;
  user_super = 0;
  write_through = 0;
  cache_disabled = 0;
  accessed = 0;
  reserved = 0;
  page_size = 0;
  global = 0;
  avail = 0;
  page_table_base = 0;
}

abbrev pub pte_default : Pte
pte_default = record {
  present = 0;
  read_write = 0;
  user_super = 0;
  write_through = 0;
  cache_disabled = 0;
  accessed = 0;
  dirty = 0;
  page_table_attribute = 0;
  global = 0;
  avail = 0;
  page_base = 0;
}

-- An address is below 2 ^ 32. `x & 0xFFC00000` and `x & 0xFFFFF000` clear the low 22 and 12 bits.
abbrev pub clear_low : ℕ → ℕ → ℕ
clear_low k x = x / 2 ^ k * 2 ^ k

abbrev pub set_pde_4mb_page : Pde → ℕ → Pde
set_pde_4mb_page p addr = record p {
  page_table_base = clear_low 22 addr / 2 ^ 12;
  page_size = 1;
  accessed = 0;
  present = 1;
}

abbrev pub set_pde_4kb_pt : Pde → ℕ → Pde
set_pde_4kb_pt p addr = record p {
  page_table_base = clear_low 12 addr / 2 ^ 12;
  page_size = 0;
  accessed = 0;
  present = 1;
}

abbrev pub set_pte : Pte → ℕ → Pte
set_pte p addr = record p { page_base = clear_low 12 addr / 2 ^ 12; accessed = 0; present = 1 }

abbrev pub get_pde_offset : ℕ → ℕ
get_pde_offset addr = clear_low 22 addr / 2 ^ 22

-- `addr & 0x003FF000` keeps bits 12 to 21
abbrev pub get_pte_offset : ℕ → ℕ
get_pte_offset addr = clear_low 12 (addr % 2 ^ 22) / 2 ^ 12

abbrev pub get_page_offset : ℕ → ℕ
get_page_offset addr = addr % 2 ^ 12

-- Where the linker put the arrays `PT[0]` and `PT[1]`: aligned, as their attribute says.
pub record Layout : Type 0 where
  pub pt0 : ℕ
  pub pt1 : ℕ
  pub aligned0 : pt0 % 4096 ≡ 0
  pub aligned1 : pt1 % 4096 ≡ 0
  pub different : pt0 ≢ pt1

-- The static variables: `PD[i][k]`, the page table at an address, `PGRM_PAGE[i]`, the index of the
-- directory that `cur_PD` points to, the one that CR3 holds, and the bits set in CR0 and CR4.
pub record Tables : Type 0 where
  pub pd : ℕ → ℕ → Pde
  pub pt : ℕ → ℕ → Pte
  pub pgrm_page : ℕ → ℕ
  pub cur_pd : ℕ
  pub cr3 : ℕ
  pub pse : Bool
  pub pg : Bool
  pub pge : Bool

abbrev pub set_pde : Tables → (i k : ℕ) → Pde → Tables
set_pde t i k e = record t { pd = λ j l. if j == i && l == k then e else t.pd j l }

abbrev pub set_pt_entry : Tables → (base k : ℕ) → Pte → Tables
set_pt_entry t base k e = record t { pt = λ a l. if a == base && l == k then e else t.pt a l }

unfoldable pub map_4mb_page : Tables → (vir_addr phys_addr user_super read_write : ℕ) → Tables
map_4mb_page t vir_addr phys_addr user_super read_write =
    set_pde t t.cur_pd (get_pde_offset vir_addr) (
      set_pde_4mb_page
        (record pde_default { user_super = user_super % 2; read_write = read_write % 2 }) phys_addr)

-- `PID < 0` is never true of an unsigned number; the result is the directory's index.
unfoldable pub task_mem_init : Tables → ℕ → Option ℕ × Tables
task_mem_init t pid =
    if ltb 6 pid
    then (none, t)
    else (let t1 = map_4mb_page (record t { cur_pd = pid }) pgrm_img (t.pgrm_page pid) 1 1 in
        (some pid, record t1 { cr3 = t1.cur_pd }))

module _ (layout : Layout) where
  abbrev pub video_pde : Pde
  video_pde = set_pde_4kb_pt (record pde_default { global = 1; read_write = 1 }) layout.pt0

  abbrev pub kernel_pde : Pde
  kernel_pde = set_pde_4mb_page (record pde_default { global = 1; read_write = 1 }) kernel_mem

  -- The loops store a default in each entry of PD[0], and copy PD[0] to PD[1], ..., PD[6].
  unfoldable pub init_pd : Tables → Tables
  init_pd t =
      let t1 = record t { pd = λ i k. if i == 0 && ltb k num_pde then pde_default else t.pd i k } in
      let t2 = record t1 { cur_pd = 0 } in
      let t3 = set_pde t2 t2.cur_pd (get_pde_offset video_mem) video_pde in
      let t4 = set_pde t3 t3.cur_pd (get_pde_offset kernel_mem) kernel_pde in
      let t5 = record t4 { cr3 = t4.cur_pd } in
      record t5 {
        pd = λ i k. if leb 1 i && ltb i num_pd && ltb k num_pde then t5.pd 0 k else t5.pd i k;
      }

  -- The tables behind PT[1] are cleared too; nothing refers to them.
  unfoldable pub init_video_pt : Tables → Tables
  init_video_pt t =
      let t1 = record t {
        pt = λ a l.
            if (a == layout.pt0 || a == layout.pt1) && ltb l num_pte then pte_default else t.pt a l;
      } in
      set_pt_entry t1 layout.pt0 (get_pte_offset video_mem)
        (set_pte (record pte_default { global = 1; read_write = 1 }) video_mem)

  unfoldable pub init_paging : Tables → Tables
  init_paging t =
      let t1 = record t {
        pgrm_page = λ i. if ltb i num_pd then page1 + i * page_size_4mb else t.pgrm_page i;
      } in
      record (init_video_pt (init_pd t1)) { pse = true; pg = true; pge = true }

  abbrev pub user_vid_pte : Pte
  user_vid_pte = set_pte (record pte_default { user_super = 1; read_write = 1 }) video_mem

  abbrev pub user_vid_pde : Pde
  user_vid_pde = set_pde_4kb_pt (record pde_default { user_super = 1; read_write = 1 }) layout.pt1

  unfoldable pub user_vidmap : Tables → ℕ × Tables
  user_vidmap t =
      let k = get_pte_offset user_vid in
      let t1 =
        if (t.pt layout.pt1 k).present == 0 then set_pt_entry t layout.pt1 k user_vid_pte else t in
      let d = get_pde_offset user_vid in
      let t2 =
        if (t1.pd t1.cur_pd d).present == 0 then set_pde t1 t1.cur_pd d user_vid_pde else t1 in
      (user_vid, t2)
