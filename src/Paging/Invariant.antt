-- ===== src/Paging/Invariant.antt =====
-- What holds of the tables between any two operations, and that each operation keeps it.
use fireball_os.Base.{
  ℕ, ◌+◌, ◌*◌, ◌<◌, ◌≡◌, ◌≢◌, ◌⊎◌, inl, inr, ◌==◌, if◌then◌else◌, ltb, true, false, arith,
}
use native.Mathlib.Decide.{ℕ_discrete, dec_lt}
use fireball_os.Paging.{
  Pde, Pte, Tables, Layout, video_pde, kernel_pde, user_vid_pde, user_vid_pte, pde_default,
  pte_default, set_pde_4mb_page, set_pte, page1, page_size_4mb, video_mem, init_pd, init_video_pt,
  init_paging, task_mem_init, user_vidmap, map_4mb_page, set_pde, set_pt_entry,
}

-- the entry that maps the program of process `pid`
abbrev pub program_pde : ℕ → Pde
program_pde pid =
    set_pde_4mb_page (record pde_default { user_super = 1; read_write = 1 })
      (page1 + pid * page_size_4mb)

abbrev pub kernel_vid_pte : Pte
kernel_vid_pte = set_pte (record pte_default { global = 1; read_write = 1 }) video_mem

-- The directory of a process: entry 0 leads to the first page table, entry 1 maps the kernel, entry
-- 31 leads to the second page table or nowhere, entry 32 maps the process's own program or nothing,
-- and no other entry is present.
pub record IsDirectory (l : Layout) (pt : ℕ → ℕ → Pte) (pid : ℕ) (d : ℕ → Pde) : Type 0 where
  pub video : d 0 ≡ video_pde l
  pub kernel : d 1 ≡ kernel_pde l
  pub user_vid : ((d 31).present ≡ 0) ⊎ ((d 31 ≡ user_vid_pde l) × (pt l.pt1 0xb8 ≡ user_vid_pte l))
  pub program : ((d 32).present ≡ 0) ⊎ (d 32 ≡ program_pde pid)
  pub others : (k : ℕ) → 1 < k → k < 1024 → k ≢ 31 → k ≢ 32 → (d k).present ≡ 0

pub record IsWell (l : Layout) (t : Tables) : Type 0 where
  pub directories : (pid : ℕ) → pid < 7 → IsDirectory l t.pt pid (t.pd pid)
  pub pages : (pid : ℕ) → pid < 7 → t.pgrm_page pid ≡ page1 + pid * page_size_4mb
  pub current : t.cur_pd < 7
  pub loaded : t.cr3 < 7
  pub kernel_vid : t.pt l.pt0 0xb8 ≡ kernel_vid_pte
  pub kernel_rest : (k : ℕ) → k < 1024 → k ≢ 0xb8 → (t.pt l.pt0 k).present ≡ 0
  pub user_vid : ((t.pt l.pt1 0xb8).present ≡ 0) ⊎ (t.pt l.pt1 0xb8 ≡ user_vid_pte l)
  pub user_rest : (k : ℕ) → k < 1024 → k ≢ 0xb8 → (t.pt l.pt1 k).present ≡ 0

-- `init_paging` sets the tables up, whatever they held.
pub init_paging-IsWell : (l : Layout) (t : Tables) → IsWell l (init_paging l t)
unfolding init_paging init_pd init_video_pt
init_paging-IsWell l t = record {
  directories = λ pid lt. record {
    video = ground arith;
    kernel = ground arith;
    user_vid = inl (ground arith);
    program = inl (ground arith);
    others = λ k lo hi a b. ground arith;
  };
  pages = λ pid lt. ground arith;
  current = ground arith;
  loaded = ground arith;
  kernel_vid = ground arith;
  kernel_rest = λ k lt ne. ground arith;
  user_vid = inl (ground (arith, l.different));
  user_rest = λ k lt ne. ground (arith, l.different);
}

-- the program's entry set in a directory, which becomes the current one
abbrev set_program : Tables → ℕ → Tables
set_program t pid = record (set_pde t pid 32 (program_pde pid)) { cur_pd = pid; cr3 = pid }

module _ (l : Layout) (t : Tables) (pid : ℕ) (lt : pid < 7) (w : IsWell l t) where
  set_program-IsDirectory : (j : ℕ) → j < 7 → IsDirectory l t.pt j ((set_program t pid).pd j)
  set_program-IsDirectory j jlt =
      let d = w.directories j jlt in
      record {
        video = ground (arith, d.video);
        kernel = ground (arith, d.kernel);
        user_vid = elim d.user_vid [
          | inl z ↦ inl (ground (arith, z))
          | inr z ↦ inr (ground (arith, z.0), z.1)
        ];
        program = elim (ℕ_discrete j pid) [
          | yes same ↦ inr (ground (arith, same))
          | no other ↦ elim d.program [
            | inl z ↦ inl (ground (arith, z, other))
            | inr z ↦ inr (ground (arith, z, other))
          ]
        ];
        others = λ k lo hi a b. ground (arith, d.others k lo hi a b, b);
      }

  set_program-IsWell : IsWell l (set_program t pid)
  set_program-IsWell = record {
    directories = set_program-IsDirectory;
    pages = w.pages;
    current = lt;
    loaded = lt;
    kernel_vid = w.kernel_vid;
    kernel_rest = w.kernel_rest;
    user_vid = w.user_vid;
    user_rest = w.user_rest;
  }

-- `task_mem_init` keeps the tables well formed.
pub task_mem_init-IsWell :
    (l : Layout) (t : Tables) (pid : ℕ) → IsWell l t → IsWell l (task_mem_init t pid).1
unfolding task_mem_init map_4mb_page
task_mem_init-IsWell l t pid w = elim (dec_lt 6 pid) [
  | yes bad ↦ let e : ltb 6 pid ≡ true = ground arith in rw e w
  | no good ↦
      let e : ltb 6 pid ≡ false = ground arith in
      let lt : pid < 7 = omega arith in rw (e, w.pages pid lt) (set_program-IsWell l t pid lt w)
]

-- the two steps of `user_vidmap`
abbrev pub set_user_vid_pte : Layout → Tables → Tables
set_user_vid_pte l t =
    if (t.pt l.pt1 0xb8).present == 0 then set_pt_entry t l.pt1 0xb8 (user_vid_pte l) else t

abbrev pub set_user_vid_pde : Layout → Tables → Tables
set_user_vid_pde l t =
    if (t.pd t.cur_pd 31).present == 0 then set_pde t t.cur_pd 31 (user_vid_pde l) else t

pub user_vid_pte_present :
    (l : Layout) (t : Tables) → IsWell l t → (set_user_vid_pte l t).pt l.pt1 0xb8 ≡ user_vid_pte l
user_vid_pte_present l t w = elim w.user_vid [ inl z ↦ rw z (ground arith) | inr z ↦ rw z z ]

pub set_user_vid_pte-IsWell :
    (l : Layout) (t : Tables) → IsWell l t → IsWell l (set_user_vid_pte l t)
set_user_vid_pte-IsWell l t w = elim w.user_vid [
  | inr z ↦ rw z w
  | inl z ↦ rw z (record {
    directories = λ pid lt.
        let d = w.directories pid lt in
        record {
          video = d.video;
          kernel = d.kernel;
          user_vid = elim d.user_vid [ inl y ↦ inl y | inr y ↦ inr (y.0, ground arith) ];
          program = d.program;
          others = d.others;
        };
    pages = w.pages;
    current = w.current;
    loaded = w.loaded;
    kernel_vid = ground (arith, w.kernel_vid, l.different);
    kernel_rest = λ k lt ne. ground (arith, w.kernel_rest k lt ne, l.different);
    user_vid = inr (ground arith);
    user_rest = λ k lt ne. ground (arith, w.user_rest k lt ne, ne);
  })
]

module _ (l : Layout) (t : Tables) (w : IsWell l t)
    (mapped : t.pt l.pt1 0xb8 ≡ user_vid_pte l) where
  set_user_vid_pde-IsWell : IsWell l (set_user_vid_pde l t)
  set_user_vid_pde-IsWell = elim (ℕ_discrete (t.pd t.cur_pd 31).present 0) [
    | yes z ↦ rw z (record {
      directories = λ pid lt.
          let d = w.directories pid lt in
          record {
            video = ground (arith, d.video);
            kernel = ground (arith, d.kernel);
            user_vid = elim (ℕ_discrete pid t.cur_pd) [
              | yes same ↦ inr (ground (arith, same), mapped)
              | no other ↦ elim d.user_vid [
                | inl y ↦ inl (ground (arith, y, other))
                | inr y ↦ inr (ground (arith, y.0, other), y.1)
              ]
            ];
            program = elim d.program [
              | inl y ↦ inl (ground (arith, y))
              | inr y ↦ inr (ground (arith, y))
            ];
            others = λ k lo hi a b. ground (arith, d.others k lo hi a b, a);
          };
      pages = w.pages;
      current = w.current;
      loaded = w.loaded;
      kernel_vid = w.kernel_vid;
      kernel_rest = w.kernel_rest;
      user_vid = w.user_vid;
      user_rest = w.user_rest;
    })
    | no p ↦ let e : ((t.pd t.cur_pd 31).present == 0) ≡ false = ground (arith, p) in rw e w
  ]

-- `user_vidmap` keeps the tables well formed.
pub user_vidmap-IsWell : (l : Layout) (t : Tables) → IsWell l t → IsWell l (user_vidmap l t).1
unfolding user_vidmap
user_vidmap-IsWell l t w =
    set_user_vid_pde-IsWell l (set_user_vid_pte l t) (set_user_vid_pte-IsWell l t w)
      (user_vid_pte_present l t w)
