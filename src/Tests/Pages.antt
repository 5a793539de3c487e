-- ===== src/Tests/Pages.antt =====
-- The page tables of a kernel with two processes.
use fireball_os.Base.{◌+◌, ◌-◌, ◌*◌, ◌<◌, ◌≡◌, ◌⊎◌, refl, some, none, arith, true, false}
use fireball_os.Paging.{
  Layout, Tables, pde_default, pte_default, init_paging, task_mem_init, user_vidmap, page1,
  page_size_4mb, map_4mb_page, init_pd, init_video_pt,
}
use fireball_os.Paging.Walk.{translate, walk_pde, walk_pte}
use fireball_os.Paging.Invariant.{
  IsWell, init_paging-IsWell, task_mem_init-IsWell, user_vidmap-IsWell,
}
use fireball_os.Paging.Tasks.{UserReach, translate-user, task_mem_init-maps}

abbrev pub layout : Layout
layout = record {
  pt0 = 4198400;
  pt1 = 4202496;
  aligned0 = refl;
  aligned1 = refl;
  different = omega arith;
}

abbrev pub blank : Tables
blank = record {
  pd = λ i k. pde_default;
  pt = λ a k. pte_default;
  pgrm_page = λ i. 0;
  cur_pd = 0;
  cr3 = 0;
  pse = false;
  pg = false;
  pge = false;
}

abbrev pub booted : Tables
booted = init_paging layout blank

abbrev second : Tables
second = (task_mem_init booted 2).1

abbrev third : Tables
third = (user_vidmap layout (task_mem_init booted 3).1).1

booted-IsWell : IsWell layout booted
booted-IsWell = init_paging-IsWell layout blank

second-IsWell : IsWell layout second
second-IsWell = task_mem_init-IsWell layout booted 2 booted-IsWell

started-IsWell : IsWell layout (task_mem_init booted 3).1
started-IsWell = task_mem_init-IsWell layout booted 3 booted-IsWell

third-IsWell : IsWell layout third
third-IsWell = user_vidmap-IsWell layout (task_mem_init booted 3).1 started-IsWell

user_vidmap-IsWell_example : IsWell layout (user_vidmap layout second).1
user_vidmap-IsWell_example = user_vidmap-IsWell layout second second-IsWell

translate-user_example : UserReach second.cr3 0x8048010 0x1048010
unfolding translate walk_pde walk_pte task_mem_init map_4mb_page init_paging init_pd init_video_pt
translate-user_example =
    translate-user layout second 0x8048010 0x1048010 second-IsWell (omega arith) refl

task_mem_init-maps_example :
    let (r, t') = task_mem_init booted 2 in
    ((2 < 7)
      × (r ≡ some 2)
      × (t'.cr3 ≡ 2)
      × (translate t' true 0x8048010 ≡ some (page1 + 2 * page_size_4mb + (0x8048010 - 0x8000000))))
    ⊎ ((6 < 2) × (r ≡ none) × (t' ≡ booted))
task_mem_init-maps_example =
    task_mem_init-maps layout booted 2 0x8048010 booted-IsWell (omega arith)
