-- ===== src/Paging/Kernel.antt =====
-- What the tables map for the kernel, and the page that `user_vidmap` adds.
use fireball_os.Base.{
  ℕ, ◌+◌, ◌*◌, ◌/◌, ◌%◌, ◌^◌, ◌≤◌, ◌<◌, ◌≡◌, ◌⊎◌, inl, inr, ◌==◌, true, false, some, arith, sym,
  ◌∙◌, ap,
}
use fireball_os.Paging.{
  Pte, Tables, Layout, video_pde, user_vid_pde, user_vidmap, video_mem, user_vid,
}
use fireball_os.Paging.Walk.{translate, walk_pde, walk_pte}
use fireball_os.Paging.Invariant.{
  IsWell, kernel_vid_pte, set_user_vid_pte, set_user_vid_pde, set_user_vid_pte-IsWell,
  user_vid_pte_present,
}
use fireball_os.Paging.Tasks.{walk_kernel, walk_table, walk_user_vid}

-- the virtual addresses that the kernel uses: its own 4 MB, and the page of the video memory
abbrev pub InKernel : ℕ → Type 0
InKernel v = ((0x400000 ≤ v) × (v < 0x800000)) ⊎ ((0xb8000 ≤ v) × (v < 0xb9000))

walk_video :
    (l : Layout) (pt : ℕ → ℕ → Pte) (v : ℕ)
    → walk_pde false pt (video_pde l) v ≡ walk_pte false (pt l.pt0 (v / 4096 % 1024)) v
unfolding walk_pde
walk_video l pt v =
    let base : l.pt0 / 2 ^ 12 * 2 ^ 12 / 2 ^ 12 * 4096 ≡ l.pt0 = omega (arith, l.aligned0) in
    rw base

walk_kernel_vid : (v : ℕ) → walk_pte false kernel_vid_pte v ≡ some (video_mem + v % 4096)
unfolding walk_pte
walk_kernel_vid v = ground arith

-- With well-formed tables, whatever process is current, the kernel finds itself and the video memory
-- at their own addresses.
pub translate-kernel :
    (l : Layout) (t : Tables) (v : ℕ) → IsWell l t → InKernel v → translate t false v ≡ some v
unfolding translate
translate-kernel l t v w range =
    let d = w.directories t.cr3 w.loaded in
    elim range [
      | inl kernel ↦
          let k : v / 2 ^ 22 ≡ 1 = omega arith in
          rw (k, d.kernel, walk_kernel l t.pt v) (ap some (omega arith))
      | inr video ↦
          let k : v / 2 ^ 22 ≡ 0 = omega arith in
          let page : v / 4096 % 1024 ≡ 0xb8 = omega arith in
          rw (k, d.video, walk_video l t.pt v, page, w.kernel_vid, walk_kernel_vid v)
            (ap some (omega arith))
    ]

pde_after :
    (l : Layout) (t : Tables) → IsWell l t → (set_user_vid_pde l t).pd t.cur_pd 31 ≡ user_vid_pde l
pde_after l t w = elim (w.directories t.cur_pd w.current).user_vid [
  | inl z ↦ rw z (ground arith)
  | inr z ↦ let e : ((t.pd t.cur_pd 31).present == 0) ≡ false = ground (arith, z.0) in rw e z.0
]

pt_after : (l : Layout) (t : Tables) → (set_user_vid_pde l t).pt ≡ t.pt
pt_after l t = ground arith

cr3_after : (l : Layout) (t : Tables) → (set_user_vid_pde l t).cr3 ≡ t.cr3
cr3_after l t = ground arith

cr3_same : (l : Layout) (t : Tables) → (set_user_vid_pte l t).cr3 ≡ t.cr3
cr3_same l t = ground arith

cur_pd_same : (l : Layout) (t : Tables) → (set_user_vid_pte l t).cur_pd ≡ t.cur_pd
cur_pd_same l t = ground arith

-- With well-formed tables `user_vidmap` returns an address at which the current process, when its directory is the one
-- loaded, finds the 4 KB of the video memory.
pub user_vidmap-maps :
    (l : Layout) (t : Tables) (i : ℕ)
    → IsWell l t
    → t.cr3 ≡ t.cur_pd
    → i < 4096
    → let (r, t') = user_vidmap l t in translate t' true (r + i) ≡ some (video_mem + i)
unfolding user_vidmap translate
user_vidmap-maps l t i w loaded lt =
    let k : (user_vid + i) / 2 ^ 22 ≡ 31 = omega arith in
    let page : (user_vid + i) / 4096 % 1024 ≡ 0xb8 = omega arith in
    let t1 = set_user_vid_pte l t in
    let w1 = set_user_vid_pte-IsWell l t w in
    let current : (set_user_vid_pde l t1).cr3 ≡ t1.cur_pd =
      cr3_after l t1 ∙ cr3_same l t ∙ loaded ∙ sym (cur_pd_same l t) in
    rw
      (
        k,
        current,
        pde_after l t1 w1,
        walk_table true l (set_user_vid_pde l t1).pt (user_vid + i),
        page,
        pt_after l t1,
        user_vid_pte_present l t w,
        walk_user_vid true l (user_vid + i),
      )
      (ap some (omega arith))
