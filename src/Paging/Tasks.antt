-- ===== src/Paging/Tasks.antt =====
-- What the tables map: the kernel's view, a program's view, and that programs are kept apart.
use fireball_os.Base.{
  ℕ, ◌+◌, ◌-◌, ◌*◌, ◌/◌, ◌%◌, ◌^◌, ◌≤◌, ◌<◌, ◌≡◌, ◌≢◌, ◌⊎◌, inl, inr, refl, ◌==◌, ltb, Bool, true,
  false, Option, none, some, u32, arith, sym, ◌∙◌, ap,
}
use native.Mathlib.Decide.{ℕ_discrete, dec_lt}
use fireball_os.Paging.{
  Pde, Pte, Tables, Layout, kernel_pde, user_vid_pde, user_vid_pte, page1, page_size_4mb,
  task_mem_init, map_4mb_page, kernel_mem, video_mem,
}
use fireball_os.Paging.Walk.{translate, walk_pde, walk_pte}
use fireball_os.Paging.Invariant.{IsWell, IsDirectory, program_pde}

-- the 4 MB of virtual addresses of a program, and the page of the video memory it may ask for
abbrev pub InProgram : ℕ → Type 0
InProgram v = (0x8000000 ≤ v) × (v < 0x8400000)

abbrev pub InUserVid : ℕ → Type 0
InUserVid v = (0x7cb8000 ≤ v) × (v < 0x7cb9000)

walk_pde-absent :
    (user : Bool) (pt : ℕ → ℕ → Pte) (d : Pde) (v : ℕ) → d.present ≡ 0 → walk_pde user pt d v ≡ none
unfolding walk_pde
walk_pde-absent user pt d v e = ground arith

walk_pte-absent : (user : Bool) (e : Pte) (v : ℕ) → e.present ≡ 0 → walk_pte user e v ≡ none
unfolding walk_pte
walk_pte-absent user e v p = ground arith

walk_program :
    (user : Bool) (pt : ℕ → ℕ → Pte) (pid v : ℕ)
    → walk_pde user pt (program_pde pid) v ≡ some (page1 + pid * page_size_4mb + v % 2 ^ 22)
unfolding walk_pde
walk_program true pt pid v = ground arith
walk_program false pt pid v = ground arith

pub walk_kernel :
    (l : Layout) (pt : ℕ → ℕ → Pte) (v : ℕ)
    → walk_pde false pt (kernel_pde l) v ≡ some (kernel_mem + v % 2 ^ 22)
unfolding walk_pde
walk_kernel l pt v = ground arith

walk_supervisor :
    (pt : ℕ → ℕ → Pte) (d : Pde) (v : ℕ) → d.user_super ≡ 0 → walk_pde true pt d v ≡ none
unfolding walk_pde
walk_supervisor pt d v e = ground arith

-- the page table of a 4 KB mapping is the one whose address was stored
pub walk_table :
    (user : Bool) (l : Layout) (pt : ℕ → ℕ → Pte) (v : ℕ)
    → walk_pde user pt (user_vid_pde l) v ≡ walk_pte user (pt l.pt1 (v / 4096 % 1024)) v
unfolding walk_pde
walk_table user l pt v =
    let base : l.pt1 / 2 ^ 12 * 2 ^ 12 / 2 ^ 12 * 4096 ≡ l.pt1 = omega (arith, l.aligned1) in
    elim user
      as (λ u. walk_pde u pt (user_vid_pde l) v ≡ walk_pte u (pt l.pt1 (v / 4096 % 1024)) v) [
        | true ↦ rw base
        | false ↦ rw base
      ]

pub walk_user_vid :
    (user : Bool) (l : Layout) (v : ℕ)
    → walk_pte user (user_vid_pte l) v ≡ some (video_mem + v % 4096)
unfolding walk_pte
walk_user_vid true l v = ground arith
walk_user_vid false l v = ground arith

-- What a user access may reach.
abbrev pub UserReach : (pid v p : ℕ) → Type 0
UserReach pid v p =
    (InProgram v × (p ≡ page1 + pid * page_size_4mb + (v - 0x8000000)))
    ⊎ (InUserVid v × (p ≡ video_mem + (v - 0x7cb8000)))

none-ne-some : {o : Option ℕ} {p : ℕ} → o ≡ none → o ≡ some p → ⊥
none-ne-some a b = cc

module _ (l : Layout) (t : Tables) (w : IsWell l t) (pid v p : ℕ) (lt : pid < 7) (small : v < u32)
    (e : walk_pde true t.pt (t.pd pid (v / 2 ^ 22)) v ≡ some p) where
  abbrev d : IsDirectory l t.pt pid (t.pd pid)
  d = w.directories pid lt

  reach_program : v / 2 ^ 22 ≡ 32 → UserReach pid v p
  reach_program k = elim d.program [
    | inl z ↦ absurd (none-ne-some (walk_pde-absent true t.pt (t.pd pid 32) v z) (rw k at e))
    | inr z ↦ inl ((omega arith, omega arith), ground (arith, walk_program true t.pt pid v, z))
  ]

  reach_user_vid : v / 2 ^ 22 ≡ 31 → UserReach pid v p
  reach_user_vid k = elim d.user_vid [
    | inl z ↦ absurd (none-ne-some (walk_pde-absent true t.pt (t.pd pid 31) v z) (rw k at e))
    | inr z ↦
        let e' : walk_pte true (t.pt l.pt1 (v / 4096 % 1024)) v ≡ some p =
          sym (walk_table true l t.pt v) ∙ rw (k, z.0) at e in
        elim (ℕ_discrete (v / 4096 % 1024) 0xb8) [
          | yes page ↦ inr (
            (omega arith, omega arith),
            ground (arith, rw (page, z.1) at e', walk_user_vid true l v),
          )
          | no page ↦ absurd (
              none-ne-some
                (walk_pte-absent true (t.pt l.pt1 (v / 4096 % 1024)) v
                  (w.user_rest (v / 4096 % 1024) (omega arith) page))
                e')
        ]
  ]

  reach_kernel : (t.pd pid (v / 2 ^ 22)).user_super ≡ 0 → UserReach pid v p
  reach_kernel z = absurd (none-ne-some (walk_supervisor t.pt (t.pd pid (v / 2 ^ 22)) v z) e)

  reach : UserReach pid v p
  reach = elim (ℕ_discrete (v / 2 ^ 22) 32) [
    | yes k ↦ reach_program k
    | no n32 ↦ elim (ℕ_discrete (v / 2 ^ 22) 31) [
      | yes k ↦ reach_user_vid k
      | no n31 ↦ elim (ℕ_discrete (v / 2 ^ 22) 0) [
        | yes k ↦ reach_kernel (rw (k, d.video))
        | no n0 ↦ elim (ℕ_discrete (v / 2 ^ 22) 1) [
          | yes k ↦ reach_kernel (rw (k, d.kernel))
          | no n1 ↦ absurd (
              none-ne-some
                (walk_pde-absent true t.pt (t.pd pid (v / 2 ^ 22)) v
                  (d.others (v / 2 ^ 22) (omega arith) (omega arith) n31 n32))
                e)
        ]
      ]
    ]
  ]

-- With well-formed tables a user program gets at nothing but the 4 MB of its own process, at its
-- program addresses, and the video memory, at the page that `vidmap` returns.
pub translate-user :
    (l : Layout) (t : Tables) (v p : ℕ)
    → IsWell l t
    → v < u32
    → translate t true v ≡ some p
    → UserReach t.cr3 v p
unfolding translate
translate-user l t v p w small e = reach l t w t.cr3 v p w.loaded small e

-- Of two processes, each with well-formed tables and with another directory loaded, a physical
-- address that both can reach is one of the video memory.
pub translate-apart :
    (l : Layout) (t t' : Tables) (v v' p : ℕ)
    → IsWell l t
    → IsWell l t'
    → t.cr3 ≢ t'.cr3
    → v < u32
    → v' < u32
    → translate t true v ≡ some p
    → translate t' true v' ≡ some p
    → (video_mem ≤ p) × (p < video_mem + 4096)
translate-apart l t t' v v' p w w' ne small small' e e' =
    ground (arith, translate-user l t v p w small e, translate-user l t' v' p w' small' e')

-- With well-formed tables `task_mem_init` of a process number below 7 makes that process current and
-- maps its program addresses, for a user, to its own 4 MB; any other number is refused and changes
-- nothing.
pub task_mem_init-maps :
    (l : Layout) (t : Tables) (pid v : ℕ)
    → IsWell l t
    → InProgram v
    → let (r, t') = task_mem_init t pid in
      ((pid < 7)
        × (r ≡ some pid)
        × (t'.cr3 ≡ pid)
        × (translate t' true v ≡ some (page1 + pid * page_size_4mb + (v - 0x8000000))))
      ⊎ ((6 < pid) × (r ≡ none) × (t' ≡ t))
unfolding task_mem_init map_4mb_page translate
task_mem_init-maps l t pid v w range = elim (dec_lt 6 pid) [
  | yes bad ↦ let e : ltb 6 pid ≡ true = ground arith in rw e (inr (bad, refl, refl))
  | no good ↦
      let e : ltb 6 pid ≡ false = ground arith in
      let k : v / 2 ^ 22 ≡ 32 = omega arith in
      let here : (pid == pid) ≡ true = ground arith in
      let place : v % 2 ^ 22 ≡ v - 0x8000000 = omega arith in
      rw (e, w.pages pid (omega arith), k, here)
        (inl (omega arith, refl, refl, walk_program true t.pt pid v ∙ ap some (omega arith)))
]
