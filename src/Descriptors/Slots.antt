-- ===== src/Descriptors/Slots.antt =====
-- Which slot `open` takes, and what `close` gives back.
use fireball_os.Base.{
  ℕ, zero, suc, ◌+◌, ◌≤◌, ◌<◌, ◌≡◌, ◌≢◌, ◌⊎◌, inl, inr, refl, arith, ◌==◌, ltb, true, false, ◌||◌,
  some, ret_failure, ret_success, is_negative,
}
use native.Mathlib.Decide.{ℕ_discrete, dec_lt}
use fireball_os.Memory.{Mem}
use fireball_os.OpenFile.{File, stdin_jt, stdout_jt}
use fireball_os.FileSystem.{FileSys, file_type, read_dentry_by_name}
use fireball_os.FileOps.{file_open, dir_open}
use fireball_os.Descriptors.{
  Files, set_file, find_slot, open_file, open_by_type, rtc_open, close, init_files, select_read,
  select_write, refused, calls,
}

-- `fd` is the lowest slot that is not in use.
pub record IsLowest (fds : Files) (fd : ℕ) : Type 0 where
  pub in_range : fd < 8
  pub free : (fds fd).flags ≢ 1
  pub below : (i : ℕ) → i < fd → (fds i).flags ≡ 1

find_slot-lowest :
    (n : ℕ) (fds : Files) (i fd : ℕ) → i + n ≡ 8 → i ≤ fd → IsLowest fds fd → find_slot n fds i ≡ fd
unfolding find_slot
find_slot-lowest zero fds i fd e le low = absurd (omega (arith, low.in_range))
find_slot-lowest (suc n) fds i fd e le low = elim (ℕ_discrete i fd) [
  | yes here ↦ ground (arith, low.free)
  | no later ↦ ground (arith, low.below i, find_slot-lowest n fds (i + 1) fd)
]

find_slot-full :
    (n : ℕ) (fds : Files) (i : ℕ)
    → i + n ≡ 8
    → ((j : ℕ) → j < 8 → (fds j).flags ≡ 1)
    → find_slot n fds i ≡ 8
unfolding find_slot
find_slot-full zero fds i e full = omega arith
find_slot-full (suc n) fds i e full =
    ground (arith, full i, find_slot-full n fds (i + 1) (omega arith) full)

-- every kind of entry that opens is marked as in use
open_by_type-flags :
    (fs : FileSys) (frame kind : ℕ) (file : File) (m : Mem) (filename : ℕ) (f : File) (m' : Mem)
    → open_by_type fs frame kind file m filename ≡ some (ret_success, f, m')
    → f.flags ≡ 1
unfolding open_by_type rtc_open dir_open file_open
open_by_type-flags fs frame kind file m filename f m' e = ground arith

-- When a slot is free, the name is found and its kind opens, `open` returns the lowest slot that was
-- free, marks it as in use, and leaves the other slots as they were.
pub open_file-lowest :
    (fs : FileSys) (dentry frame : ℕ) (fds : Files) (m m1 m2 : Mem) (filename fd : ℕ) (f : File)
    → IsLowest fds fd
    → read_dentry_by_name fs m filename dentry ≡ some (ret_success, m1)
    → open_by_type fs frame (file_type m1 dentry) (fds fd) m1 filename ≡ some (ret_success, f, m2)
    → (open_file fs dentry frame fds m filename ≡ some (fd, set_file fds fd f, m2)) × (f.flags ≡ 1)
unfolding open_file
open_file-lowest fs dentry frame fds m m1 m2 filename fd f low found opened =
    let room : ltb 7 fd ≡ false = ground (arith, low.in_range) in
    (
      rw (find_slot-lowest 8 fds 0 fd (omega arith) (omega arith) low, room, found, opened),
      open_by_type-flags fs frame (file_type m1 dentry) (fds fd) m1 filename f m2 opened,
    )

-- With all eight slots in use, `open` returns -1 and changes nothing, before it looks up the name.
pub open_file-full :
    (fs : FileSys) (dentry frame : ℕ) (fds : Files) (m : Mem) (filename : ℕ)
    → ((j : ℕ) → j < 8 → (fds j).flags ≡ 1)
    → open_file fs dentry frame fds m filename ≡ some (ret_failure, fds, m)
unfolding open_file
open_file-full fs dentry frame fds m filename full = rw (find_slot-full 8 fds 0 (omega arith) full)

-- `close` of a slot from 2 to 7 that is in use frees that slot and no other and returns 0; any other
-- call returns -1 and changes nothing.
pub close_iff :
    (fds : Files) (fd : ℕ)
    → ((2 ≤ fd)
        × (fd < 8)
        × ((fds fd).flags ≢ 0)
        × (close fds fd ≡ (ret_success, set_file fds fd (record (fds fd) { flags = 0 }))))
      ⊎ (((fd < 2) ⊎ ((7 < fd) ⊎ ((fds fd).flags ≡ 0))) × (close fds fd ≡ (ret_failure, fds)))
unfolding close
close_iff fds fd = elim (dec_lt fd 2) [
  | yes low ↦ inr (inl low, ground arith)
  | no a ↦ elim (dec_lt 7 fd) [
    | yes high ↦ inr (inr (inl high), ground arith)
    | no b ↦ elim (ℕ_discrete (fds fd).flags 0) [
      | yes z ↦ inr (inr (inr z), ground arith)
      | no nz ↦ inl (omega arith, omega arith, nz, ground (arith, nz))
    ]
  ]
]

-- The lowest free slot, from 2 on, that a file in use was put into can be closed, and is then the one
-- that the next search for a slot finds.
pub close-IsLowest :
    (fds : Files) (fd : ℕ) (f : File)
    → IsLowest fds fd
    → 2 ≤ fd
    → f.flags ≡ 1
    → let (ret, fds') = close (set_file fds fd f) fd in
      (ret ≡ ret_success) × (find_slot 8 fds' 0 ≡ fd)
unfolding close
close-IsLowest fds fd f low two used =
    let same : (fd == fd) ≡ true = ground arith in
    let open_test : ((is_negative fd || ltb fd 2) || (ltb 7 fd || f.flags == 0)) ≡ false =
      ground (arith, low.in_range) in
    rw (same, open_test)
      (
        refl,
        find_slot-lowest 8 (set_file (set_file fds fd f) fd (record f { flags = 0 })) 0 fd
            (omega arith) (omega arith)
            (record {
              in_range = low.in_range;
              free = ground (arith, same);
              below = λ i lt. ground (arith, low.below i lt);
            }),
      )

-- After `execute` has set the array up, descriptor 0 can be read and not written, descriptor 1 can
-- be written and not read, each for a buffer that is there and a length that is not negative, and output goes to the screen given.
pub init_files-dispatch :
    (screen_num : ℕ) (fds : Files) (buf nbytes : ℕ)
    → buf ≢ 0
    → is_negative nbytes ≡ false
    → let fds' = init_files screen_num fds in
      (select_read fds' 0 buf nbytes ≡ calls stdin_jt (fds' 0))
      × (select_write fds' 0 buf nbytes ≡ refused)
      × (select_read fds' 1 buf nbytes ≡ refused)
      × (select_write fds' 1 buf nbytes ≡ calls stdout_jt (fds' 1))
      × ((fds' 1).file_pos ≡ screen_num)
unfolding init_files select_read select_write
init_files-dispatch screen_num fds buf nbytes given sign =
    let some_buf : (buf == 0) ≡ false = ground (arith, given) in
    (rw (some_buf, sign), rw (some_buf, sign), rw (some_buf, sign), rw (some_buf, sign), refl)
