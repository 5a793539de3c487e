-- ===== src/FileOps/Loading.antt =====
-- `program_load` of student-distrib/filesys.c.
use fireball_os.Base.{
  ℕ, zero, suc, ◌+◌, ◌-◌, ◌/◌, ◌≤◌, ◌<◌, ◌≡◌, ◌⊎◌, inl, inr, ap, ◌∙◌, arith, ◌==◌, Bool, u32, add32,
  min, some, ret_success, minus_one,
}
use native.Mathlib.Decide.{dec_lt}
use fireball_os.Memory.{Mem}
use fireball_os.FileSystem.{
  FileSys, inode_at, inode_length, read_data, file_type, inode_num, read_dentry_by_name, block_size,
}
use fireball_os.FileSystem.Image.{
  IsImage, IsFile, loaded, Outside, SameImage, SameImage-loaded, data_block_num-same,
  num_data_blocks-same, available, load32-same, ValidBlocks, IsImage-same, IsFile-same,
  available-same,
}
use fireball_os.FileSystem.ReadData.{read_data-loaded, loaded-zero}
use fireball_os.FileOps.Reading.{loaded-loaded}
use fireball_os.FileOps.{load_loop, program_load}

-- The entry at `frame` stands for a file of the image, all of its blocks in the image, and `addr` has
-- room for it outside the image and apart from the 64 bytes of the entry.
pub record CanLoad (fs : FileSys) (m : Mem) (frame addr : ℕ) : Type 0 where
  pub image : IsImage fs m
  pub is_file : IsFile fs m (inode_num m frame)
  pub outside : Outside fs m addr (inode_length m (inode_at fs (inode_num m frame)))
  pub valid :
      ValidBlocks fs m (inode_num m frame) 0 (inode_length m (inode_at fs (inode_num m frame)))
  pub apart :
      (frame + 64 ≤ addr) ⊎ (addr + inode_length m (inode_at fs (inode_num m frame)) ≤ frame)

module _ (fs : FileSys) (m : Mem) (frame addr : ℕ) (can : CanLoad fs m frame addr) where
  abbrev inode : ℕ
  inode = inode_num m frame

  abbrev ino : ℕ
  ino = inode_at fs inode

  abbrev file_len : ℕ
  file_len = inode_length m ino

  abbrev after : ℕ → Mem
  after c = loaded fs m ino 0 addr c

  -- one round of the loop, `c` bytes into the file
  module _ (c : ℕ) (le : c ≤ file_len) where
    same_after : SameImage fs m (after c)
    same_after = SameImage-loaded fs m ino 0 addr file_len c can.outside le

    abbrev read_len : ℕ
    read_len = min 4096 (file_len - c)

    -- the entry on the stack is kept
    inode_num-after : inode_num (after c) frame ≡ inode
    inode_num-after = load32-same m (after c) (frame + 36) (λ a lo hi. elim can.apart [
      | inl below ↦ ground (arith, below)
      | inr above ↦ ground (arith, above)
    ])

    available-after : available fs (after c) inode c 4096 ≡ read_len
    available-after = available-same can.image can.is_file same_after c 4096

    Outside-after : Outside fs (after c) (addr + c) (available fs (after c) inode c 4096)
    Outside-after = elim can.outside [
      | inl below ↦ inl (omega (arith, available-after))
      | inr above ↦ inr (omega (arith, num_data_blocks-same can.image can.is_file same_after))
    ]

    valid_after : ValidBlocks fs (after c) inode c (available fs (after c) inode c 4096)
    valid_after k lt =
        let start : 0 + (c + k) ≡ c + k = omega arith in
        rw
          (
            data_block_num-same can.image can.is_file same_after ((c + k) / 4096)
                (omega (arith, available-after, can.is_file)),
            num_data_blocks-same can.image can.is_file same_after,
          )
          (rw start at (can.valid (c + k) (omega (arith, available-after))))

    joined : loaded fs (after c) ino c (addr + c) read_len ≡ after (c + read_len)
    joined =
        let start : 0 + c ≡ c = omega arith in
        rw start at (
          loaded-loaded fs m inode 0 addr c read_len can.image can.is_file (omega arith)
            (ground (arith, can.outside)) (λ k lt. can.valid k (omega arith)))

    read_next :
        read_data fs (after c) (inode_num (after c) frame) c (addr + c) block_size
        ≡ some (read_len, after (c + read_len))
    read_next =
        ap (λ i. read_data fs (after c) i c (addr + c) block_size) inode_num-after
        ∙ read_data-loaded fs (after c) inode c (addr + c) block_size
            (IsImage-same can.image can.is_file same_after)
            (IsFile-same can.image can.is_file same_after) (omega (arith, can.is_file))
            Outside-after valid_after
        ∙ rw (available-after, joined)

  load_loop-loaded :
      (f c : ℕ)
      → (le : c ≤ file_len) → file_len - c < f
      → load_loop f fs frame (after c) c (addr + c) ≡ some (ret_success, after file_len)
  unfolding load_loop
  load_loop-loaded zero c le fuel = absurd (omega arith)
  load_loop-loaded (suc f) c le fuel =
      let n = min 4096 (file_len - c) in
      let no_wrap : add32 c n ≡ c + n = omega (arith, can.is_file) in
      let place : addr + c + n ≡ addr + (c + n) = omega arith in
      let fine : (n == minus_one) ≡ Bool.false = ground arith in
      elim (dec_lt c file_len) [
        | yes lt ↦
            let more : (n == 0) ≡ Bool.false = ground arith in
            rw (read_next c le, no_wrap, place, more, fine)
              (load_loop-loaded f (c + n) (omega arith) (omega arith))
        | no ge ↦
            let stop : (n == 0) ≡ Bool.true = ground arith in
            let all : c + n ≡ file_len = omega arith in rw (read_next c le, stop, all)
      ]

-- When the look-up of the name succeeds and the entry that it left on the stack is of type 2 and
-- stands for a file of the image with all its blocks in the image, and the bytes of the file's length
-- from `addr` on lie outside the image and apart from that entry, `program_load` comes to an end and
-- returns 0, and has copied the whole file to `addr`, block after block, and changed nothing else of
-- what the look-up left.
pub program_load-loaded :
    (fs : FileSys) (frame fname addr : ℕ) (m m' : Mem)
    → read_dentry_by_name fs m fname frame ≡ some (ret_success, m')
    → file_type m' frame ≡ 2
    → CanLoad fs m' frame addr
    → program_load fs frame m fname addr ≡ (
        let ino = inode_at fs (inode_num m' frame) in
        some (ret_success, loaded fs m' ino 0 addr (inode_length m' ino)))
unfolding program_load
program_load-loaded fs frame fname addr m m' found typed can =
    let inode = inode_num m' frame in
    let ino = inode_at fs inode in
    let regular : (file_type m' frame == 2) ≡ Bool.true = ground arith in
    let place : addr + 0 ≡ addr = omega arith in
    let start =
      rw (loaded-zero fs m' ino 0 addr, place) at
        (load_loop-loaded fs m' frame addr can u32 0 (omega arith) (omega (arith, can.is_file))) in
    rw (found, regular) start
