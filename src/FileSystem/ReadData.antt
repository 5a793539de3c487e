-- ===== src/FileSystem/ReadData.antt =====
-- The copy loop of `read_data` in student-distrib/filesys.c, and the whole call.
use fireball_os.Base.{
  ℕ, zero, suc, ◌+◌, ◌-◌, ◌*◌, ◌/◌, ◌%◌, ◌≤◌, ◌<◌, ◌≡◌, inl, inr, refl, ◌∙◌, fun_ext, arith,
  if◌then◌else◌, ltb, leb, Bool, u32, add32, some, Bool-cases, ret_failure,
}
use native.Mathlib.Decide.{dec_lt}
use fireball_os.Memory.{Mem, memcpy}
use fireball_os.Memory.Copy.{memcpy-copied}
use fireball_os.FileSystem.{
  FileSys, num_inodes, num_data_blocks, inode_at, inode_length, data_block_num, read_blocks,
  read_length, read_data,
}
use fireball_os.FileSystem.Image.{
  IsImage, IsFile, loaded, Outside, SameImage-loaded, data_block_num-same, num_data_blocks-same,
  available, ValidBlocks,
}
use fireball_os.FileSystem.Rounds.{
  AtBlock, round_len, block_index, block_start, copy_len-round, at_next, copied_next, loaded-extend,
}

-- The setting of a read: a file of the image, `n` of its bytes from `offset` on, and a buffer
-- outside the image.
module _ (fs : FileSys) (m : Mem) (inode offset buf n : ℕ) (img : IsImage fs m)
    (file : IsFile fs m inode) (out : Outside fs m buf n)
    (range : offset + n ≤ inode_length m (inode_at fs inode)) where
  abbrev ino : ℕ
  ino = inode_at fs inode

  abbrev block_of : ℕ → ℕ
  block_of k = data_block_num m ino ((offset + k) / 4096)

  abbrev after : ℕ → Mem
  after c = loaded fs m ino offset buf c

  module _ (c : ℕ) (left : c < n) where
    same_block_num : data_block_num (after c) ino ((offset + c) / 4096) ≡ block_of c
    same_block_num =
        data_block_num-same img file (SameImage-loaded fs m ino offset buf n c out (omega arith))
          ((offset + c) / 4096) (omega (arith, file.fits))

    same_count : num_data_blocks fs (after c) ≡ num_data_blocks fs m
    same_count =
        num_data_blocks-same img file (SameImage-loaded fs m ino offset buf n c out (omega arith))

    source : ℕ
    source = fs.data_blocks + 4096 * block_of c + (offset + c) % 4096

    memcpy_round :
        block_of c < num_data_blocks fs m
        → memcpy (after c) (buf + c) source (round_len offset n c)
          ≡ after (c + round_len offset n c)
    unfolding source
    memcpy_round valid =
        memcpy-copied (after c) (buf + c) source (round_len offset n c) (ground (arith, img.blocks))
        ∙ fun_ext (λ a.
          loaded-extend fs m ino offset buf c (round_len offset n c) a (omega arith)
            (λ j lt. ground (arith, img.blocks)))

    round :
        (f i : ℕ)
        → AtBlock offset n i c
        → read_blocks (suc f) fs ino offset n (after c) i c (buf + c) ≡ (
            if leb (num_data_blocks fs m) (block_of c)
            then some (ret_failure, after c)
            else read_blocks f fs ino offset n
                (memcpy (after c) (buf + c) source (round_len offset n c))
                (add32 i 1)
                (c + round_len offset n c)
                (buf + c + round_len offset n c))
    unfolding read_blocks source
    round f i at =
        let small : offset + n < u32 = omega (arith, file.fits) in
        let open_test : ltb c n ≡ Bool.true = ground arith in
        rw (
          open_test,
          block_index offset n i c left small at,
          same_block_num,
          same_count,
          block_start offset n i c left small at fs (block_of c),
          copy_len-round offset n i c left small at,
          copied_next offset n i c left small at,
        )

  abbrev AllValid : Type 0
  AllValid = (k : ℕ) → k < n → block_of k < num_data_blocks fs m

  read_blocks-loaded :
      (f i c : ℕ)
      → AllValid
      → c ≤ n
      → n - c < f
      → AtBlock offset n i c
      → read_blocks f fs ino offset n (after c) i c (buf + c) ≡ some (n, after n)
  read_blocks-loaded zero i c valid le fuel at = absurd (omega arith)
  read_blocks-loaded (suc f) i c valid le fuel at = elim (dec_lt c n) [
    | yes left ↦
        let good : leb (num_data_blocks fs m) (block_of c) ≡ Bool.false =
          ground (arith, valid c left) in
        let next : buf + c + round_len offset n c ≡ buf + (c + round_len offset n c) =
          omega arith in
        let small : offset + n < u32 = omega (arith, file.fits) in
        rw (round c left f i at, good, memcpy_round c left (valid c left), next)
          (read_blocks-loaded f (add32 i 1) (c + round_len offset n c) valid (omega arith)
            (omega arith)
            (rw (copied_next offset n i c left small at) at (at_next offset n i c left small at)))
    | no done ↦ unfold read_blocks in ground arith
  ]

  -- a good block and a bad one are different blocks
  bad_later :
      (k c : ℕ)
      → k < n
      → num_data_blocks fs m ≤ block_of k
      → c ≤ k
      → block_of c < num_data_blocks fs m
      → (offset + c) / 4096 < (offset + k) / 4096
  bad_later k c lt bad le good = ground arith

  -- a bad block ends the read before its first byte
  read_blocks-bad :
      (k f i c : ℕ)
      → k < n
      → num_data_blocks fs m ≤ block_of k
      → c ≤ k
      → n - c < f
      → AtBlock offset n i c
      → (d : ℕ) × (d ≤ k)
        × (read_blocks f fs ino offset n (after c) i c (buf + c) ≡ some (ret_failure, after d))
  read_blocks-bad k zero i c lt bad le fuel at = absurd (omega arith)
  read_blocks-bad k (suc f) i c lt bad le fuel at =
      let left : c < n = omega arith in
      let small : offset + n < u32 = omega (arith, file.fits) in
      let next : buf + c + round_len offset n c ≡ buf + (c + round_len offset n c) = omega arith in
      elim (Bool-cases (leb (num_data_blocks fs m) (block_of c))) [
        | inl e ↦ (c, le, rw (round c left f i at, e))
        | inr e ↦
            let more : c + round_len offset n c ≤ k =
              omega (arith, bad_later k c lt bad le (ground arith)) in
            rw (round c left f i at, e, memcpy_round c left (ground arith), next)
              (read_blocks-bad k f (add32 i 1) (c + round_len offset n c) lt bad more (omega arith)
                (rw (copied_next offset n i c left small at) at
                  (at_next offset n i c left small at)))
      ]

pub loaded-zero : (fs : FileSys) (m : Mem) (ino offset buf : ℕ) → loaded fs m ino offset buf 0 ≡ m
loaded-zero fs m ino offset buf = fun_ext (λ a. ground arith)

-- the state in which `read_data` enters its loop
at_start :
    (fs : FileSys) (m : Mem) (ino offset buf n f : ℕ)
    → read_blocks f fs ino offset n m 0 0 buf
      ≡ read_blocks f fs ino offset n (loaded fs m ino offset buf 0) 0 0 (buf + 0)
at_start fs m ino offset buf n f =
    let e : buf + 0 ≡ buf = omega arith in rw (loaded-zero fs m ino offset buf, e)

-- When the sum of `offset` and `len` does not wrap, `read_data` of a file whose blocks are blocks
-- of the image, into a buffer outside the image, comes to an end, returns the number of bytes that
-- the file has from `offset` on, at most `len`, leaves exactly those bytes in the buffer and
-- changes nothing else.
pub read_data-loaded :
    (fs : FileSys) (m : Mem) (inode offset buf len : ℕ)
    → IsImage fs m
    → IsFile fs m inode
    → offset + len < u32
    → Outside fs m buf (available fs m inode offset len)
    → ValidBlocks fs m inode offset (available fs m inode offset len)
    → read_data fs m inode offset buf len
      ≡ some (
        available fs m inode offset len,
        loaded fs m (inode_at fs inode) offset buf (available fs m inode offset len),
      )
unfolding read_data
read_data-loaded fs m inode offset buf len img file small out valid =
    let avail = available fs m inode offset len in
    let file_len = inode_length m (inode_at fs inode) in
    let known : leb (num_inodes fs m) inode ≡ Bool.false = ground (arith, file.index) in
    elim (dec_lt offset file_len) [
      | yes lt ↦
          let inside : leb file_len offset ≡ Bool.false = ground arith in
          let clipped : read_length file_len offset len ≡ avail = ground (arith, file.fits) in
          rw
            (known, inside, clipped, at_start fs m (inode_at fs inode) offset buf avail (avail + 1))
            (read_blocks-loaded fs m inode offset buf avail img file out (omega arith) (avail + 1) 0
              0 valid (omega arith) (omega arith) (inl (refl, refl)))
      | no ge ↦
          let beyond : leb file_len offset ≡ Bool.true = ground arith in
          let nothing : avail ≡ 0 = omega arith in
          rw (known, beyond, nothing, loaded-zero fs m (inode_at fs inode) offset buf)
    ]

-- When one of the blocks of those bytes lies outside the image, `read_data` comes to an end and
-- returns -1, and the buffer holds a number of the file's first bytes, none of them from that block
-- on.
pub read_data-bad_block :
    (fs : FileSys) (m : Mem) (inode offset buf len k : ℕ)
    → IsImage fs m
    → IsFile fs m inode
    → offset + len < u32
    → Outside fs m buf (available fs m inode offset len)
    → k < available fs m inode offset len
    → num_data_blocks fs m ≤ data_block_num m (inode_at fs inode) ((offset + k) / 4096)
    → (d : ℕ) × (d ≤ k)
      × (read_data fs m inode offset buf len
          ≡ some (ret_failure, loaded fs m (inode_at fs inode) offset buf d))
unfolding read_data
read_data-bad_block fs m inode offset buf len k img file small out lt bad =
    let avail = available fs m inode offset len in
    let file_len = inode_length m (inode_at fs inode) in
    let known : leb (num_inodes fs m) inode ≡ Bool.false = ground (arith, file.index) in
    let inside : leb file_len offset ≡ Bool.false = ground arith in
    let clipped : read_length file_len offset len ≡ avail = ground (arith, file.fits) in
    rw (known, inside, clipped, at_start fs m (inode_at fs inode) offset buf avail (avail + 1))
      (read_blocks-bad fs m inode offset buf avail img file out (omega arith) k (avail + 1) 0 0 lt
        bad (omega arith) (omega arith) (inl (refl, refl)))
