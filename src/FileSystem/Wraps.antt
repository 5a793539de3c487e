-- ===== src/FileSystem/Wraps.antt =====
-- `read_data` when the sum of its `offset` and `length` wraps.
use fireball_os.Base.{
  ℕ, zero, suc, ◌+◌, ◌-◌, ◌/◌, ◌≤◌, ◌<◌, ◌≡◌, ◌⊎◌, inl, inr, refl, arith, ltb, leb, Bool, u32,
  add32, some, Option, Bool-cases, ret_failure,
}
use native.Mathlib.Decide.{dec_lt}
use fireball_os.Memory.{Mem, memcpy}
use fireball_os.FileSystem.{
  FileSys, num_inodes, num_data_blocks, inode_at, inode_length, data_block_num, block_size,
  copy_len, data_start, read_blocks, read_length, read_data,
}
use fireball_os.FileSystem.Image.{IsFile, available}

-- a round copies a byte or more, and not more than is left
copy_len_bounds :
    (i offset len c : ℕ)
    → len < u32
    → c < len
    → i ≤ c
    → (i ≡ 0 → c ≡ 0)
    → (0 < copy_len i offset len c) × (c + copy_len i offset len c ≤ len)
copy_len_bounds i offset len c small lt ic z = ground arith

-- The loop comes to an end: with -1, or with the whole length copied.
abbrev pub Returned : ℕ → Option (ℕ × Mem) → Type 0
Returned len res = (r : ℕ) × (m' : Mem) × (res ≡ some (r, m')) × ((r ≡ ret_failure) ⊎ (r ≡ len))

read_blocks-Returned :
    (f : ℕ) (fs : FileSys) (ino offset len : ℕ) (m : Mem) (i c buf : ℕ)
    → len < u32
    → c ≤ len
    → i ≤ c
    → (i ≡ 0 → c ≡ 0)
    → len - c < f
    → Returned len (read_blocks f fs ino offset len m i c buf)
unfolding read_blocks
read_blocks-Returned zero fs ino offset len m i c buf small le ic z fuel = absurd (omega arith)
read_blocks-Returned (suc f) fs ino offset len m i c buf small le ic z fuel = elim (dec_lt c len) [
  | no done ↦
      let closed : ltb c len ≡ Bool.false = ground arith in (c, m, rw closed, inr (omega arith))
  | yes left ↦
      let going : ltb c len ≡ Bool.true = ground arith in
      let n = copy_len i offset len c in
      let b = data_block_num m ino (add32 i (offset / block_size)) in
      let bounds = copy_len_bounds i offset len c small left ic z in
      let rest =
        read_blocks-Returned f fs ino offset len (memcpy m buf (data_start fs i offset b) n)
          (add32 i 1) (add32 c n) (buf + n) small (omega (arith, bounds)) (omega (arith, bounds))
          (λ e. absurd (omega arith)) (omega (arith, bounds)) in
      elim (Bool-cases (leb (num_data_blocks fs m) b)) [
        | inl bad ↦ (ret_failure, m, rw (going, bad), inl refl)
        | inr good ↦ rw (going, good) rest
      ]
]

-- For a file of the image, an offset inside it and a 32-bit `len`: when the sum wraps, the request is not cut at the end of the file: `read_data` comes to an end
-- and returns -1 or the whole `len`, and `len` is more than the file has from `offset` on.
pub read_data-wraps :
    (fs : FileSys) (m : Mem) (inode offset buf len : ℕ)
    → IsFile fs m inode
    → offset < inode_length m (inode_at fs inode)
    → len < u32
    → u32 ≤ offset + len
    → Returned len (read_data fs m inode offset buf len) × (available fs m inode offset len < len)
unfolding read_data
read_data-wraps fs m inode offset buf len file lt small wraps =
    let file_len = inode_length m (inode_at fs inode) in
    let known : leb (num_inodes fs m) inode ≡ Bool.false = ground (arith, file.index) in
    let inside : leb file_len offset ≡ Bool.false = ground arith in
    let whole : read_length file_len offset len ≡ len = ground (arith, file.fits) in
    (
      rw (known, inside, whole)
          (read_blocks-Returned (len + 1) fs (inode_at fs inode) offset len m 0 0 buf small
            (omega arith) (omega arith) (λ z. z) (omega arith)),
      omega (arith, file.fits),
    )
