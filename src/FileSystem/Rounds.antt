-- ===== src/FileSystem/Rounds.antt =====
-- One round of the copy loop of `read_data`: its block, its first byte and its length.
use fireball_os.Base.{
  ℕ, ◌+◌, ◌-◌, ◌*◌, ◌/◌, ◌%◌, ◌≤◌, ◌<◌, ◌≡◌, ◌⊎◌, inl, inr, arith, Bool, u32, add32, min,
  Bool-cases,
}
use fireball_os.Memory.{Mem}
use fireball_os.Memory.Copy.{within, copied}
use fireball_os.FileSystem.{FileSys, data_block_num, block_size, copy_len, data_start}
use fireball_os.FileSystem.Image.{loaded}

-- Before round `i`, with `c` of `n` bytes copied: a later round starts at a block's first byte.
abbrev pub AtBlock : (offset n i c : ℕ) → Type 0
AtBlock offset n i c =
    ((i ≡ 0) × (c ≡ 0)) ⊎ ((0 < i) × ((c ≡ n) ⊎ (offset + c ≡ 4096 * (i + offset / 4096))))

-- the bytes of a round: what is left of the block, or of the read
abbrev pub round_len : (offset n c : ℕ) → ℕ
round_len offset n c = min (4096 - (offset + c) % 4096) (n - c)

module _ (offset n i c : ℕ) (left : c < n) (small : offset + n < u32)
    (at : AtBlock offset n i c) where
  pub block_index : add32 i (offset / block_size) ≡ (offset + c) / 4096
  block_index = ground arith

  pub block_start :
      (fs : FileSys) (b : ℕ)
      → data_start fs i offset b ≡ fs.data_blocks + 4096 * b + (offset + c) % 4096
  block_start fs b = ground arith

  pub copy_len-round : copy_len i offset n c ≡ round_len offset n c
  copy_len-round = ground arith

  pub at_next : AtBlock offset n (add32 i 1) (add32 c (round_len offset n c))
  at_next = ground arith

  pub copied_next : add32 c (round_len offset n c) ≡ c + round_len offset n c
  copied_next = omega arith

-- Reading one more run of bytes, all in one block.
pub loaded-extend :
    (fs : FileSys) (m : Mem) (inode offset buf c k a : ℕ)
    → (offset + c) % 4096 + k ≤ 4096
    → ((j : ℕ)
        → j < k
        → within buf c (
            fs.data_blocks
            + 4096 * data_block_num m inode ((offset + c) / 4096)
            + (offset + c) % 4096
            + j)
          ≡ Bool.false)
    → copied
        (loaded fs m inode offset buf c)
        (buf + c)
        (fs.data_blocks + 4096 * data_block_num m inode ((offset + c) / 4096) + (offset + c) % 4096)
        k
        a
      ≡ loaded fs m inode offset buf (c + k) a
loaded-extend fs m inode offset buf c k a fit out = elim (Bool-cases (within (buf + c) k a)) [
  | inl e ↦ ground (arith, out (a - (buf + c)), same_block)
  | inr e ↦ ground arith
]
  where
    same_block :
        (within (buf + c) k a ≡ Bool.true) → (offset + (a - buf)) / 4096 ≡ (offset + c) / 4096
    same_block e = ground arith
