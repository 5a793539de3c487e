-- ===== src/FileSystem/Image.antt =====
-- What the bytes of the image mean: where it ends, and the content of a file. The addresses of an
-- image are not changed by a read into a buffer outside of it.
use fireball_os.Base.{ℕ, ◌+◌, ◌-◌, ◌*◌, ◌/◌, ◌%◌, ◌≤◌, ◌<◌, ◌≡◌, ◌⊎◌, arith, if◌then◌else◌, min}
use fireball_os.Memory.{Mem, load32}
use fireball_os.Memory.Copy.{within}
use fireball_os.FileSystem.{
  FileSys, num_inodes, num_data_blocks, inode_at, inode_length, data_block_num,
}

-- the address behind the last data block
abbrev pub image_end : FileSys → Mem → ℕ
image_end fs m = fs.data_blocks + 4096 * num_data_blocks fs m

-- The inodes stand behind the boot block, and the data blocks behind the inodes.
pub record IsImage (fs : FileSys) (m : Mem) : Type 0 where
  pub inodes : fs.index_nodes ≡ fs.boot_block + 4096
  pub blocks : fs.data_blocks ≡ fs.boot_block + 4096 * (num_inodes fs m + 1)

-- byte `p` of the file whose inode is at `inode`
abbrev pub file_byte : FileSys → Mem → (inode p : ℕ) → ℕ
file_byte fs m inode p = m (fs.data_blocks + 4096 * data_block_num m inode (p / 4096) + p % 4096)

-- memory after `n` bytes of a file, from `offset` on, have been read to `buf`
abbrev pub loaded : FileSys → Mem → (inode offset buf n : ℕ) → Mem
loaded fs m inode offset buf n a =
    if within buf n a then file_byte fs m inode (offset + (a - buf)) else m a

-- `n` bytes at `buf` stand outside the image
abbrev pub Outside : FileSys → Mem → (buf n : ℕ) → Type 0
Outside fs m buf n = (buf + n ≤ fs.boot_block) ⊎ (image_end fs m ≤ buf)

-- the image is the same in both memories
abbrev pub SameImage : FileSys → Mem → Mem → Type 0
SameImage fs m m' = (a : ℕ) → fs.boot_block ≤ a → a < image_end fs m → m' a ≡ m a

pub load32-same :
    (m m' : Mem) (p : ℕ) → ((a : ℕ) → p ≤ a → a < p + 4 → m' a ≡ m a) → load32 m' p ≡ load32 m p
unfolding load32
load32-same m m' p h = ground (arith, h p, h (p + 1), h (p + 2), h (p + 3))

-- The parts of a file that a read looks at: its inode is one of the image's, and its length is at
-- most what an inode can list.
pub record IsFile (fs : FileSys) (m : Mem) (inode : ℕ) : Type 0 where
  pub index : inode < num_inodes fs m
  pub fits : inode_length m (inode_at fs inode) ≤ 4190208

module _ {fs : FileSys} {m m' : Mem} {inode : ℕ} (img : IsImage fs m) (file : IsFile fs m inode)
    (same : SameImage fs m m') where
  pub data_block_num-same :
      (k : ℕ)
      → k < 1023
      → data_block_num m' (inode_at fs inode) k ≡ data_block_num m (inode_at fs inode) k
  data_block_num-same k lt = load32-same m m' (inode_at fs inode + 4 + 4 * k) (λ a lo hi.
      same a (omega (arith, img.inodes)) (omega (arith, img.inodes, img.blocks, file.index)))

  pub num_data_blocks-same : num_data_blocks fs m' ≡ num_data_blocks fs m
  num_data_blocks-same =
      load32-same m m' (fs.boot_block + 8)
        (λ a lo hi. same a (omega arith) (omega (arith, img.blocks)))

-- A read into a buffer outside the image leaves the image as it is.
pub SameImage-loaded :
    (fs : FileSys) (m : Mem) (inode offset buf n c : ℕ)
    → Outside fs m buf n
    → c ≤ n
    → SameImage fs m (loaded fs m inode offset buf c)
SameImage-loaded fs m inode offset buf n c out le a lo hi = ground arith

-- how many of `len` bytes from `offset` on the file has
abbrev pub available : FileSys → Mem → (inode offset len : ℕ) → ℕ
available fs m inode offset len = min len (inode_length m (inode_at fs inode) - offset)

-- the blocks of the first `n` bytes from `offset` on are blocks of the image
abbrev pub ValidBlocks : FileSys → Mem → (inode offset n : ℕ) → Type 0
ValidBlocks fs m inode offset n =
    (k : ℕ)
    → k < n
    → data_block_num m (inode_at fs inode) ((offset + k) / 4096) < num_data_blocks fs m

-- Whatever leaves the image alone leaves its files alone.
module _ {fs : FileSys} {m m' : Mem} {inode : ℕ} (img : IsImage fs m) (file : IsFile fs m inode)
    (same : SameImage fs m m') where
  num_inodes-same : num_inodes fs m' ≡ num_inodes fs m
  num_inodes-same =
      load32-same m m' (fs.boot_block + 4)
        (λ a lo hi. same a (omega arith) (omega (arith, img.blocks)))

  pub inode_length-same : inode_length m' (inode_at fs inode) ≡ inode_length m (inode_at fs inode)
  inode_length-same = load32-same m m' (inode_at fs inode) (λ a lo hi.
      same a (omega (arith, img.inodes)) (omega (arith, img.inodes, img.blocks, file.index)))

  pub IsImage-same : IsImage fs m'
  IsImage-same = record { inodes = img.inodes; blocks = omega (arith, img.blocks, num_inodes-same) }

  pub IsFile-same : IsFile fs m' inode
  IsFile-same = record {
    index = omega (arith, file.index, num_inodes-same);
    fits = omega (arith, file.fits, inode_length-same);
  }

  pub available-same :
      (offset len : ℕ) → available fs m' inode offset len ≡ available fs m inode offset len
  available-same offset len = omega (arith, inode_length-same)

  pub file_byte-same :
      (p : ℕ)
      → p < inode_length m (inode_at fs inode)
      → data_block_num m (inode_at fs inode) (p / 4096) < num_data_blocks fs m
      → file_byte fs m' (inode_at fs inode) p ≡ file_byte fs m (inode_at fs inode) p
  file_byte-same p lt valid =
      rw (data_block_num-same img file same (p / 4096) (omega (arith, file.fits)))
        (same _ (omega (arith, img.blocks)) (omega (arith, img.blocks)))

  pub ValidBlocks-same :
      (offset n : ℕ)
      → offset + n ≤ inode_length m (inode_at fs inode)
      → ValidBlocks fs m inode offset n
      → ValidBlocks fs m' inode offset n
  ValidBlocks-same offset n range valid k lt =
      rw
        (
          data_block_num-same img file same ((offset + k) / 4096) (omega (arith, file.fits)),
          num_data_blocks-same img file same,
        )
        (valid k lt)
