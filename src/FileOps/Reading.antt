-- ===== src/FileOps/Reading.antt =====
-- Sequential reads of an open file.
use fireball_os.Base.{
  ℕ, ◌+◌, ◌-◌, ◌/◌, ◌≤◌, ◌<◌, ◌≡◌, inl, inr, ◌∙◌, fun_ext, arith, Bool, u32, add32, sub32, some,
  Bool-cases, ret_failure, ◌>>=◌,
}
use fireball_os.Memory.{Mem}
use fireball_os.Memory.Copy.{within}
use fireball_os.OpenFile.{File}
use fireball_os.FileSystem.{FileSys, num_data_blocks, inode_at, inode_length, data_block_num}
use fireball_os.FileSystem.Image.{
  IsImage, IsFile, loaded, Outside, SameImage, SameImage-loaded, data_block_num-same,
  num_data_blocks-same, available, ValidBlocks, IsImage-same, IsFile-same, available-same,
  file_byte-same,
}
use fireball_os.FileSystem.ReadData.{read_data-loaded, read_data-bad_block}
use fireball_os.FileOps.{file_read, inode_diff}

-- `file` stands for the file of inode number `inode`.
pub record IsOpen (fs : FileSys) (file : File) (inode : ℕ) : Type 0 where
  pub points : file.inode_ptr ≡ inode_at fs inode
  pub position : file.file_pos < u32

inode_diff-at : (fs : FileSys) (inode : ℕ) → inode_diff (inode_at fs inode) fs.index_nodes ≡ inode
inode_diff-at fs inode = ground arith

-- What a read may rely on: a file of the image whose blocks are blocks of the image, a buffer
-- outside the image, and a request that does not wrap behind the position.
pub record CanRead (fs : FileSys) (m : Mem) (inode offset buf len : ℕ) : Type 0 where
  pub image : IsImage fs m
  pub is_file : IsFile fs m inode
  pub small : offset + len < u32
  pub outside : Outside fs m buf (available fs m inode offset len)
  pub valid : ValidBlocks fs m inode offset (available fs m inode offset len)

-- `file_read` returns the number of bytes that the file has at the position, at most `nbytes`,
-- moves the position on by that number, leaves those bytes in the buffer and changes nothing else.
pub file_read-loaded :
    (fs : FileSys) (file : File) (m : Mem) (inode buf nbytes : ℕ)
    → IsOpen fs file inode
    → CanRead fs m inode file.file_pos buf nbytes
    → let n = available fs m inode file.file_pos nbytes in
      file_read fs file m buf nbytes
      ≡ some (
        n,
        record file { file_pos = file.file_pos + n },
        loaded fs m (inode_at fs inode) file.file_pos buf n,
      )
unfolding file_read
file_read-loaded fs file m inode buf nbytes is can =
    let n = available fs m inode file.file_pos nbytes in
    let no_wrap : add32 file.file_pos n ≡ file.file_pos + n = omega (arith, can.small) in
    rw (
      is.points,
      inode_diff-at fs inode,
      read_data-loaded fs m inode file.file_pos buf nbytes can.image can.is_file can.small
          can.outside can.valid,
      no_wrap,
    )

-- Two runs of bytes, one behind the other, are one.
pub loaded-loaded :
    (fs : FileSys) (m : Mem) (inode offset buf n k : ℕ)
    → IsImage fs m
    → IsFile fs m inode
    → n + k ≤ inode_length m (inode_at fs inode) - offset
    → Outside fs m buf (n + k)
    → ValidBlocks fs m inode offset (n + k)
    → loaded fs
        (loaded fs m (inode_at fs inode) offset buf n)
        (inode_at fs inode)
        (offset + n)
        (buf + n)
        k
      ≡ loaded fs m (inode_at fs inode) offset buf (n + k)
loaded-loaded fs m inode offset buf n k img file range out valid = fun_ext (λ a.
    let ino = inode_at fs inode in
    let m' = loaded fs m ino offset buf n in
    elim (Bool-cases (within (buf + n) k a)) [
      | inl e ↦
          let j = a - buf in
          let place : offset + n + (a - (buf + n)) ≡ offset + j = ground arith in
          let both : within buf (n + k) a ≡ Bool.true = ground arith in
          rw (e, both, place)
            (file_byte-same img file
              (SameImage-loaded fs m ino offset buf (n + k) n out (omega arith)) (offset + j)
              (ground arith) (valid j (ground arith)))
      | inr e ↦ ground arith
    ])

module _ {fs : FileSys} {m : Mem} {inode offset buf : ℕ} (a b : ℕ)
    (can : CanRead fs m inode offset buf (a + b)) where
  abbrev first : ℕ
  first = available fs m inode offset a

  abbrev middle : Mem
  middle = loaded fs m (inode_at fs inode) offset buf first

  same_middle : SameImage fs m middle
  same_middle =
      SameImage-loaded fs m (inode_at fs inode) offset buf (available fs m inode offset (a + b))
        first can.outside (omega arith)

  CanRead-first : CanRead fs m inode offset buf a
  CanRead-first = record {
    image = can.image;
    is_file = can.is_file;
    small = omega (arith, can.small);
    outside = ground (arith, can.outside);
    valid = λ k lt. can.valid k (omega arith);
  }

  available_rest :
      available fs middle inode (offset + first) b ≡ available fs m inode offset (a + b) - first
  available_rest = available-same can.image can.is_file same_middle (offset + first) b ∙ omega arith

  Outside-rest : Outside fs middle (buf + first) (available fs middle inode (offset + first) b)
  Outside-rest = elim can.outside [
    | inl below ↦ inl (omega (arith, available_rest))
    | inr above ↦ inr (omega (arith, num_data_blocks-same can.image can.is_file same_middle))
  ]

  CanRead-rest : CanRead fs middle inode (offset + first) (buf + first) b
  CanRead-rest = record {
    image = IsImage-same can.image can.is_file same_middle;
    is_file = IsFile-same can.image can.is_file same_middle;
    small = omega (arith, can.small);
    outside = Outside-rest;
    valid = λ k lt.
        let place : offset + first + k ≡ offset + (first + k) = omega arith in
        rw
          (
            place,
            data_block_num-same can.image can.is_file same_middle ((offset + (first + k)) / 4096)
                (omega (arith, can.is_file, available_rest)),
            num_data_blocks-same can.image can.is_file same_middle,
          )
          (can.valid (first + k) (omega (arith, available_rest)));
  }

-- For an open file of the image, whose position and both lengths do not wrap, with its blocks in the
-- image and a buffer outside it: two reads in a row, the second to the place where the first stopped,
-- return together as many
-- bytes as one read of both lengths, leave the same bytes in memory, and leave the file at the
-- same position.
pub file_read-file_read :
    (fs : FileSys) (file : File) (m : Mem) (inode buf a b : ℕ)
    → IsOpen fs file inode
    → CanRead fs m inode file.file_pos buf (a + b)
    → (file_read fs file m buf a >>= λ (n, file', m').
        file_read fs file' m' (buf + n) b >>= λ (k, file'', m''). some (n + k, file'', m''))
      ≡ file_read fs file m buf (a + b)
file_read-file_read fs file m inode buf a b is can =
    let n = available fs m inode file.file_pos a in
    let total = available fs m inode file.file_pos (a + b) in
    let file' : File = record file { file_pos = file.file_pos + n } in
    let is' : IsOpen fs file' inode = record {
      points = is.points;
      position = omega (arith, can.small);
    } in
    let sum : n + (total - n) ≡ total = omega arith in
    let place : file.file_pos + n + (total - n) ≡ file.file_pos + total = omega arith in
    rw (
      file_read-loaded fs file m inode buf a is (CanRead-first a b can),
      file_read-loaded fs file' (middle a b can) inode (buf + n) b is' (CanRead-rest a b can),
      file_read-loaded fs file m inode buf (a + b) is can,
      available_rest a b can,
      loaded-loaded fs m inode file.file_pos buf n (total - n) can.image can.is_file
          (omega (arith, can.is_file)) (rw sum can.outside) (rw sum can.valid),
      sum,
      place,
    )

-- For an open file of the image, a request that does not wrap and a buffer outside the image: when a
-- block of the request lies outside the image, `file_read` returns -1 and moves the position back by
-- one.
pub file_read-bad_block :
    (fs : FileSys) (file : File) (m : Mem) (inode buf nbytes k : ℕ)
    → IsOpen fs file inode
    → IsImage fs m
    → IsFile fs m inode
    → file.file_pos + nbytes < u32
    → Outside fs m buf (available fs m inode file.file_pos nbytes)
    → k < available fs m inode file.file_pos nbytes
    → num_data_blocks fs m ≤ data_block_num m (inode_at fs inode) ((file.file_pos + k) / 4096)
    → (m' : Mem) × (file_read fs file m buf nbytes
        ≡ some (ret_failure, record file { file_pos = sub32 file.file_pos 1 }, m'))
unfolding file_read
file_read-bad_block fs file m inode buf nbytes k is img is_file small out lt bad =
    let (d, le, e) =
      read_data-bad_block fs m inode file.file_pos buf nbytes k img is_file small out lt bad in
    let back : add32 file.file_pos ret_failure ≡ sub32 file.file_pos 1 = omega arith in
    (
      loaded fs m (inode_at fs inode) file.file_pos buf d,
      rw (is.points, inode_diff-at fs inode, e, back),
    )
