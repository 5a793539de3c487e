-- ===== src/Tests/Listing.antt =====
-- The directory of the image of Disk.
use fireball_os.Base.{◌*◌, ◌≡◌, refl, arith, some, inl, inr, ret_success}
use fireball_os.Memory.{Mem, load32}
use fireball_os.OpenFile.{File, directory_jt}
use fireball_os.FileOps.{dir_read}
use fireball_os.FileOps.Listing.{CanList}
use fireball_os.FileOps.Names.{list_names, names_from, list_names-all}
use fireball_os.Tests.Disk.{disk, fs}

abbrev directory : File
directory = record { file_op = directory_jt; inode_ptr = 0; file_pos = 0; flags = 1 }

disk-CanList : CanList fs disk 200 1000 (λ i. 1)
unfolding load32
disk-CanList = record {
  bytes = λ a. ground arith;
  given = omega arith;
  names = λ i lt.
      let zero_th : 64 * i ≡ 0 = omega arith in
      rw zero_th (record { nonzero = λ j below. ground arith; terminated = refl });
  some_name = λ i lt. omega arith;
  short = λ i lt. omega arith;
  frame_apart = inl (omega arith);
  buf_apart = inl (omega arith);
  apart = inr (omega arith);
}

list_names-all_example :
    (last : File) × (m' : Mem) × (list_names 1 fs 200 directory disk 1000 32
      ≡ some (names_from fs disk (λ i. 1) 0 1, last, m'))
    × (dir_read fs 200 last m' 1000 32 ≡ some (ret_success, last, m'))
unfolding load32
list_names-all_example =
    list_names-all 1 fs 200 directory disk 1000 32 (λ i. 1) disk-CanList (omega arith) (omega arith)
      (omega arith) (omega arith)
