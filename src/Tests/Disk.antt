-- ===== src/Tests/Disk.antt =====
-- A file system image of one file of five bytes, and the look-up and the reads on it.
use fireball_os.Base.{
  ℕ, ◌+◌, ◌*◌, ◌/◌, ◌%◌, ◌<◌, ◌≤◌, ◌≡◌, inl, refl, ◌==◌, if◌then◌else◌, ltb, ◌&&◌, some,
  ret_success, arith,
}
use fireball_os.Memory.{Mem, load32}
use fireball_os.FileSystem.{FileSys, read_data, read_dentry_by_name}
use fireball_os.FileSystem.Image.{IsImage, IsFile, ValidBlocks, loaded}
use fireball_os.FileSystem.ReadData.{read_data-loaded}
use fireball_os.FileSystem.Wraps.{read_data-wraps, Returned}
use fireball_os.CString.Length.{strlen-some}
use fireball_os.FileSystem.Lookup.{copied_entry}
use fireball_os.FileSystem.Names.{CanSearch, Matches, read_dentry_by_name-found}

-- One directory entry, one inode and one data block. The file "a" has number 0 and five bytes; the
-- second block number of its inode is 9, which is no block of the image.
abbrev pub disk : Mem
disk a =
    if a == 65536
    then 1
    else if a == 65540
    then 1
    else if a == 65544
    then 1
    else if a == 65600
    then 97
    else if a == 65632
    then 2
    else if a == 69632
    then 5
    else if a == 69640
    then 9
    else if ltb 73727 a && ltb a 77824
    then a % 256
    else if a == 100
    then 97
    else 0

-- the same image with a file of 5000 bytes, whose second block is bad
abbrev pub long_disk : Mem
long_disk a = if a == 69632 then 136 else if a == 69633 then 19 else disk a

abbrev pub fs : FileSys
fs = record { boot_block = 65536; index_nodes = 69632; data_blocks = 73728 }

pub disk-IsImage : IsImage fs disk
unfolding load32
disk-IsImage = record { inodes = refl; blocks = refl }

pub disk-IsFile : IsFile fs disk 0
unfolding load32
disk-IsFile = record { index = omega arith; fits = omega arith }

pub long-IsImage : IsImage fs long_disk
unfolding load32
long-IsImage = record { inodes = refl; blocks = refl }

pub long-IsFile : IsFile fs long_disk 0
unfolding load32
long-IsFile = record { index = omega arith; fits = omega arith }

pub disk_valid : (offset n : ℕ) → offset + n ≤ 4096 → ValidBlocks fs disk 0 offset n
unfolding load32
disk_valid offset n small k lt =
    let first : (offset + k) / 4096 ≡ 0 = omega arith in rw first (omega arith)

read_data-loaded_example : read_data fs disk 0 1 4096 10 ≡ some (4, loaded fs disk 69632 1 4096 4)
unfolding load32
read_data-loaded_example =
    read_data-loaded fs disk 0 1 4096 10 disk-IsImage disk-IsFile (omega arith) (inl (omega arith))
      (disk_valid 1 4 (omega arith))

read_data-wraps_example :
    Returned 0xffff_ffff (read_data fs disk 0 1 4096 0xffff_ffff) × (4 < 0xffff_ffff)
unfolding load32
read_data-wraps_example =
    read_data-wraps fs disk 0 1 4096 0xffff_ffff disk-IsFile (omega arith) (omega arith)
      (omega arith)

-- the name sought stands at 100, and its entry goes to 200
disk_bytes : (a : ℕ) → disk a < 256
disk_bytes a = ground arith

disk-CanSearch : CanSearch fs disk 100 200 1 (λ j. 1)
unfolding load32
disk-CanSearch = record {
  bytes = disk_bytes;
  name_given = omega arith;
  target_given = omega arith;
  name =
      strlen-some disk 100 1 (record { nonzero = λ i lt. ground arith; terminated = refl })
        (omega arith);
  names = λ j lt.
      let zero_th : 64 * j ≡ 0 = omega arith in
      rw zero_th (
        strlen-some disk 65600 1 (record { nonzero = λ i l. ground arith; terminated = refl })
          (omega arith));
}

disk-Matches : Matches fs disk 100 1 (λ j. 1) 0
disk-Matches = (refl, λ j lt before. let z : j ≡ 0 = omega arith in rw z)

read_dentry_by_name-found_example :
    read_dentry_by_name fs disk 100 200 ≡ some (ret_success, copied_entry disk 200 65600)
unfolding load32
read_dentry_by_name-found_example =
    read_dentry_by_name-found fs disk 100 200 1 (λ j. 1) disk-CanSearch 0 (omega arith)
      (λ h lt. absurd (omega arith)) disk-Matches (inl (omega arith))

pub disk_lookup :
    read_dentry_by_name fs disk 100 200 ≡ some (ret_success, copied_entry disk 200 65600)
unfolding load32
disk_lookup =
    read_dentry_by_name-found fs disk 100 200 1 (λ j. 1) disk-CanSearch 0 (omega arith)
      (λ h lt. absurd (omega arith)) disk-Matches (inl (omega arith))
