-- ===== src/Tests/Files.antt =====
-- Reads of an open file and the loading of a program, on the image of Disk.
use fireball_os.Base.{◌+◌, ◌/◌, ◌≡◌, inl, refl, some, ret_success, arith, ◌>>=◌}
use fireball_os.Memory.{Mem, load32}
use fireball_os.CString.Bounded.{padded}
use fireball_os.OpenFile.{File, file_jt}
use fireball_os.FileSystem.Image.{loaded}
use fireball_os.FileSystem.Lookup.{copied_entry}
use fireball_os.FileOps.{file_read, program_load}
use fireball_os.FileOps.Reading.{IsOpen, CanRead, file_read-file_read}
use fireball_os.FileOps.Loading.{CanLoad, program_load-loaded}
use fireball_os.Tests.Disk.{disk, fs, disk-IsImage, disk-IsFile, disk_valid, disk_lookup}

abbrev pub opened : File
opened = record { file_op = file_jt; inode_ptr = 69632; file_pos = 1; flags = 1 }

pub opened-IsOpen : IsOpen fs opened 0
opened-IsOpen = record { points = refl; position = omega arith }

pub opened-CanRead : CanRead fs disk 0 1 4096 (2 + 7)
unfolding load32
opened-CanRead = record {
  image = disk-IsImage;
  is_file = disk-IsFile;
  small = omega arith;
  outside = inl (omega arith);
  valid = disk_valid 1 4 (omega arith);
}

file_read-file_read_example :
    (file_read fs opened disk 4096 2 >>= λ (n, file', m').
    file_read fs file' m' (4096 + n) 7 >>= λ (k, file'', m''). some (n + k, file'', m''))
    ≡ file_read fs opened disk 4096 (2 + 7)
file_read-file_read_example =
    file_read-file_read fs opened disk 0 4096 2 7 opened-IsOpen opened-CanRead

-- memory with the entry of the file on the stack
abbrev found : Mem
found = copied_entry disk 200 65600

found-CanLoad : CanLoad fs found 200 4096
unfolding load32 padded
found-CanLoad = record {
  image = record { inodes = refl; blocks = refl };
  is_file = record { index = omega arith; fits = omega arith };
  outside = inl (omega arith);
  valid = λ k lt. let first : (0 + k) / 4096 ≡ 0 = omega arith in rw first (omega arith);
  apart = inl (omega arith);
}

program_load-loaded_example :
    program_load fs 200 disk 100 4096 ≡ some (ret_success, loaded fs found 69632 0 4096 5)
unfolding load32 padded
program_load-loaded_example =
    program_load-loaded fs 200 100 4096 disk found disk_lookup refl found-CanLoad
