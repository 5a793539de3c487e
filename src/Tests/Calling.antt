-- ===== src/Tests/Calling.antt =====
-- A process that has the file of Disk open at each descriptor.
use fireball_os.Base.{◌≡◌, refl, arith, some, []}
use fireball_os.FileSystem.{inode_at}
use fireball_os.FileSystem.Image.{available, loaded}
use fireball_os.Calls.{System, Waiting, read}
use fireball_os.Calls.Reading.{HasRead, read-HasRead}
use fireball_os.Tests.Disk.{disk, fs}
use fireball_os.Tests.Files.{opened, opened-IsOpen, opened-CanRead}
use fireball_os.Tests.Processes.{kernel}
use fireball_os.Tests.Screens.{terminals}

abbrev pub system : System
system = record {
  kernel = record kernel {
    mem = disk;
    pcbs = λ p. record (kernel.pcbs p) { file_fds = λ i. opened };
  };
  terms = terminals;
  clock = record { reg_a = 0; reg_b = 0; interrupt_number = 0 };
  length = 0;
}

abbrev pub no_wait : Waiting
no_wait = record { rounds = []; terms = terminals; interrupt_numbers = [] }

read-HasRead_example :
    let n = available fs disk 0 1 9 in
    (s' : System) × (read 200 no_wait system 2 4096 9 ≡ some (n, s'))
    × HasRead system 2 n (loaded fs disk (inode_at fs 0) 1 4096 n) s'
read-HasRead_example =
    read-HasRead 200 no_wait system 2 4096 9 0 (omega arith) (omega arith) (omega arith)
      (omega arith) refl opened-IsOpen opened-CanRead
