-- ===== src/Calls/Reading.antt =====
-- `read` of student-distrib/systemcalls.c on a file of the image.
use fireball_os.Base.{
  ℕ, ◌+◌, ◌^◌, ◌<◌, ◌≡◌, ◌≢◌, refl, ap, ◌∙◌, arith, ◌==◌, if◌then◌else◌, ◌||◌, not, true, false,
  some, ◌>>=◌,
}
use fireball_os.Memory.{Mem}
use fireball_os.FileSystem.{inode_at}
use fireball_os.FileSystem.Image.{available, loaded}
use fireball_os.FileOps.Reading.{IsOpen, CanRead, file_read-loaded}
use fireball_os.Process.{Kernel}
use fireball_os.Calls.{System, Waiting, files_of, set_fd, with_file, call_read, read}
use fireball_os.OpenFile.{File, file_jt, has_read}
use native.Mathlib.Decide.{ℕ_discrete}
use fireball_os.Descriptors.{Files, set_file, calls, bad_request, select_read}

select_read-file :
    (fds : Files) (fd buf nbytes : ℕ)
    → fd < 8
    → buf ≢ 0
    → nbytes < 2 ^ 31
    → (fds fd).flags ≢ 0
    → (fds fd).file_op ≡ file_jt
    → select_read fds fd buf nbytes ≡ calls file_jt (fds fd)
unfolding select_read
select_read-file fds fd buf nbytes lt nonzero small used is_file =
    let good : bad_request fd buf nbytes ≡ false = ground arith in
    let readable : has_read (fds fd).file_op ≡ true =
      ap has_read is_file ∙ (unfold has_read in refl) in
    let unused : (fds fd).flags == 0 ≡ false = ground arith in
    let chosen : ((fds fd).flags == 0 || not (has_read (fds fd).file_op)) ≡ false =
      ground (arith, readable, unused) in
    rw (good, chosen) (ap (λ j. calls j (fds fd)) is_file)

-- What a `read` of `n` bytes leaves: the descriptor is moved on, the others and the other processes
-- are as they were, and the bytes are in memory.
pub record HasRead (s : System) (fd n : ℕ) (m : Mem) (s' : System) : Type 0 where
  pub memory : s'.kernel.mem ≡ m
  pub files :
      (i : ℕ)
      → files_of s'.kernel i ≡ (
          if i == fd
          then record (files_of s.kernel i) { file_pos = (files_of s.kernel i).file_pos + n }
          else files_of s.kernel i)
  pub others : (p : ℕ) → p ≢ s.kernel.curr_process → s'.kernel.pcbs p ≡ s.kernel.pcbs p
  pub terms : s'.terms ≡ s.terms

set_file-moved :
    (fds : Files) (fd n i : ℕ)
    → set_file fds fd (record (fds fd) { file_pos = (fds fd).file_pos + n }) i
      ≡ (if i == fd then record (fds i) { file_pos = (fds i).file_pos + n } else fds i)
set_file-moved fds fd n i = elim (ℕ_discrete i fd) [
  | yes here ↦ rw here refl
  | no other ↦ let miss : (i == fd) ≡ false = ground (arith, other) in rw miss refl
]

files_of-set_fd :
    (k : Kernel) (fd : ℕ) (f : File) → files_of (set_fd k fd f) ≡ set_file (files_of k) fd f
files_of-set_fd k fd f =
    let same : (k.curr_process == k.curr_process) ≡ true = ground arith in rw (same, files_of) refl

with_file-HasRead :
    (s : System) (fd n : ℕ) (m : Mem)
    → let file = files_of s.kernel fd in
      HasRead s fd n m (with_file s fd (n, record file { file_pos = file.file_pos + n }, m)).1
with_file-HasRead s fd n m =
    let moved = set_file-moved (files_of s.kernel) fd n in
    let kept =
      files_of-set_fd s.kernel fd
        (record (files_of s.kernel fd) { file_pos = (files_of s.kernel fd).file_pos + n }) in
    record {
      memory = refl;
      files = λ i. ap (λ g. g i) kept ∙ moved i;
      others = λ p other.
          let miss : (p == s.kernel.curr_process) ≡ false = ground (arith, other) in rw miss refl;
      terms = refl;
    }

-- A `read` of the running process, at a descriptor that has a file of the image open, into a buffer
-- outside the image that is not null, whose request neither wraps nor is negative, with the file's
-- blocks in the image: it returns the number of bytes that the file has at the position, at most
-- `nbytes`, leaves those bytes in the buffer and all other memory as it was, moves this descriptor on
-- by that number, and changes no other descriptor, no other process and no terminal.
pub read-HasRead :
    (frame : ℕ) (w : Waiting) (s : System) (fd buf nbytes inode : ℕ)
    → fd < 8
    → buf ≢ 0
    → nbytes < 2 ^ 31
    → (files_of s.kernel fd).flags ≢ 0
    → (files_of s.kernel fd).file_op ≡ file_jt
    → IsOpen s.kernel.fs (files_of s.kernel fd) inode
    → CanRead s.kernel.fs s.kernel.mem inode (files_of s.kernel fd).file_pos buf nbytes
    → let file = files_of s.kernel fd in
      let n = available s.kernel.fs s.kernel.mem inode file.file_pos nbytes in
      (s' : System) × (read frame w s fd buf nbytes ≡ some (n, s'))
      × HasRead s fd n
          (loaded s.kernel.fs s.kernel.mem (inode_at s.kernel.fs inode) file.file_pos buf n)
          s'
unfolding read call_read
read-HasRead frame w s fd buf nbytes inode lt nonzero small used is_file is can =
    let file = files_of s.kernel fd in
    let n = available s.kernel.fs s.kernel.mem inode file.file_pos nbytes in
    let m = loaded s.kernel.fs s.kernel.mem (inode_at s.kernel.fs inode) file.file_pos buf n in
    let r : ℕ × File × Mem = (n, record file { file_pos = file.file_pos + n }, m) in
    let chosen = select_read-file (files_of s.kernel) fd buf nbytes lt nonzero small used is_file in
    let result = file_read-loaded s.kernel.fs file s.kernel.mem inode buf nbytes is can in
    (
      (with_file s fd r).1,
      ap (λ d. call_read frame w s fd d buf nbytes) chosen
          ∙ ap (λ o. o >>= λ r. some (with_file s fd r)) result,
      with_file-HasRead s fd n m,
    )
