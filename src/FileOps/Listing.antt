-- ===== src/FileOps/Listing.antt =====
-- `dir_read` of student-distrib/filesys.c, over a whole directory.
use fireball_os.Base.{
  ℕ, zero, suc, ◌+◌, ◌-◌, ◌*◌, ◌≤◌, ◌<◌, ◌^◌, ◌≡◌, ◌≢◌, ◌⊎◌, refl, sym, subst, ap, ◌∙◌, arith, ◌==◌,
  leb, true, false, some, add32,
}
use fireball_os.Memory.{Mem, load32}
use fireball_os.Memory.Copy.{within}
use fireball_os.CString.Bounded.{padded, copied_string, strncpy-copied}
use fireball_os.CString.Length.{IsString, strlen-some}
use fireball_os.CString.Compare.{IsBytes}
use fireball_os.FileSystem.{FileSys, num_dir_entries, dir_entry, copy_dentry, read_dentry_by_index}
use fireball_os.FileSystem.Lookup.{
  copied_entry, copy_dentry-copied, padded-lt, IsBytes-copied_string,
}
use fireball_os.OpenFile.{File}
use fireball_os.FileOps.{dir_read, dir_name_len}

-- A directory that can be listed into `buf`, with the local structure of `dir_read` at `frame`: memory
-- holds bytes, the names have from 1 to 31 characters, `lens` of them, and the image, the buffer and the structure do
-- not overlap.
pub record CanList (fs : FileSys) (m : Mem) (frame buf : ℕ) (lens : ℕ → ℕ) : Type 0 where
  pub bytes : IsBytes m
  pub given : frame ≢ 0
  pub names : (i : ℕ) → i < num_dir_entries fs m → IsString m (dir_entry fs i) (lens i)
  pub some_name : (i : ℕ) → i < num_dir_entries fs m → 0 < lens i
  pub short : (i : ℕ) → i < num_dir_entries fs m → lens i < 32
  pub frame_apart :
      (frame + 64 ≤ fs.boot_block) ⊎ (fs.boot_block + 64 + 64 * num_dir_entries fs m ≤ frame)
  pub buf_apart :
      (buf + 32 ≤ fs.boot_block) ⊎ (fs.boot_block + 64 + 64 * num_dir_entries fs m ≤ buf)
  pub apart : (buf + 32 ≤ frame) ⊎ (frame + 64 ≤ buf)

-- memory after a call at position `p`
abbrev pub listed : FileSys → Mem → (frame buf p : ℕ) → Mem
listed fs m frame buf p = copied_string (copied_entry m frame (dir_entry fs p)) buf frame 32

padded-at : (m : Mem) (s j : ℕ) → ((i : ℕ) → i < j → m (s + i) ≢ 0) → padded m s j ≡ m (s + j)
unfolding padded
padded-at m s zero h = ap m (omega arith)
padded-at m s (suc j) h =
    let start : s + 0 ≡ s = omega arith in
    let first : (m s == 0) ≡ false =
      ground (arith, subst (λ a. m a ≢ 0) start (h 0 (omega arith))) in
    let next : s + 1 + j ≡ s + suc j = omega arith in
    rw first (
      padded-at m (s + 1) j (λ i lt.
        let at : s + suc i ≡ s + 1 + i = omega arith in
        subst (λ a. m a ≢ 0) at (h (suc i) (omega arith)))
      ∙ ap m next)

word_same :
    (m m' : Mem) (p : ℕ)
    → m' p ≡ m p
    → m' (p + 1) ≡ m (p + 1)
    → m' (p + 2) ≡ m (p + 2)
    → m' (p + 3) ≡ m (p + 3)
    → load32 m' p ≡ load32 m p
unfolding load32
word_same m m' p a b c d = rw (a, b, c, d) refl

module _ (fs : FileSys) (m : Mem) (frame buf : ℕ) (lens : ℕ → ℕ) (can : CanList fs m frame buf lens)
    (p : ℕ) (lt : p < num_dir_entries fs m) where
  -- the directory and what stands before it in the image stay as they were
  pub listed-same :
      (a : ℕ)
      → fs.boot_block ≤ a
      → a < fs.boot_block + 64 + 64 * num_dir_entries fs m
      → listed fs m frame buf p a ≡ m a
  listed-same a lo hi = ground (arith, can.frame_apart, can.buf_apart)

  copied_entry-name :
      (j : ℕ)
      → j ≤ lens p
      → copied_entry m frame (dir_entry fs p) (frame + j) ≡ m (dir_entry fs p + j)
  copied_entry-name j le =
      let small = can.short p lt in
      let inside : within frame 32 (frame + j) ≡ true = ground arith in
      let place : frame + j - frame ≡ j = omega arith in
      rw (inside, place)
        (padded-at m (dir_entry fs p) j (λ i below. (can.names p lt).nonzero i (omega arith)))

  pub listed-name :
      (j : ℕ) → j ≤ lens p → listed fs m frame buf p (buf + j) ≡ m (dir_entry fs p + j)
  listed-name j le =
      let small = can.short p lt in
      let inside : within buf 32 (buf + j) ≡ true = ground arith in
      let place : buf + j - buf ≡ j = omega arith in
      rw (inside, place)
        (padded-at (copied_entry m frame (dir_entry fs p)) frame j (λ i below.
            rw (copied_entry-name i (omega arith)) ((can.names p lt).nonzero i (omega arith)))
          ∙ copied_entry-name j le)

  listed-IsString : IsString (listed fs m frame buf p) buf (lens p)
  listed-IsString = record {
    nonzero = λ i below. rw (listed-name i (omega arith)) ((can.names p lt).nonzero i below);
    terminated = listed-name (lens p) (omega arith) ∙ (can.names p lt).terminated;
  }

  pub count-same : num_dir_entries fs (listed fs m frame buf p) ≡ num_dir_entries fs m
  count-same =
      let b = fs.boot_block in
      word_same m (listed fs m frame buf p) b (listed-same b (omega arith) (omega arith))
        (listed-same (b + 1) (omega arith) (omega arith))
        (listed-same (b + 2) (omega arith) (omega arith))
        (listed-same (b + 3) (omega arith) (omega arith))

  IsBytes-copied_entry : IsBytes (copied_entry m frame (dir_entry fs p))
  IsBytes-copied_entry a = ground (
    arith,
    can.bytes a,
    padded-lt m (dir_entry fs p) (a - frame) can.bytes,
    can.bytes (dir_entry fs p + (a - frame)),
  )

  pub CanList-listed : CanList fs (listed fs m frame buf p) frame buf lens
  CanList-listed =
      let old : (i : ℕ)
          → i < num_dir_entries fs (listed fs m frame buf p)
          → i < num_dir_entries fs m =
        λ i below. subst (λ n. i < n) count-same below in
      record {
        bytes =
            IsBytes-copied_string (copied_entry m frame (dir_entry fs p)) buf frame 32
              IsBytes-copied_entry;
        given = can.given;
        names = λ i below.
            let small = can.short i (old i below) in
            let name = can.names i (old i below) in
            record {
              nonzero = λ j inside.
                  rw (listed-same (dir_entry fs i + j) (omega arith) (omega (arith, old i below)))
                    (name.nonzero j inside);
              terminated =
                  listed-same (dir_entry fs i + lens i) (omega arith) (omega (arith, old i below))
                  ∙ name.terminated;
            };
        some_name = λ i below. can.some_name i (old i below);
        short = λ i below. can.short i (old i below);
        frame_apart =
            subst (λ n. (frame + 64 ≤ fs.boot_block) ⊎ (fs.boot_block + 64 + 64 * n ≤ frame))
              (sym count-same) can.frame_apart;
        buf_apart =
            subst (λ n. (buf + 32 ≤ fs.boot_block) ⊎ (fs.boot_block + 64 + 64 * n ≤ buf))
              (sym count-same) can.buf_apart;
        apart = can.apart;
      }

pub dir_read-listed :
    (fs : FileSys) (m : Mem) (frame buf : ℕ) (lens : ℕ → ℕ) (file : File) (nbytes : ℕ)
    → CanList fs m frame buf lens
    → file.file_pos < num_dir_entries fs m
    → 32 ≤ nbytes
    → nbytes < 2 ^ 31
    → dir_read fs frame file m buf nbytes
      ≡ some (
        lens file.file_pos,
        record file { file_pos = add32 file.file_pos 1 },
        listed fs m frame buf file.file_pos,
      )
unfolding dir_read read_dentry_by_index
dir_read-listed fs m frame buf lens file nbytes can lt lo hi =
    let on : leb (num_dir_entries fs m) file.file_pos ≡ false = ground arith in
    let given : (frame == 0) ≡ false = ground (arith, can.given) in
    let length : dir_name_len nbytes ≡ 32 = ground arith in
    let entry : copy_dentry m frame (dir_entry fs file.file_pos)
        ≡ copied_entry m frame (dir_entry fs file.file_pos) =
      copy_dentry-copied m frame (dir_entry fs file.file_pos) can.bytes
        (ground (arith, can.frame_apart)) in
    let name =
      strncpy-copied (copied_entry m frame (dir_entry fs file.file_pos)) buf frame 32
        (omega (arith, can.apart)) in
    let size =
      strlen-some (listed fs m frame buf file.file_pos) buf (lens file.file_pos)
        (listed-IsString fs m frame buf lens can file.file_pos lt)
        (omega (arith, can.short file.file_pos lt)) in
    rw (on, given, entry, length, name, size) refl
