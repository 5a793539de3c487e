-- ===== src/FileOps/Names.antt =====
-- The names that calls of `dir_read` of student-distrib/filesys.c give one after another.
use fireball_os.Base.{
  ℕ, zero, suc, ◌+◌, ◌≤◌, ◌<◌, ◌^◌, ◌≡◌, refl, ap, ap₂, ◌∙◌, arith, leb, true, Option, some, ◌>>=◌,
  List, [], ◌∷◌, add32, ret_success,
}
use fireball_os.Memory.{Mem}
use fireball_os.FileSystem.{FileSys, num_dir_entries, dir_entry}
use fireball_os.OpenFile.{File}
use fireball_os.FileOps.{dir_read}
use fireball_os.FileOps.Listing.{
  CanList, listed, listed-same, listed-name, count-same, CanList-listed, dir_read-listed,
}

-- the `n` characters at an address
abbrev pub characters : Mem → (at n : ℕ) → List ℕ
characters m at zero = []
characters m at (suc n) = m at ∷ characters m (at + 1) n

-- `k` calls in a row: after each one, the characters in the buffer, as many as it returns
abbrev pub list_names :
    (k : ℕ)
    → FileSys
    → (frame : ℕ) → File
    → Mem
    → (buf nbytes : ℕ) → Option (List (List ℕ) × File × Mem)
list_names zero fs frame file m buf nbytes = some ([], file, m)
list_names (suc k) fs frame file m buf nbytes =
    dir_read fs frame file m buf nbytes >>= λ (n, file', m').
    list_names k fs frame file' m' buf nbytes >>= λ (names, last, m'').
    some (characters m' buf n ∷ names, last, m'')

-- the names of `k` entries of the image, from entry `p` on
abbrev pub names_from : FileSys → Mem → (lens : ℕ → ℕ) → (p k : ℕ) → List (List ℕ)
names_from fs m lens p zero = []
names_from fs m lens p (suc k) =
    characters m (dir_entry fs p) (lens p) ∷ names_from fs m lens (p + 1) k

characters-same :
    (n : ℕ) (m m' : Mem) (at at' : ℕ)
    → ((j : ℕ) → j < n → m' (at' + j) ≡ m (at + j))
    → characters m' at' n ≡ characters m at n
characters-same zero m m' at at' h = refl
characters-same (suc n) m m' at at' h =
    let here : m' at' ≡ m at = ap m' (omega arith) ∙ h 0 (omega arith) ∙ ap m (omega arith) in
    ap₂ (λ c cs. c ∷ cs) here
      (characters-same n m m' (at + 1) (at' + 1)
        (λ j lt. ap m' (omega arith) ∙ h (suc j) (omega arith) ∙ ap m (omega arith)))

names_from-listed :
    (k q : ℕ) (fs : FileSys) (m : Mem) (frame buf : ℕ) (lens : ℕ → ℕ)
    (can : CanList fs m frame buf lens) (p : ℕ)
    → p < num_dir_entries fs m
    → q + k ≤ num_dir_entries fs m
    → names_from fs (listed fs m frame buf p) lens q k ≡ names_from fs m lens q k
names_from-listed zero q fs m frame buf lens can p lt le = refl
names_from-listed (suc k) q fs m frame buf lens can p lt le =
    let short = can.short q (omega arith) in
    ap₂ (λ c cs. c ∷ cs)
      (characters-same (lens q) m (listed fs m frame buf p) (dir_entry fs q) (dir_entry fs q)
        (λ j below.
          listed-same fs m frame buf lens can p lt (dir_entry fs q + j) (omega arith)
            (omega arith)))
      (names_from-listed k (q + 1) fs m frame buf lens can p lt (omega arith))

-- For a directory of fewer than 64 entries, whose names have from 1 to 31 characters, in an image that
-- neither the buffer nor the stack overlaps, read into a buffer of 32 bytes or more: as many calls of `dir_read` as
-- there are entries from the position on come to an end, and give the names of these entries in
-- order, with none left out; and the call after them returns 0 and changes nothing.
pub list_names-all :
    (k : ℕ) (fs : FileSys) (frame : ℕ) (file : File) (m : Mem) (buf nbytes : ℕ) (lens : ℕ → ℕ)
    → CanList fs m frame buf lens
    → file.file_pos + k ≡ num_dir_entries fs m
    → num_dir_entries fs m < 64
    → 32 ≤ nbytes
    → nbytes < 2 ^ 31
    → (last : File) × (m' : Mem) × (list_names k fs frame file m buf nbytes
        ≡ some (names_from fs m lens file.file_pos k, last, m'))
      × (dir_read fs frame last m' buf nbytes ≡ some (ret_success, last, m'))
list_names-all zero fs frame file m buf nbytes lens can e few lo hi =
    let at_end : leb (num_dir_entries fs m) file.file_pos ≡ true = ground arith in
    (file, m, refl, unfold dir_read in rw at_end refl)
list_names-all (suc k) fs frame file m buf nbytes lens can e few lo hi =
    let p = file.file_pos in
    let lt : p < num_dir_entries fs m = omega arith in
    let m1 = listed fs m frame buf p in
    let next : File = record file { file_pos = add32 p 1 } in
    let wraps : add32 p 1 ≡ p + 1 = ground arith in
    let count = count-same fs m frame buf lens can p lt in
    let read = dir_read-listed fs m frame buf lens file nbytes can lt lo hi in
    let (last, m', names, done) =
      list_names-all k fs frame next m1 buf nbytes lens
        (CanList-listed fs m frame buf lens can p lt) (omega (arith, wraps, count))
        (omega (arith, count)) lo hi in
    let name : characters m1 buf (lens p) ≡ characters m (dir_entry fs p) (lens p) =
      characters-same (lens p) m m1 (dir_entry fs p) buf
        (λ j below. listed-name fs m frame buf lens can p lt j (omega arith)) in
    let rest : names_from fs m1 lens (add32 p 1) k ≡ names_from fs m lens (p + 1) k =
      ap (λ q. names_from fs m1 lens q k) wraps
      ∙ names_from-listed k (p + 1) fs m frame buf lens can p lt (omega arith) in
    (last, m', rw (read, names) (ap₂ (λ c cs. some (c ∷ cs, last, m')) name rest), done)
