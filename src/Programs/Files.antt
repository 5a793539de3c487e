-- ===== src/Programs/Files.antt =====
-- syscalls/ece391cat.c, syscalls/ece391ls.c and syscalls/ece391grep.c.
use Prim.Native.String.{String}
use fireball_os.Base.{
  ℕ, zero, suc, ◌+◌, ◌-◌, ◌==◌, if◌then◌else◌, leb, true, false, not, ◌&&◌, minus_one, none, some,
}
use fireball_os.Programs.{
  Os, Run, ◌>>=◌, ◌>>◌, pure, lift, peek, poke, ece391_fdputs, ece391_strlen, ece391_strcpy,
  ece391_strncmp,
}

-- `text` is where the linker say the string constants.
module _ (os : Os) (text : String → ℕ) where
  abbrev pub say : String → Run os (Unit {0})
  say s = ece391_fdputs os 1 (text s)

  abbrev pub fails : String → (result : ℕ) → Run os ℕ
  fails s result = say s >> pure result

  -- the loop of `cat`, with the array at `buf`
  unfoldable pub cat_loop : ℕ → (fd buf : ℕ) → Run os ℕ
  cat_loop zero fd buf = lift none
  cat_loop (suc f) fd buf = do
    cnt ← os.ece391_read fd buf 1024
    elim (cnt == 0) [
      | true ↦ pure 0
      | false ↦ elim (cnt == minus_one) [
        | true ↦ fails "file read failed\n" 3
        | false ↦ do
          r ← os.ece391_write 1 buf cnt
          elim (r == minus_one) [ true ↦ pure 3 | false ↦ cat_loop f fd buf ]
      ]
    ]

  unfoldable pub cat : (fuel buf : ℕ) → Run os ℕ
  unfolding cat_loop
  cat fuel buf = do
    r ← os.ece391_getargs buf 1024
    if not (r == 0) then fails "could not read arguments\n" 3 else do
      fd ← os.ece391_open buf
      if fd == minus_one then fails "file not found\n" 2 else cat_loop fuel fd buf

  -- the loop of `ls`
  unfoldable pub ls_loop : ℕ → (fd buf : ℕ) → Run os ℕ
  ls_loop zero fd buf = lift none
  ls_loop (suc f) fd buf = do
    cnt ← os.ece391_read fd buf 32
    elim (cnt == 0) [
      | true ↦ pure 0
      | false ↦ elim (cnt == minus_one) [
        | true ↦ fails "directory entry read failed\n" 3
        | false ↦ do
          poke os (buf + cnt) 10
          r ← os.ece391_write 1 buf (cnt + 1)
          elim (r == minus_one) [ true ↦ pure 3 | false ↦ ls_loop f fd buf ]
      ]
    ]

  unfoldable pub ls : (fuel buf : ℕ) → Run os ℕ
  unfolding ls_loop
  ls fuel buf = do
    fd ← os.ece391_open (text ".")
    if fd == minus_one then fails "directory open failed\n" 2 else ls_loop fuel fd buf

  -- `line_end`, from `i` on, with `n` characters to `last`
  unfoldable pub end_of_line : (n : ℕ) → (buf i : ℕ) → Run os ℕ
  end_of_line zero buf i = pure i
  end_of_line (suc n) buf i = do
    c ← peek os (buf + i)
    elim (c == 10) [ true ↦ pure i | false ↦ end_of_line n buf (i + 1) ]

  -- the search of a line, with `n` places left; it prints the line at the first one found
  unfoldable pub search_line :
      (n : ℕ) → (s s_len fname buf line_start check : ℕ) → Run os (Unit {0})
  search_line zero s s_len fname buf line_start check st = some (tt, st)
  search_line (suc n) s s_len fname buf line_start check st =
      let m = os.mem st in
      elim (m s == m (buf + check) && ece391_strncmp m (buf + check) s s_len == 0) [
        | false ↦ search_line n s s_len fname buf line_start (check + 1) st
        | true ↦
            (ece391_fdputs os 1 fname
                >> say ":"
                >> ece391_fdputs os 1 (buf + line_start)
                >> say "\n")
              st
      ]

  -- The loop over the lines in the array, with the number of characters that it leaves there. A round
  -- goes on by a line or more, so `last` rounds and one more are enough.
  unfoldable pub lines_loop : ℕ → (s s_len fname buf cnt last line_start : ℕ) → Run os ℕ
  unfolding end_of_line search_line
  lines_loop zero s s_len fname buf cnt last line_start = lift none
  lines_loop (suc f) s s_len fname buf cnt last line_start = do
    line_end ← end_of_line (last - line_start) buf line_start
    c ← peek os (buf + line_end)
    poke os (buf + line_end) 0
    elim (not (c == 10) && (not (cnt == 0) && not (line_start == 0))) [
      | true ↦ ece391_strcpy os buf (buf + line_start) >> pure (last - line_start)
      | false ↦ do
        search_line (line_end - line_start) s s_len fname buf line_start line_start
        elim (leb last (line_end + 1)) [
          | true ↦ pure 0
          | false ↦ lines_loop f s s_len fname buf cnt last (line_end + 1)
        ]
    ]

  -- the loop over the parts of a file; `none` also when the fuel is used up
  unfoldable pub file_loop : ℕ → (s s_len fname fd buf last : ℕ) → Run os ℕ
  unfolding lines_loop
  file_loop zero s s_len fname fd buf last = lift none
  file_loop (suc f) s s_len fname fd buf last = do
    cnt ← os.ece391_read fd (buf + last) (1024 - last)
    elim (cnt == minus_one) [
      | true ↦ fails "file read failed\n" minus_one
      | false ↦ do
        left ← lines_loop (last + cnt + 1) s s_len fname buf cnt (last + cnt) 0
        elim (cnt == 0) [
          | false ↦ file_loop f s s_len fname fd buf left
          | true ↦ do
            r ← os.ece391_close fd
            if r == minus_one then fails "file close failed\n" minus_one else pure 0
        ]
    ]

  unfoldable pub do_one_file : (fuel s fname buf : ℕ) → Run os ℕ
  unfolding file_loop
  do_one_file fuel s fname buf = do
    s_len ← ece391_strlen os s
    fd ← os.ece391_open fname
    if fd == minus_one
        then fails "file open failed\n" minus_one
        else file_loop fuel s s_len fname fd buf 0

  -- the loop of `grep` over the directory, with `name`, `wanted` and `buf` its arrays and that of
  -- `do_one_file`
  unfoldable pub grep_loop : ℕ → (fd name wanted buf : ℕ) → Run os ℕ
  unfolding do_one_file
  grep_loop zero fd name wanted buf = lift none
  grep_loop (suc f) fd name wanted buf = do
    cnt ← os.ece391_read fd name 32
    elim (cnt == 0) [
      | true ↦ pure 0
      | false ↦ elim (cnt == minus_one) [
        | true ↦ fails "directory entry read failed\n" 3
        | false ↦ do
          c ← peek os name
          elim (c == 46) [
            | true ↦ grep_loop f fd name wanted buf
            | false ↦ do
              poke os (name + cnt) 0
              r ← do_one_file f wanted name buf
              elim (r == 0) [ true ↦ grep_loop f fd name wanted buf | false ↦ pure 3 ]
          ]
      ]
    ]

  unfoldable pub grep : (fuel name wanted buf : ℕ) → Run os ℕ
  unfolding grep_loop
  grep fuel name wanted buf = do
    r ← os.ece391_getargs wanted 1024
    if not (r == 0) then fails "could not read argument\n" 3 else do
      fd ← os.ece391_open (text ".")
      if fd == minus_one
          then fails "directory open failed\n" 2
          else grep_loop fuel fd name wanted buf
