-- ===== src/FileSystem/Names.antt =====
-- The search of `read_dentry_by_name` in student-distrib/filesys.c.
use fireball_os.Base.{
  ℕ, zero, suc, ◌+◌, ◌≤◌, ◌<◌, ◌≡◌, ◌≢◌, refl, ◌∙◌, arith, ◌==◌, Bool, some, Option, ret_failure,
  ret_success,
}
use native.Mathlib.Decide.{ℕ_discrete}
use fireball_os.Memory.{Mem}
use fireball_os.Memory.Copy.{Apart}
use fireball_os.CString.{strlen, strncmp}
use fireball_os.CString.Compare.{SameString, IsBytes, strncmp_iff}
use fireball_os.FileSystem.{
  FileSys, num_dir_entries, dir_entry, clamp_name, copy_dentry, dentry_loop, read_dentry_by_name,
}
use fireball_os.FileSystem.Lookup.{copied_entry, copy_dentry-copied}

-- What a look-up may rely on: memory holds bytes, the name sought and the names of the entries end
-- somewhere, the latter at lengths `lens`, and no pointer is null.
pub record CanSearch (fs : FileSys) (m : Mem) (fname dentry typed : ℕ) (lens : ℕ → ℕ) : Type 0 where
  pub bytes : IsBytes m
  pub name_given : fname ≢ 0
  pub target_given : dentry ≢ 0
  pub name : strlen m fname ≡ some typed
  pub names : (j : ℕ) → j < num_dir_entries fs m → strlen m (dir_entry fs j) ≡ some (lens j)

-- Entry `j` has the name: the lengths agree when both are cut at 31, and so do the characters.
abbrev pub Matches : FileSys → Mem → (fname typed : ℕ) (lens : ℕ → ℕ) (j : ℕ) → Type 0
Matches fs m fname typed lens j =
    (clamp_name (lens j) ≡ clamp_name typed)
    × SameString m fname (dir_entry fs j) (clamp_name (lens j))

module _ (fs : FileSys) (m : Mem) (fname dentry typed : ℕ) (lens : ℕ → ℕ)
    (can : CanSearch fs m fname dentry typed lens) where
  abbrev loop : ℕ → ℕ → Option (ℕ × Mem)
  loop k i = dentry_loop k fs m fname (clamp_name typed) dentry i

  abbrev Hit : ℕ → Type 0
  Hit = Matches fs m fname typed lens

  loop-Hit :
      (k i : ℕ)
      → i < num_dir_entries fs m
      → Hit i
      → loop (suc k) i ≡ some (ret_success, copy_dentry m dentry (dir_entry fs i))
  unfolding dentry_loop
  loop-Hit k i lt hit =
      let same = (strncmp_iff m can.bytes fname (dir_entry fs i) (clamp_name (lens i))).1 hit.1 in
      let e : (clamp_name (lens i) == clamp_name typed) ≡ Bool.true = ground (arith, hit.0) in
      rw (can.names i lt, e, same)

  loop_miss : (k i : ℕ) → i < num_dir_entries fs m → (Hit i → ⊥) → loop (suc k) i ≡ loop k (i + 1)
  unfolding dentry_loop
  loop_miss k i lt miss = elim (ℕ_discrete (clamp_name (lens i)) (clamp_name typed)) [
    | no differ ↦
        let e : (clamp_name (lens i) == clamp_name typed) ≡ Bool.false = ground (arith, differ) in
        rw (can.names i lt, e)
    | yes equal ↦
        let e : (clamp_name (lens i) == clamp_name typed) ≡ Bool.true = ground (arith, equal) in
        elim (ℕ_discrete (strncmp m fname (dir_entry fs i) (clamp_name (lens i))) 0) [
          | yes z ↦ absurd (
              miss
                (equal, (strncmp_iff m can.bytes fname (dir_entry fs i) (clamp_name (lens i))).0 z))
          | no nz ↦
              let f : (strncmp m fname (dir_entry fs i) (clamp_name (lens i)) == 0) ≡ Bool.false =
                ground (arith, nz) in
              rw (can.names i lt, e, f)
        ]
  ]

  loop_found :
      (k i j : ℕ)
      → i + k ≡ num_dir_entries fs m
      → i ≤ j
      → j < num_dir_entries fs m
      → ((h : ℕ) → h < j → Hit h → ⊥)
      → Hit j
      → loop k i ≡ some (ret_success, copy_dentry m dentry (dir_entry fs j))
  loop_found zero i j e le lt miss hit = absurd (omega arith)
  loop_found (suc k) i j e le lt miss hit = elim (ℕ_discrete i j) [
    | yes here ↦ rw here (loop-Hit k j lt hit)
    | no later ↦
        loop_miss k i (omega arith) (miss i (omega arith))
        ∙ loop_found k (i + 1) j (omega arith) (omega arith) lt miss hit
  ]

  loop_missing :
      (k i : ℕ)
      → i + k ≡ num_dir_entries fs m
      → ((h : ℕ) → h < num_dir_entries fs m → Hit h → ⊥)
      → loop k i ≡ some (ret_failure, m)
  loop_missing zero i e miss = unfold dentry_loop in refl
  loop_missing (suc k) i e miss =
      loop_miss k i (omega arith) (miss i (omega arith)) ∙ loop_missing k (i + 1) (omega arith) miss

  enters : read_dentry_by_name fs m fname dentry ≡ loop (num_dir_entries fs m) 0
  unfolding read_dentry_by_name
  enters =
      let given : (fname == 0) ≡ Bool.false = ground (arith, can.name_given) in
      let target : (dentry == 0) ≡ Bool.false = ground (arith, can.target_given) in
      rw (given, target, can.name)

  -- In memory of bytes, for pointers that are not null and names with a terminator: names count for
  -- their first 31 characters, and when an entry has the name sought, both cut at 31,
  -- `read_dentry_by_name` returns 0, and has copied the first such entry to `dentry`, the name as
  -- it stands in the entry padded with zeros, and changed nothing else, where `dentry` does not
  -- overlap that entry.
  pub read_dentry_by_name-found :
      (j : ℕ)
      → j < num_dir_entries fs m
      → ((h : ℕ) → h < j → Matches fs m fname typed lens h → ⊥)
      → Matches fs m fname typed lens j
      → Apart dentry (dir_entry fs j) 64
      → read_dentry_by_name fs m fname dentry
        ≡ some (ret_success, copied_entry m dentry (dir_entry fs j))
  read_dentry_by_name-found j lt miss hit apart =
      enters
      ∙ loop_found (num_dir_entries fs m) 0 j (omega arith) (omega arith) lt miss hit
      ∙ rw (copy_dentry-copied m dentry (dir_entry fs j) can.bytes apart)

  -- When no entry has the name, it returns -1 and changes nothing.
  pub read_dentry_by_name-missing :
      ((h : ℕ) → h < num_dir_entries fs m → Matches fs m fname typed lens h → ⊥)
      → read_dentry_by_name fs m fname dentry ≡ some (ret_failure, m)
  read_dentry_by_name-missing miss =
      enters ∙ loop_missing (num_dir_entries fs m) 0 (omega arith) miss
