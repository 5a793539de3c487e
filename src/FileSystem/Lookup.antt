-- ===== src/FileSystem/Lookup.antt =====
-- The directory: which entry a name finds, and what is copied of it.
use fireball_os.Base.{ℕ, zero, suc, ◌+◌, ◌-◌, ◌<◌, ◌≡◌, ◌∙◌, fun_ext, arith, if◌then◌else◌}
use fireball_os.Memory.{Mem, load32, store32, store}
use fireball_os.Memory.Copy.{within, Apart, movsb-copied}
use fireball_os.CString.Compare.{IsBytes}
use fireball_os.CString.Bounded.{padded, copied_string, strncpy-copied}
use fireball_os.FileSystem.{copy_dentry, max_name_length, dentry_reserved}

-- Memory after the entry at `cur` has been copied to `d`: the name up to its terminator, padded
-- with zeros to 32 bytes, and the 32 bytes behind the name.
abbrev pub copied_entry : Mem → (d cur : ℕ) → Mem
copied_entry m d cur a =
    if within d 32 a then padded m cur (a - d) else if within d 64 a then m (cur + (a - d)) else m a

store32-load32 :
    (m : Mem) (p q a : ℕ)
    → IsBytes m
    → store32 m p (load32 m q) a ≡ (if within p 4 a then m (q + (a - p)) else m a)
unfolding store32 store load32
store32-load32 m p q a bytes = ground (arith, bytes q, bytes (q + 1), bytes (q + 2), bytes (q + 3))

pub padded-lt : (m : Mem) (s j : ℕ) → IsBytes m → padded m s j < 256
unfolding padded
padded-lt m s zero bytes = bytes s
padded-lt m s (suc j) bytes = ground (arith, padded-lt m (s + 1) j bytes)

pub IsBytes-copied_string : (m : Mem) (d s n : ℕ) → IsBytes m → IsBytes (copied_string m d s n)
IsBytes-copied_string m d s n bytes a = ground (arith, bytes a, padded-lt m s (a - d) bytes)

-- A word moved between areas that do not overlap: the bytes stay bytes, and the source as it was.
module _ (m : Mem) (p q : ℕ) (bytes : IsBytes m) where
  abbrev moved : Mem
  moved = store32 m p (load32 m q)

  IsBytes-moved : IsBytes moved
  IsBytes-moved a = ground (arith, store32-load32 m p q a bytes, bytes a, bytes (q + (a - p)))

module _ (m : Mem) (d cur : ℕ) (bytes : IsBytes m) (apart : Apart d cur 64) where
  abbrev m1 : Mem
  m1 = copied_string m d cur 32

  abbrev m2 : Mem
  m2 = moved m1 (d + 32) (cur + 32) (IsBytes-copied_string m d cur 32 bytes)

  bytes2 : IsBytes m2
  bytes2 = IsBytes-moved m1 (d + 32) (cur + 32) (IsBytes-copied_string m d cur 32 bytes)

  abbrev m3 : Mem
  m3 = moved m2 (d + 36) (cur + 36) bytes2

  m2_at : (a : ℕ) → m2 a ≡ (if within (d + 32) 4 a then m (cur + (a - d)) else m1 a)
  m2_at a =
      ground
        (arith, store32-load32 m1 (d + 32) (cur + 32) a (IsBytes-copied_string m d cur 32 bytes))

  m3_at :
      (a : ℕ)
      → m3 a ≡ (
          if within (d + 36) 4 a
          then m (cur + (a - d))
          else if within (d + 32) 4 a
          then m (cur + (a - d))
          else m1 a)
  m3_at a = ground (
    arith,
    store32-load32 m2 (d + 36) (cur + 36) a bytes2,
    m2_at a,
    m2_at (cur + 36 + (a - (d + 36))),
  )

  -- The fields are copied one by one; together they are the whole entry.
  pub copy_dentry-copied : copy_dentry m d cur ≡ copied_entry m d cur
  unfolding copy_dentry
  copy_dentry-copied = rw (strncpy-copied m d cur max_name_length (omega arith)) (
      fun_ext (λ a.
        movsb-copied dentry_reserved m3 (d + 40) (cur + 40) a (omega arith)
        ∙ ground (arith, m3_at a, m3_at (cur + 40 + (a - (d + 40))))))
