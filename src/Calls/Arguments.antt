-- ===== src/Calls/Arguments.antt =====
-- `getargs` of student-distrib/systemcalls.c.
use fireball_os.Base.{
  ℕ, ◌+◌, ◌-◌, ◌<◌, ◌≤◌, ◌≡◌, ◌⊎◌, refl, arith, if◌then◌else◌, some, u32, false, ret_success, ◌∙◌,
  ap, Bool-cases, inl, inr,
}
use fireball_os.Memory.{Mem, memcpy}
use fireball_os.Memory.Copy.{within, copied, memcpy-copied}
use fireball_os.Memory.Fill.{filled, memset-filled}
use fireball_os.CString.Length.{IsString, strlen-some}
use fireball_os.Process.{Kernel}
use fireball_os.Calls.{getargs}

-- `getargs` with arguments of `n` characters that end, and that the two areas it writes to do not
-- overlap, comes to an end, returns 0, and leaves the `n` characters in the buffer, zeros from there
-- to the end of the `nbytes`, and all other memory as it was. So, when there are `nbytes` characters
-- or more, no terminator is written, and the buffer's end is no bound for what is.
pub getargs-copied :
    (k : Kernel) (buf nbytes n : ℕ)
    → IsString k.mem k.args n
    → n < u32
    → (buf + nbytes ≤ k.args) ⊎ (k.args + n < buf)
    → (buf + n ≤ k.args) ⊎ (k.args + n < buf)
    → (m : Mem) × (getargs k buf nbytes ≡ some (ret_success, record k { mem = m }))
      × ((a : ℕ)
          → m a ≡ (
              if within buf n a
              then k.mem (k.args + (a - buf))
              else if within buf nbytes a
              then 0
              else k.mem a))
unfolding getargs
getargs-copied k buf nbytes n is small cleared written =
    let m1 = filled k.mem buf 0 nbytes in
    let steps =
      ap (λ m. memcpy m buf k.args n) (memset-filled k.mem buf 0 nbytes)
      ∙ memcpy-copied m1 buf k.args n (ground (arith, written)) in
    (
      copied m1 buf k.args n,
      rw (strlen-some k.mem k.args n is small, steps) refl,
      λ a. elim (Bool-cases (within buf n a)) [
        | inl inside ↦
            let kept : within buf nbytes (k.args + (a - buf)) ≡ false =
              ground (arith, inside, cleared) in
            rw (inside, kept) refl
        | inr outside ↦ rw outside refl
      ],
    )
