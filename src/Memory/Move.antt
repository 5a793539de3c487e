-- ===== src/Memory/Move.antt =====
-- `memmove` of student-distrib/lib.c on areas that overlap.
use fireball_os.Base.{ℕ, zero, suc, ◌+◌, ◌≤◌, ◌≡◌, ◌∙◌, fun_ext, arith, leb, Bool-cases, inl, inr}
use fireball_os.Memory.{Mem, store, movsb, movsb_down, memmove}
use fireball_os.Memory.Copy.{copied}

movsb-copied_up : (n : ℕ) (m : Mem) (d s a : ℕ) → d ≤ s → movsb n m d s a ≡ copied m d s n a
unfolding movsb
movsb-copied_up zero m d s a h = ground arith
movsb-copied_up (suc n) m d s a h =
    movsb-copied_up n (store m d (m s)) (d + 1) (s + 1) a (omega arith) ∙ step
  where
    step : copied (store m d (m s)) (d + 1) (s + 1) n a ≡ copied m d s (suc n) a
    step = unfold store in ground arith

movsb_down-copied : (n : ℕ) (m : Mem) (d s a : ℕ) → s ≤ d → movsb_down n m d s a ≡ copied m d s n a
unfolding movsb_down
movsb_down-copied zero m d s a h = ground arith
movsb_down-copied (suc n) m d s a h =
    movsb_down-copied n (store m (d + n) (m (s + n))) d s a h ∙ step
  where
    step : copied (store m (d + n) (m (s + n))) d s n a ≡ copied m d s (suc n) a
    step = unfold store in ground arith

-- `memmove` copies the source as it stood before the call to the destination and changes
-- nothing else, however the two areas overlap.
pub memmove-copied : (m : Mem) (d s n : ℕ) → memmove m d s n ≡ copied m d s n
unfolding memmove
memmove-copied m d s n = elim (Bool-cases (leb d s)) [
  | inl e ↦ rw e (fun_ext (λ a. movsb-copied_up n m d s a (ground arith)))
  | inr e ↦ rw e (fun_ext (λ a. movsb_down-copied n m d s a (ground arith)))
]
