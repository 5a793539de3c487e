-- ===== src/Keyboard/Held.antt =====
-- The keys that `kbd_logic` of student-distrib/keyboard.c remembers, over a run of scan codes.
use fireball_os.Base.{
  ℕ, ◌+◌, ◌%◌, ◌^◌, ◌<◌, ◌≡◌, ◌≢◌, ◌⊎◌, inl, inr, refl, arith, ◌==◌, if◌then◌else◌, List, [], ◌∷◌,
  ◌++◌,
}
use fireball_os.Keyboard.{Keys, hold_keys}

-- the state after a run of scan codes, the first one first
pub held : List ℕ → Keys → Keys
held [] k = k
held (p ∷ ps) k = held ps (hold_keys p k)

held-append : (ps qs : List ℕ) (k : Keys) → held (ps ++ qs) k ≡ held qs (held ps k)
unfolding held
held-append [] qs k = refl
held-append (p ∷ ps) qs k = held-append ps qs (hold_keys p k)

-- no release of either shift key
abbrev pub NoRelease : List ℕ → Type 0
NoRelease [] = Unit {0}
NoRelease (p ∷ ps) = (p ≢ 0xaa) × (p ≢ 0xb6) × NoRelease ps

-- no press of either shift key
abbrev pub NoPress : List ℕ → Type 0
NoPress [] = Unit {0}
NoPress (p ∷ ps) = (p ≢ 0x2a) × (p ≢ 0x36) × NoPress ps

shift_kept : (ps : List ℕ) (k : Keys) → NoRelease ps → k.shift ≡ 1 → (held ps k).shift ≡ 1
unfolding held hold_keys
shift_kept [] k none e = e
shift_kept (p ∷ ps) k none e = shift_kept ps (hold_keys p k) none.2 (ground (arith, none.0, none.1))

shift_free : (ps : List ℕ) (k : Keys) → NoPress ps → k.shift ≡ 0 → (held ps k).shift ≡ 0
unfolding held hold_keys
shift_free [] k none e = e
shift_free (p ∷ ps) k none e = shift_free ps (hold_keys p k) none.2 (ground (arith, none.0, none.1))

-- The code `p` was the last to decide whether shift is held: a press of either key that no release
-- has followed, or a release that no press has followed.
abbrev pub Decides : (p : ℕ) (qs : List ℕ) (v : ℕ) → Type 0
Decides p qs v =
    (((p ≡ 0x2a) ⊎ (p ≡ 0x36)) × NoRelease qs × (v ≡ 1))
    ⊎ (((p ≡ 0xaa) ⊎ (p ≡ 0xb6)) × NoPress qs × (v ≡ 0))

shift_down : (p : ℕ) (k : Keys) → (p ≡ 0x2a) ⊎ (p ≡ 0x36) → (hold_keys p k).shift ≡ 1
unfolding hold_keys
shift_down p k (inl e) = rw e
shift_down p k (inr e) = rw e

shift_up : (p : ℕ) (k : Keys) → (p ≡ 0xaa) ⊎ (p ≡ 0xb6) → (hold_keys p k).shift ≡ 0
unfolding hold_keys
shift_up p k (inl e) = rw e
shift_up p k (inr e) = rw e

-- After any run of scan codes in which a shift key has been pressed and none has been released
-- since, shift is held; after one in which a shift key has been released and none has been pressed
-- since, it is not, even if the other one is still down.
held-shift :
    (ps qs : List ℕ) (p v : ℕ) (k : Keys) → Decides p qs v → (held (ps ++ p ∷ qs) k).shift ≡ v
unfolding held
held-shift ps qs p v k (inl (pressed, kept, e)) =
    rw (held-append ps (p ∷ qs) k, e)
      (shift_kept qs (hold_keys p (held ps k)) kept (shift_down p (held ps k) pressed))
held-shift ps qs p v k (inr (released, free, e)) =
    rw (held-append ps (p ∷ qs) k, e)
      (shift_free qs (hold_keys p (held ps k)) free (shift_up p (held ps k) released))

-- how often a code occurs
abbrev pub count : ℕ → List ℕ → ℕ
count c [] = 0
count c (p ∷ ps) = (if p == c then 1 else 0) + count c ps

-- what caps lock has counted, and the offset that it gives
pub record CapsAt (n : ℕ) (k : Keys) : Type 0 where
  pub presses : k.caps_count ≡ n
  pub letters : k.offset ≡ (if n % 2 == 1 then 32 else 0)

hold_keys-CapsAt :
    (p n : ℕ) (k : Keys)
    → n + (if p == 0x3a then 1 else 0) < 2 ^ 31
    → CapsAt n k
    → CapsAt (n + (if p == 0x3a then 1 else 0)) (hold_keys p k)
unfolding hold_keys
hold_keys-CapsAt p n k lt at = record {
  presses = ground (arith, at.presses);
  letters = ground (arith, at.presses, at.letters);
}

-- From a state in which caps lock has been pressed `n` times, after any run of scan codes in which
-- the presses stay below 2 ^ 31, capital letters are on exactly if the number of presses is odd.
pub held-CapsAt :
    (ps : List ℕ) (n : ℕ) (k : Keys)
    → n + count 0x3a ps < 2 ^ 31
    → CapsAt n k
    → CapsAt (n + count 0x3a ps) (held ps k)
unfolding held
held-CapsAt [] n k lt at = let e : n + 0 ≡ n = omega arith in rw e at
held-CapsAt (p ∷ ps) n k lt at =
    let hit : ℕ = if p == 0x3a then 1 else 0 in
    let e : n + (hit + count 0x3a ps) ≡ n + hit + count 0x3a ps = omega arith in
    rw e (
      held-CapsAt ps (n + hit) (hold_keys p k) (omega arith)
        (hold_keys-CapsAt p n k (omega arith) at))
