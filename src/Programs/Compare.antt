-- ===== src/Programs/Compare.antt =====
-- `ece391_strcmp` of syscalls/ece391support.c, against equality of strings.
use fireball_os.Base.{
  ℕ, zero, suc, ◌+◌, ◌≤◌, ◌<◌, ◌≡◌, ◌≢◌, ◌↔◌, ◌∙◌, sym, refl, arith, ◌==◌, true, false, some, u32,
  sub32,
}
use native.Mathlib.Decide.{ℕ_discrete}
use fireball_os.Memory.{Mem}
use fireball_os.CString.Length.{IsString}
use fireball_os.CString.Compare.{IsBytes}
use fireball_os.Programs.{strcmp_loop, ece391_strcmp}

-- the strings of `n1` and `n2` characters are the same
abbrev pub AreSame : Mem → (s1 n1 s2 n2 : ℕ) → Type 0
AreSame m s1 n1 s2 n2 = (n1 ≡ n2) × ((j : ℕ) → j < n1 → m (s1 + j) ≡ m (s2 + j))

diff-ne_zero : (a b : ℕ) → a < 256 → b < 256 → a ≢ b → sub32 a b ≢ 0
diff-ne_zero a b lta ltb ne = ground (arith, ne)

module _ (m : Mem) (bytes : IsBytes m) (s1 n1 s2 n2 : ℕ) (is1 : IsString m s1 n1)
    (is2 : IsString m s2 n2) where
  differ-AreSame : (i : ℕ) → i ≤ n1 → m (s1 + i) ≢ m (s2 + i) → ¬ AreSame m s1 n1 s2 n2
  differ-AreSame i le differ (e, same) = elim (ℕ_discrete i n1) [
    | yes end ↦
        let first : m (s1 + i) ≡ 0 = rw end is1.terminated in
        let second : m (s2 + i) ≡ 0 = rw (end, e) is2.terminated in differ (first ∙ sym second)
    | no inside ↦ differ (same i (omega (arith, inside)))
  ]

  end-AreSame :
      (i : ℕ)
      → i ≤ n1
      → i ≤ n2
      → ((j : ℕ) → j < i → m (s1 + j) ≡ m (s2 + j))
      → m (s1 + i) ≡ 0
      → m (s2 + i) ≡ 0
      → AreSame m s1 n1 s2 n2
  end-AreSame i le1 le2 before z1 z2 =
      let at_end : i ≡ n1 = elim (ℕ_discrete i n1) [
        | yes end ↦ end
        | no inside ↦ absurd (is1.nonzero i (omega (arith, inside)) z1)
      ] in
      let at_end2 : i ≡ n2 = elim (ℕ_discrete i n2) [
        | yes end ↦ end
        | no inside ↦ absurd (is2.nonzero i (omega (arith, inside)) z2)
      ] in
      (sym at_end ∙ at_end2, λ j lt. before j (omega (arith, at_end)))

  goes_on : (i n s : ℕ) → IsString m s n → i ≤ n → m (s + i) ≢ 0 → i + 1 ≤ n
  goes_on i n s is le nonzero = elim (ℕ_discrete i n) [
    | yes end ↦ absurd (nonzero (rw end is.terminated))
    | no inside ↦ omega (arith, inside)
  ]

  strcmp_loop-AreSame :
      (f i : ℕ)
      → n1 < i + f
      → i ≤ n1
      → i ≤ n2
      → ((j : ℕ) → j < i → m (s1 + j) ≡ m (s2 + j))
      → (r : ℕ) × (strcmp_loop f m s1 s2 i ≡ some r) × ((r ≡ 0) ↔ AreSame m s1 n1 s2 n2)
  unfolding strcmp_loop
  strcmp_loop-AreSame zero i enough le1 le2 before = absurd (omega arith)
  strcmp_loop-AreSame (suc f) i enough le1 le2 before =
      elim (ℕ_discrete (m (s1 + i)) (m (s2 + i))) [
        | no differ ↦
            let test : (m (s1 + i) == m (s2 + i)) ≡ false = ground (arith, differ) in
            (
              sub32 (m (s1 + i)) (m (s2 + i)),
              rw (test, strcmp_loop) refl,
              (
                (λ z. absurd (
                    diff-ne_zero (m (s1 + i)) (m (s2 + i)) (bytes (s1 + i)) (bytes (s2 + i)) differ
                      z)),
                (λ same. absurd (differ-AreSame i le1 differ same)),
              ),
            )
        | yes equal ↦
            let test : (m (s1 + i) == m (s2 + i)) ≡ true = ground (arith, equal) in
            elim (ℕ_discrete (m (s1 + i)) 0) [
              | yes end ↦
                  let stop : (m (s1 + i) == 0) ≡ true = ground (arith, end) in
                  (
                    0,
                    rw (test, stop, strcmp_loop) refl,
                    ((λ z. end-AreSame i le1 le2 before end (sym equal ∙ end)), (λ same. refl)),
                  )
              | no more ↦
                  let on : (m (s1 + i) == 0) ≡ false = ground (arith, more) in
                  let (r, e, same) =
                    strcmp_loop-AreSame f (i + 1) (omega arith) (goes_on i n1 s1 is1 le1 more)
                      (goes_on i n2 s2 is2 le2 (λ z. more (equal ∙ z)))
                      (λ j lt. ground (arith, before j, equal)) in
                  (r, rw (test, on, strcmp_loop) e, same)
            ]
      ]

  -- In memory of bytes, `ece391_strcmp` of two strings that end, the first of fewer than 2 ^ 32
  -- characters, comes to an end, and returns 0 exactly when they have the same length and the same
  -- characters.
  pub ece391_strcmp-AreSame :
      n1 < u32 → (r : ℕ) × (ece391_strcmp m s1 s2 ≡ some r) × ((r ≡ 0) ↔ AreSame m s1 n1 s2 n2)
  unfolding ece391_strcmp
  ece391_strcmp-AreSame small =
      strcmp_loop-AreSame u32 0 (omega arith) (omega arith) (omega arith)
        (λ j lt. absurd (omega arith))
