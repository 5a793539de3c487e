-- ===== src/Music/Tone.antt =====
-- What the speaker of student-distrib/music.c is set to.
use Prim.Native.Nat.{bit_and, bit_or}
use native.Mathlib.Nat.{div-mul-le_self, lt-div-mul-add, mod-eq_of_lt, div-lt_iff_lt-mul}
use fireball_os.Base.{
  ℕ, zero, suc, ◌+◌, ◌*◌, ◌/◌, ◌%◌, ◌<◌, ◌≤◌, ◌≡◌, inl, inr, refl, ap, ◌∙◌, arith, ◌==◌,
  if◌then◌else◌, List, [], ◌∷◌, ◌&&◌, Bool, true, false, Bool-cases, passes_below,
  passes-passes_below,
}
use fireball_os.Music.{Speaker, divisor, play_sound, sounds, nosound}

-- Channel 2 of the timer and the gate of the speaker, which is open when both its bits are set. The
-- command 0xb6 says that a low byte and a high byte of the divisor follow.
pub record Tone : Type 0 where
  pub wants_high : Bool
  pub low : ℕ
  pub divides_by : ℕ
  pub gate : ℕ

abbrev pub tone_write : ℕ × ℕ → Tone → Tone
tone_write (byte, port) t =
    if port == 0x43
    then (if byte == 0xb6 then record t { wants_high = false } else t)
    else if port == 0x42
    then (if t.wants_high
        then record t { wants_high = false; divides_by = t.low + 256 * byte }
        else record t { wants_high = true; low = byte })
    else if port == 0x61
    then record t { gate = byte % 4 }
    else t

-- what writes leave, the latest first
unfoldable pub tone : List (ℕ × ℕ) → Tone
tone [] = record { wants_high = false; low = 0; divides_by = 0; gate = 0 }
tone (w ∷ ws) = tone_write w (tone ws)

-- The next read of the port 0x61 gives a byte with the two bits of the gate.
abbrev pub TellsGate : Speaker → Type 0
TellsGate s = (s.inputs s.reads < 256) × (s.inputs s.reads % 4 ≡ (tone s.sent).gate)

-- and so do the reads of the next `n` rounds
abbrev pub TellsAll : (n sound_freq : ℕ) → Speaker → Type 0
TellsAll zero sound_freq s = Unit
TellsAll (suc n) sound_freq s = TellsGate s × TellsAll n sound_freq (play_sound sound_freq s)

-- how the two operations treat the low bits of a byte
abbrev gate_checked : ℕ → Bool
gate_checked x =
    (bit_or x 3 % 4 == 3)
    && ((bit_and x 0xfc % 4 == 0) && (if x == bit_or x 3 then x % 4 == 3 else true))

gate_table : passes_below 256 gate_checked ≡ true
unfolding passes_below
gate_table = refl

gate_at : (x : ℕ) → x < 256 → gate_checked x ≡ true
gate_at x h = passes-passes_below 256 gate_checked x gate_table h

two_bytes : (d : ℕ) → d % 256 + 256 * (d / 256 % 256) ≡ d % 65536
two_bytes d = omega arith

play_sound-tone :
    (sound_freq : ℕ) (s : Speaker)
    → TellsGate s
    → let t = tone (play_sound sound_freq s).sent in
      (t.divides_by ≡ divisor sound_freq % 65536) × (t.gate ≡ 3)
unfolding play_sound tone
play_sound-tone sound_freq s tells =
    let tmp = s.inputs s.reads in
    let checked = gate_at tmp tells.0 in
    elim (Bool-cases (tmp == bit_or tmp 3)) [
      | inl is_open ↦
          rw is_open (two_bytes (divisor sound_freq), ground (arith, checked, is_open, tells.1))
      | inr closed ↦ rw closed (two_bytes (divisor sound_freq), ground (arith, checked))
    ]

sounds-tone :
    (n sound_freq : ℕ) (s : Speaker)
    → TellsAll (suc n) sound_freq s
    → let t = tone (sounds (suc n) sound_freq s).sent in
      (t.divides_by ≡ divisor sound_freq % 65536) × (t.gate ≡ 3)
unfolding sounds
sounds-tone zero sound_freq s tells = play_sound-tone sound_freq s tells.0
sounds-tone (suc n) sound_freq s tells = sounds-tone n sound_freq (play_sound sound_freq s) tells.1

-- After a loop of one round or more around `play_sound`, for a frequency from 19 to 1193180 Hertz and
-- while the port of the speaker gives back the two bits of the gate: the gate is open, and the timer
-- divides its 1193180 Hertz by the largest number whose tone is not below the frequency. `nosound` then closes
-- the gate and leaves the divisor.
pub sounds-nosound :
    (n sound_freq : ℕ) (s : Speaker)
    → 19 ≤ sound_freq
    → sound_freq ≤ 1193180
    → TellsAll (suc n) sound_freq s
    → TellsGate (sounds (suc n) sound_freq s)
    → let s' = sounds (suc n) sound_freq s in
      let t = tone s'.sent in
      (t.gate ≡ 3)
      × (t.divides_by * sound_freq ≤ 1193180)
      × (1193180 < (t.divides_by + 1) * sound_freq)
      × ((tone (nosound s').sent).gate ≡ 0)
      × ((tone (nosound s').sent).divides_by ≡ t.divides_by)
unfolding nosound tone
sounds-nosound n sound_freq s lo hi tells then_tells =
    let (divides, is_open) = sounds-tone n sound_freq s tells in
    let more : 0 < sound_freq = omega arith in
    let fits : 1193180 / sound_freq < 65536 =
      (div-lt_iff_lt-mul {k = sound_freq} {x = 1193180} {y = 65536} more).1 (omega arith) in
    let quotient : divisor sound_freq ≡ 1193180 / sound_freq = ground arith in
    let exact : (tone (sounds (suc n) sound_freq s).sent).divides_by ≡ 1193180 / sound_freq =
      divides ∙ ap (λ d. d % 65536) quotient ∙ mod-eq_of_lt fits in
    let checked =
      gate_at ((sounds (suc n) sound_freq s).inputs (sounds (suc n) sound_freq s).reads)
        then_tells.0 in
    (
      is_open,
      rw exact (div-mul-le_self 1193180 sound_freq),
      rw exact (grind (arith, lt-div-mul-add {a = 1193180} {b = sound_freq} more)),
      ground (arith, checked),
      refl,
    )
