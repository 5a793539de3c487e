-- ===== src/Music.antt =====
-- student-distrib/music.c: the speaker.
pub mod Tone
use Prim.Native.Nat.{bit_and, bit_or}
use fireball_os.Base.{
  ℕ, zero, suc, ◌+◌, ◌/◌, ◌%◌, ◌==◌, if◌then◌else◌, leb, Bool, ◌&&◌, ◌||◌, List, [], ◌∷◌, ◌++◌,
}

-- What the port 0x61 gives each time that it is read, how often that has been, and the writes to
-- ports, each a byte and a port, the latest first.
pub record Speaker : Type 0 where
  pub inputs : ℕ → ℕ
  pub reads : ℕ
  pub sent : List (ℕ × ℕ)

abbrev pub read_port : Speaker → ℕ × Speaker
read_port s = (s.inputs s.reads, record s { reads = s.reads + 1 })

abbrev pub outb : (byte port : ℕ) → Speaker → Speaker
outb byte port s = record s { sent = (byte, port) ∷ s.sent }

-- `Div`
abbrev pub divisor : (sound_freq : ℕ) → ℕ
divisor sound_freq = if sound_freq == 0 then 1193180 / 30000 else 1193180 / sound_freq

unfoldable pub play_sound : (sound_freq : ℕ) → Speaker → Speaker
play_sound sound_freq s =
    let div = divisor sound_freq in
    let (tmp, s') =
      read_port (outb (div / 256 % 256) 0x42 (outb (div % 256) 0x42 (outb 0xb6 0x43 s))) in
    if tmp == bit_or tmp 3 then s' else outb (bit_or tmp 3) 0x61 s'

unfoldable pub nosound : Speaker → Speaker
nosound s = let (tmp, s') = read_port s in outb (bit_and tmp 0xfc) 0x61 s'

-- a loop around `play_sound`, with `n` rounds left
unfoldable pub sounds : (n sound_freq : ℕ) → Speaker → Speaker
sounds zero sound_freq s = s
sounds (suc n) sound_freq s = sounds n sound_freq (play_sound sound_freq s)

-- the keys F4 to F10, F11 and F12
abbrev pub is_music_key : ℕ → Bool
is_music_key to_print = (leb 62 to_print && leb to_print 68) || (to_print == 87 || to_print == 88)

unfoldable pub music : (to_print : ℕ) → Speaker → ℕ × Speaker
unfolding sounds nosound
music to_print s = if is_music_key to_print then (1, nosound (sounds 10000 1000 s)) else (3, s)

-- A note of `imperial`: 10000 rounds of its sound and the end of it, or 10000 rounds of the sound and
-- its end twice.
pub data Note : Type 0 where
  held : (sound_freq : ℕ) → Note
  staccato : (sound_freq : ℕ) → Note

unfoldable pub beats : (n sound_freq : ℕ) → Speaker → Speaker
unfolding play_sound nosound
beats zero sound_freq s = s
beats (suc n) sound_freq s =
    beats n sound_freq (nosound (play_sound sound_freq (nosound (play_sound sound_freq s))))

unfoldable pub play_note : Note → Speaker → Speaker
unfolding sounds nosound beats
play_note (held sound_freq) s = nosound (sounds 10000 sound_freq s)
play_note (staccato sound_freq) s = beats 10000 sound_freq s

unfoldable pub play_notes : List Note → Speaker → Speaker
unfolding play_note
play_notes [] s = s
play_notes (n ∷ ns) s = play_notes ns (play_note n s)

-- The frequencies of the notes, of which `play_sound` takes the whole Hertz.
abbrev pub f3 : ℕ
f3 = 174

abbrev pub ab3 : ℕ
ab3 = 207

abbrev pub la3 : ℕ
la3 = 220

abbrev pub bb3 : ℕ
bb3 = 233

abbrev pub b3 : ℕ
b3 = 246

abbrev pub c4 : ℕ
c4 = 261

abbrev pub db4 : ℕ
db4 = 277

abbrev pub d4 : ℕ
d4 = 293

abbrev pub eb4 : ℕ
eb4 = 311

abbrev pub e4 : ℕ
e4 = 329

abbrev pub f4 : ℕ
f4 = 349

abbrev pub gb4 : ℕ
gb4 = 369

abbrev pub g4 : ℕ
g4 = 392

abbrev pub ab4 : ℕ
ab4 = 415

abbrev pub la4 : ℕ
la4 = 440

unfoldable pub march_1 : List Note
march_1 =
    held la3
    ∷ held la3
    ∷ held la3
    ∷ held f3
    ∷ held c4
    ∷ held la3
    ∷ held f3
    ∷ held c4
    ∷ held la3
    ∷ held e4
    ∷ held e4
    ∷ held e4
    ∷ held f4
    ∷ held c4
    ∷ held ab3
    ∷ held f3
    ∷ held c4
    ∷ held la3
    ∷ held la4
    ∷ held la3
    ∷ held la3
    ∷ held la4
    ∷ held ab4
    ∷ held g4
    ∷ held gb4
    ∷ held e4
    ∷ staccato f4
    ∷ []

unfoldable pub march_2 : List Note
march_2 =
    held bb3
    ∷ held eb4
    ∷ held d4
    ∷ held db4
    ∷ held c4
    ∷ held b3
    ∷ staccato c4
    ∷ held f3
    ∷ held ab3
    ∷ held f3
    ∷ held la3
    ∷ held c4
    ∷ held la3
    ∷ held c4
    ∷ held e4
    ∷ held la4
    ∷ held la3
    ∷ held la3
    ∷ held la4
    ∷ held ab4
    ∷ held g4
    ∷ held gb4
    ∷ held e4
    ∷ staccato f4
    ∷ []

unfoldable pub march_3 : List Note
march_3 =
    held bb3
    ∷ held eb4
    ∷ held d4
    ∷ held db4
    ∷ held c4
    ∷ held b3
    ∷ staccato c4
    ∷ held f3
    ∷ held ab3
    ∷ held f3
    ∷ held c4
    ∷ held la3
    ∷ held f3
    ∷ held c4
    ∷ held la3
    ∷ []

unfoldable pub imperial : Speaker → Speaker
unfolding march_1 march_2 march_3 play_notes
imperial s = play_notes (march_1 ++ (march_2 ++ march_3)) s
