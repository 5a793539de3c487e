-- ===== src/Tests/Starting.antt =====
-- A kernel that starts, and its speaker.
use fireball_os.Base.{◌+◌, ◌*◌, ◌<◌, ◌≤◌, ◌≡◌, refl, arith, ◌==◌, if◌then◌else◌, some, []}
use fireball_os.Music.{Speaker, sounds, play_sound, nosound}
use fireball_os.Music.Tone.{tone, sounds-nosound}
use fireball_os.StartUp.{System, set_up}
use fireball_os.StartUp.Ready.{IsReady, set_up-IsReady}
use fireball_os.Tests.Devices.{clock, all_masked}
use fireball_os.Tests.Entry.{no_gate, no_gates, address}
use fireball_os.Tests.Keys.{machine}
use fireball_os.Tests.Pages.{layout}

-- The port gives zeros at first, and then the bits of the gate.
abbrev speaker : Speaker
speaker = record { inputs = λ i. if i == 0 then 0 else 3; reads = 0; sent = [] }

sounds-nosound_example :
    let s' = sounds 2 440 speaker in
    let t = tone s'.sent in
    (t.gate ≡ 3)
    × (t.divides_by * 440 ≤ 1193180)
    × (1193180 < (t.divides_by + 1) * 440)
    × ((tone (nosound s').sent).gate ≡ 0)
    × ((tone (nosound s').sent).divides_by ≡ t.divides_by)
unfolding tone play_sound sounds
sounds-nosound_example =
    sounds-nosound 1 440 speaker (omega arith) (omega arith)
      ((omega arith, refl), ((omega arith, refl), tt)) (omega arith, refl)

abbrev system : System
system = record {
  machine = machine;
  idt = no_gates;
  pics = all_masked;
  clock = clock;
  mouse = record { x = 0; y = 0; input_packet = 0; read_flag = 0 };
  speaker = speaker;
  ports = [];
}

set_up-IsReady_example :
    (s' : System) × (set_up layout address no_gate no_gate no_gate 700 0 65536 system ≡ some s')
    × IsReady layout 65536 system s'
set_up-IsReady_example =
    set_up-IsReady layout address no_gate no_gate no_gate 700 0 65536 system refl
