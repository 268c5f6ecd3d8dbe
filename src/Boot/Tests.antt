-- ===== src/Boot/Tests.antt =====
-- A boot loader's memory: the command line `serial:true network:false`.
use korolev.Prelude.{
  ℕ, zero, suc, ◌+◌, ◌-◌, ◌<◌, ◌≡◌, refl, false, List, [], ◌∷◌, none, some, ◌==◌, if◌then◌else◌,
  ltb, arith, get_or, replicate,
}
use korolev.Mem.{Mem}
use korolev.Libc.{memcpy, strncmp}
use korolev.Port.{fresh_io}
use korolev.Serial.{serial_setup, serial_setup_port}
use korolev.Boot.{
  Boot, Texts, _cmdline_serial, _cmdline_network, cmdline_cmds, command_loop, colon_loop,
  cmdline_process, run_command, split_loop,
}
use korolev.Boot.Cut.{Outside}
use korolev.Boot.Words.{Ran, last, letter, space, split_loop_lem}
use korolev.Boot.Commands.{HasNames, serial_text, network_text, command_loop_lem}

-- The bytes `cs` from `a` on, zeros elsewhere.
abbrev at : ℕ → List ℕ → Mem
at a cs p = if ltb p a then 0 else get_or cs (p - a) 0

abbrev texts : Texts
texts = record { serial_name = 1000; network_name = 2000; true_text = 3000; false_text = 4000 }

-- `serial:x` and `network:x` behind the cut stand at 5000 and 6000.
abbrev memory : Mem
memory p =
    if ltb p 2000
    then at 1000 serial_text p
    else if ltb p 5000
    then at 2000 network_text p
    else if ltb p 6000
    then (if p == 5007 then b'x' else at 5000 serial_text p)
    else if p == 6008
    then b'x'
    else at 6000 network_text p

abbrev booting : Boot
booting = record {
  mem = memory;
  serial = record { status = replicate 4 0; io = fresh_io };
  network__disable = 0;
}

abbrev AllSmall : List ℕ → Type 0
AllSmall [] = Unit {0}
AllSmall (c ∷ cs) = (c < 256) × AllSmall cs

get_or-small : (cs : List ℕ) (i : ℕ) → AllSmall cs → get_or cs i 0 < 256
get_or-small [] i h = omega arith
get_or-small (c ∷ cs) zero h = h.0
get_or-small (c ∷ cs) (suc i) h = get_or-small cs i (h.1)

at-small : (a : ℕ) (cs : List ℕ) (p : ℕ) → AllSmall cs → at a cs p < 256
at-small a cs p h = ground (arith, get_or-small cs (p - a) h)

at-byte : (a : ℕ) (cs : List ℕ) (i : ℕ) → at a cs (a + i) ≡ get_or cs i 0
at-byte a cs i =
    let e : a + i - a ≡ i = omega arith in
    let behind : ltb (a + i) a ≡ false = ground arith in rw (behind, e) refl

memory-small : (i : ℕ) → memory i < 256
memory-small i = ground (
  arith,
  at-small 1000 serial_text i (omega arith),
  at-small 2000 network_text i (omega arith),
  at-small 5000 serial_text i (omega arith),
  at-small 6000 network_text i (omega arith),
)

names : HasNames texts memory
names = record {
  bytes = memory-small;
  serial = λ i lt. ground (arith, at-byte 1000 serial_text i);
  network = λ i lt. ground (arith, at-byte 2000 network_text i);
  serial_end = refl;
  network_end = refl;
}

command_loop_lem_example :
    (command_loop texts (cmdline_cmds texts) 5000 5007 booting ≡ _cmdline_serial texts 5007 booting)
    × (command_loop texts (cmdline_cmds texts) 6000 5007 booting ≡ booting)
command_loop_lem_example =
    command_loop_lem texts 5000 6000 5007 booting names
      (λ i lt. ground (arith, at-byte 5000 serial_text i)) (λ e. omega (arith, e))
      (λ i lt. ground (arith, at-byte 6000 network_text i)) (λ e. omega (arith, e))

-- The command line, with the texts of the program.
abbrev line : Mem
line p =
    if ltb p 3000
    then memory p
    else if ltb p 4000
    then at 3000 (b't' ∷ b'r' ∷ b'u' ∷ b'e' ∷ 0 ∷ []) p
    else if ltb p 5000
    then at 4000 (b'f' ∷ b'a' ∷ b'l' ∷ b's' ∷ b'e' ∷ 0 ∷ []) p
    else if ltb p 8016
    then 0
    else at 8016
        (b's' ∷ b'e' ∷ b'r' ∷ b'i' ∷ b'a' ∷ b'l' ∷ b':' ∷ b't' ∷ b'r' ∷ b'u' ∷ b'e' ∷ b' ' ∷ b'n'
          ∷ b'e' ∷ b't' ∷ b'w' ∷ b'o' ∷ b'r' ∷ b'k' ∷ b':' ∷ b'f' ∷ b'a' ∷ b'l' ∷ b's' ∷ b'e' ∷ 0
          ∷ [])
        p

-- The serial line is set up; the network stays enabled.
commands_run :
    elim (split_loop texts 100 7000 8016 8016 (record booting { mem = line })) as (λ _. List ℕ) [
      | none ↦ []
      | some b ↦ get_or (b.serial.status) 0 0 ∷ b.network__disable ∷ []
    ]
    ≡ 1 ∷ 0 ∷ []
unfolding split_loop run_command cmdline_process colon_loop command_loop _cmdline_serial
    _cmdline_network strncmp memcpy serial_setup serial_setup_port
commands_run = refl

-- The command line `a b`.
abbrev short_line : Boot
short_line = record booting { mem = at 1016 (b'a' ∷ b' ' ∷ b'b' ∷ 0 ∷ []) }

split_loop_lem_example :
    (b' : Boot) × (split_loop texts 300 500 1016 1016 short_line ≡ some b')
    × Ran texts 500 ((1016, 1017) ∷ (1018, 1019) ∷ []) short_line b'
    × ((p : ℕ) → Outside 500 256 p → b'.mem p ≡ short_line.mem p)
split_loop_lem_example =
    split_loop_lem texts 300 500 1016 3 short_line
      (letter (λ e. omega (arith, e)) (λ e. omega (arith, e))
        (space (omega arith) refl (λ e. omega (arith, e)) (last (λ e. omega (arith, e)) refl)))
      (omega arith) (omega arith) (omega arith)
