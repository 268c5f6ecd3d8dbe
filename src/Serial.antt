-- ===== src/Serial.antt =====
-- dev/serial.c: the serial ports.
pub mod Line
mod Tests
use korolev.Prelude.{
  ℕ, zero, suc, ◌+◌, ◌^◌, bit_and, List, [], ◌∷◌, Option, none, some, ◌==◌, if◌then◌else◌, get_or,
  set, replicate,
}
use korolev.Port.{Device, Io, inb, outb}

-- `serial_status`, a byte for each of the four ports, and the ports of the machine.
pub record Serial : Type 0 where
  pub status : List ℕ
  pub io : Io

-- `serial_hwport`, COM1 to COM4
abbrev pub serial_hwport : List ℕ
serial_hwport = 0x3F8 ∷ 0x2F8 ∷ 0x3E8 ∷ 0x2E8 ∷ []

abbrev pub hwport : ℕ → ℕ
hwport port = get_or serial_hwport port 0

unfoldable pub serial_setup : Serial → Serial
serial_setup s = record s { status = replicate 4 0 }

unfoldable pub serial_setup_port : ℕ → Serial → Serial
serial_setup_port port s = record {
  status = set s.status port 1;
  io = outb (hwport port + 4) 0x0B (
      outb (hwport port + 2) 0xC7 (
        outb (hwport port + 3) 0x03 (
          outb (hwport port + 1) 0x00 (
            outb (hwport port + 0) 0x01
              (outb (hwport port + 3) 0x80 (outb (hwport port + 1) 0x00 s.io))))));
}

unfoldable pub serial_enabled : ℕ → Serial → ℕ
serial_enabled port s = get_or s.status port 0

-- What serial_write sends once the line is free.
pub send : ℕ → ℕ → Io → Io
send port byte io =
    if byte == b'\n'
    then outb (hwport port) b'\n' (outb (hwport port) b'\r' io)
    else outb (hwport port) byte io

module _ (dev : Device) where
  pub serial_available : ℕ → Io → ℕ × Io
  serial_available port io = let (line, io') = inb dev (hwport port + 5) io in (bit_and line 1, io')

  pub serial_empty : ℕ → Io → ℕ × Io
  serial_empty port io = let (line, io') = inb dev (hwport port + 5) io in (bit_and line 0x20, io')

  -- `while (!serial_available(port));` on fuel
  await_available : ℕ → ℕ → Io → Option Io
  await_available zero port io = none
  await_available (suc fuel) port io =
      let (ready, io') = serial_available port io in
      let again = await_available fuel port io' in if ready == 0 then again else some io'

  pub serial_read : ℕ → ℕ → Io → Option (ℕ × Io)
  serial_read fuel port io = elim (await_available fuel port io) [
    | none ↦ none
    | some io' ↦ some (inb dev (hwport port) io')
  ]

  -- `while (!serial_empty(port));` on fuel
  await_empty : ℕ → ℕ → Io → Option Io
  await_empty zero port io = none
  await_empty (suc fuel) port io =
      let (ready, io') = serial_empty port io in
      let again = await_empty fuel port io' in if ready == 0 then again else some io'

  pub serial_write : ℕ → ℕ → ℕ → Io → Option Io
  serial_write fuel port byte io = elim (await_empty fuel port io) [
    | none ↦ none
    | some io' ↦ some (send port byte io')
  ]
