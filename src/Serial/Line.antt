-- ===== src/Serial/Line.antt =====
-- Sending on a line.
use korolev.Prelude.{
  ℕ, zero, suc, ◌+◌, ◌%◌, ◌^◌, ◌≤◌, ◌<◌, ◌≡◌, ◌≢◌, sym, ap, ◌∙◌, bit_and, List, [], ◌∷◌, some,
  arith, ◌==◌, if◌then◌else◌,
}
use korolev.Port.{Device, Io, inb, outb}
use korolev.Serial.{hwport, serial_empty, await_empty, send, serial_write}

-- The bytes that go out for a character.
abbrev pub line_bytes : ℕ → List ℕ
line_bytes byte = if byte == b'\n' then b'\r' ∷ b'\n' ∷ [] else byte ∷ []

-- Writes of bytes to one port, in order, before those in `outs`.
abbrev pub written : ℕ → List ℕ → List (ℕ × ℕ) → List (ℕ × ℕ)
written port [] outs = outs
written port (b ∷ bs) outs = written port bs ((port, b) ∷ outs)

module _ (dev : Device) (port : ℕ) where
  -- The transmitter bit of the line status that the `t`-th access sees.
  abbrev pub free_bit : ℕ → ℕ
  free_bit t = bit_and (dev t (hwport port + 5) % 2 ^ 8) 0x20

  -- The transmitter is free at access `t + k`, and at none of the `k` accesses before.
  pub record FreeAfter (t k : ℕ) : Type 0 where
    pub busy : (i : ℕ) → i < k → free_bit (t + i) ≡ 0
    pub ready : free_bit (t + k) ≢ 0

  FreeAfter-next : (t k : ℕ) → FreeAfter t (suc k) → FreeAfter (t + 1) k
  FreeAfter-next t k h = record {
    busy = λ i lt. ap free_bit (shift t i) ∙ h.busy (suc i) (omega arith);
    ready = λ z. h.ready (ap free_bit (sym (shift t k)) ∙ z);
  }
    where
      shift : (t i : ℕ) → t + 1 + i ≡ t + suc i
      shift t i = omega arith

  await_empty-FreeAfter :
      (k fuel : ℕ) (io : Io)
      → FreeAfter io.clock k
      → k < fuel
      → await_empty dev fuel port io ≡ some (record io { clock = io.clock + k + 1 })
  unfolding await_empty serial_empty inb
  await_empty-FreeAfter k zero io h lt = absurd (omega arith)
  await_empty-FreeAfter zero (suc fuel) io h lt =
      let e : io.clock + 0 ≡ io.clock = omega arith in ground (arith, h.ready, ap free_bit e)
  await_empty-FreeAfter (suc k) (suc fuel) io h lt =
      let e : io.clock + 0 ≡ io.clock = omega arith in
      let later : FreeAfter (io.clock + 1) k = FreeAfter-next io.clock k h in
      ground (
        arith,
        h.busy 0,
        ap free_bit e,
        await_empty-FreeAfter k fuel (record io { clock = io.clock + 1 }) later,
      )

  -- If the transmitter is free after `k` looks at the line status, and the fuel allows for more than
  -- `k` looks, serial_write looks just that often, and then sends the low byte of the character, a
  -- carriage return and a line feed for a line feed, and nothing else.
  pub serial_write_lem :
      (k fuel byte : ℕ) (io : Io)
      → FreeAfter io.clock k
      → k < fuel
      → byte < 2 ^ 8
      → (io' : Io) × (serial_write dev fuel port byte io ≡ some io')
        × (io'.outs ≡ written (hwport port) (line_bytes byte) io.outs)
        × (io.clock + k + 2 ≤ io'.clock)
        × (io'.clock ≤ io.clock + k + 3)
  unfolding serial_write send outb
  serial_write_lem k fuel byte io h lt small =
      let line = record io { clock = io.clock + k + 1 } in
      (
        send port byte line,
        rw (await_empty-FreeAfter k fuel io h lt, serial_write),
        ground arith,
        ground arith,
        ground arith,
      )
