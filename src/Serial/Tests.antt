-- ===== src/Serial/Tests.antt =====
-- The first serial port, behind a line that is busy for two looks.
use korolev.Prelude.{
  ℕ, zero, suc, ◌+◌, ◌≤◌, ◌<◌, ◌≡◌, refl, [], ◌∷◌, some, arith, ltb, ◌==◌, if◌then◌else◌,
}
use korolev.Port.{Device, Io, fresh_io}
use korolev.Serial.{Serial, serial_setup, serial_setup_port, serial_enabled, serial_write}
use korolev.Serial.Line.{free_bit, FreeAfter, serial_write_lem}

abbrev busy_line : Device
busy_line t port = if port == 0x3FD then (if ltb t 2 then 0x40 else 0x60) else 0

abbrev machine : Serial
machine = record { status = []; io = fresh_io }

setup_enables_the_port :
    (serial_enabled 0 (serial_setup_port 0 (serial_setup machine)) ≡ 1)
    × (serial_enabled 1 (serial_setup_port 0 (serial_setup machine)) ≡ 0)
unfolding serial_enabled serial_setup_port serial_setup
setup_enables_the_port = (refl, refl)

busy_for_two : FreeAfter busy_line 0 0 2
busy_for_two = record { busy = λ i h. busy i h; ready = λ e. omega (arith, e) }
  where
    busy : (i : ℕ) → i < 2 → free_bit busy_line 0 (0 + i) ≡ 0
    busy zero h = refl
    busy (suc zero) h = refl
    busy (suc (suc i)) h = absurd (omega arith)

serial_write_lem_example :
    (io' : Io) × (serial_write busy_line 5 0 b'\n' fresh_io ≡ some io')
    × (io'.outs ≡ (0x3F8, b'\n') ∷ (0x3F8, b'\r') ∷ [])
    × (4 ≤ io'.clock)
    × (io'.clock ≤ 5)
serial_write_lem_example =
    serial_write_lem busy_line 0 2 5 b'\n' fresh_io busy_for_two (omega arith) (omega arith)
