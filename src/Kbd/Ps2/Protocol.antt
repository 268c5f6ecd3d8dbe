-- ===== src/Kbd/Ps2/Protocol.antt =====
-- kbd_setup against a controller that is ready, and against one that never is.
use korolev.Prelude.{
  ℕ, zero, suc, ◌+◌, ◌%◌, ◌^◌, ◌≡◌, ◌≢◌, refl, bit_and, false, none, List, ◌∷◌, arith, ◌==◌,
}
use korolev.Port.{Device, Io, inb}
use korolev.Kbd.{Keyboard}
use korolev.Kbd.Ps2.{await_input, kbd_ps2_cmd, kbd_setup}

-- `(port, value)` for a command and for data.
abbrev pub command : ℕ → ℕ × ℕ
command c = (0x64, c)

abbrev pub data_byte : ℕ → ℕ × ℕ
data_byte d = (0x60, d)

module _ (dev : Device) where
  -- Whenever the status is read, the controller takes input and has output.
  pub record Ready : Type 0 where
    pub takes : (t : ℕ) → bit_and (dev t 0x64 % 2 ^ 8) 2 ≡ 0
    pub has : (t : ℕ) → bit_and (dev t 0x64 % 2 ^ 8) 1 ≢ 0

  -- What the controller gives at the `t`-th access.
  abbrev pub answer : ℕ → ℕ
  answer t = dev t 0x60 % 2 ^ 8

  module _ (fuel : ℕ) where
    -- After a command, after data, and after an answer.
    abbrev sent : ℕ × ℕ → Io → Io
    sent out io = record { clock = io.clock + 1 + 1; outs = out ∷ io.outs }

    abbrev heard : Io → Io
    heard io = record io { clock = io.clock + 1 + 1 }

    -- What goes out when the first port is enabled.
    abbrev enabling : List (ℕ × ℕ) → List (ℕ × ℕ)
    enabling outs = data_byte 0xFF ∷ data_byte 0x67 ∷ command 0x60 ∷ command 0xAE ∷ outs

  await_input-full :
      (fuel : ℕ) (io : Io)
      → ((t : ℕ) → bit_and (dev t 0x64 % 2 ^ 8) 2 ≢ 0)
      → await_input dev fuel io ≡ none
  unfolding await_input inb
  await_input-full zero io full = refl
  await_input-full (suc f) io full =
      let b : (bit_and (dev (io.clock) 0x64 % 2 ^ 8) 2 == 0) ≡ false =
        ground (arith, full (io.clock)) in
      rw b (await_input-full f (record io { clock = io.clock + 1 }) full)

  -- A controller that never takes input is waited for without end: kbd_setup does not return,
  -- however long it waits.
  pub kbd_setup_hangs :
      (fuel : ℕ) (k : Keyboard) (io : Io)
      → ((t : ℕ) → bit_and (dev t 0x64 % 2 ^ 8) 2 ≢ 0)
      → kbd_setup dev fuel k io ≡ none
  unfolding kbd_setup kbd_ps2_cmd
  kbd_setup_hangs fuel k io full = rw (await_input-full fuel io full, kbd_setup, kbd_ps2_cmd) refl
