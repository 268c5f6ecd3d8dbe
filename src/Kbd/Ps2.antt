-- ===== src/Kbd/Ps2.antt =====
-- The PS/2 part of dev/kbd.c: the waits on the controller, its commands, and kbd_setup. A wait runs
-- on fuel; `none` when it runs out.
pub mod Protocol
use korolev.Prelude.{
  ℕ, zero, suc, ◌+◌, ◌%◌, ◌^◌, bit_and, Bool, true, false, Option, none, some, ◌==◌, if◌then◌else◌,
  replicate,
}
use korolev.Port.{Device, Io, inb, outb}
use korolev.Kbd.{KbdEvent, no_event, Keyboard}

abbrev pub M : Type 0 → Type 0
M A = Io → Option (A × Io)

abbrev pub bind : {A B : Type 0} → Option (A × Io) → (A → M B) → Option (B × Io)
bind none f = none
bind (some (a, io)) f = f a io

infixl 5 ◌>>=◌ ◌>>◌
abbrev pub ◌>>=◌ : {A B : Type 0} → M A → (A → M B) → M B
◌>>=◌ m f io = bind (m io) f

abbrev pub ◌>>◌ : {B : Type 0} → M (Unit {0}) → M B → M B
m >> k = m >>= λ _. k

abbrev pub pure : {A : Type 0} → A → M A
pure a io = some (a, io)

abbrev pub write_port : ℕ → ℕ → M (Unit {0})
write_port port val io = some (tt, outb port val io)

module _ (dev : Device) where
  -- `while (inb(0x64) & 2);`
  await_input : ℕ → M (Unit {0})
  await_input zero io = none
  await_input (suc f) io =
      let (status, io') = inb dev 0x64 io in
      let again = await_input f io' in if bit_and status 2 == 0 then some (tt, io') else again

  -- `while (~inb(0x64) & 1);`
  await_output : ℕ → M (Unit {0})
  await_output zero io = none
  await_output (suc f) io =
      let (status, io') = inb dev 0x64 io in
      let again = await_output f io' in if bit_and status 1 == 0 then again else some (tt, io')

  abbrev pub read_port : ℕ → M ℕ
  read_port port io = some (inb dev port io)

  module _ (fuel : ℕ) where
    kbd_ps2_cmd : ℕ → M (Unit {0})
    kbd_ps2_cmd cmd = await_input fuel >> write_port 0x64 cmd

    kbd_ps2_write_data : ℕ → M (Unit {0})
    kbd_ps2_write_data val = await_input fuel >> write_port 0x60 val

    kbd_ps2_flush_buf : M (Unit {0})
    kbd_ps2_flush_buf = do _ ← read_port 0x60; pure tt

    kbd_ps2_read_data : M ℕ
    kbd_ps2_read_data = await_output fuel >> read_port 0x60

    kbd_ps2_selftest : M Bool
    kbd_ps2_selftest = do kbd_ps2_cmd 0xAA; answer ← kbd_ps2_read_data; pure (answer == 0x55)

    kbd_ps2_testch : ℕ → M Bool
    kbd_ps2_testch ch =
        if ch == 1
        then (do kbd_ps2_cmd 0xAB; answer ← kbd_ps2_read_data; pure (answer == 0))
        else if ch == 2
        then (do kbd_ps2_cmd 0xA9; answer ← kbd_ps2_read_data; pure (answer == 0))
        else pure false

    kbd_ps2_enable_irq : M (Unit {0})
    kbd_ps2_enable_irq = kbd_ps2_cmd 0x60 >> kbd_ps2_write_data 0x67

    -- From the enabling of the first port on.
    kbd_setup_enable : Keyboard → M (Keyboard × Bool)
    kbd_setup_enable k = do
      kbd_ps2_cmd 0xAE
      kbd_ps2_enable_irq
      kbd_ps2_write_data 0xFF
      pure (record k { ctrl = 0; alt = 0; shift = 0 }, true)

    -- From the test of the first port on.
    kbd_setup_channel : Keyboard → M (Keyboard × Bool)
    kbd_setup_channel k = do
      fit ← kbd_ps2_testch 1
      if fit then kbd_setup_enable k else pure (k, false)

    -- The keyboard afterwards, and whether the handler of IRQ1 was registered.
    pub kbd_setup : Keyboard → M (Keyboard × Bool)
    kbd_setup k = do
      kbd_ps2_cmd 0xAD
      kbd_ps2_cmd 0xA7
      kbd_ps2_flush_buf
      sound ← kbd_ps2_selftest
      let cleared = record k { stack = replicate 512 no_event }
      if sound then kbd_setup_channel cleared else pure (cleared, false)
