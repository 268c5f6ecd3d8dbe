-- ===== src/Port.antt =====
-- include/port.h: port input and output. The devices behind the ports are a parameter: what they
-- answer may depend on the number of accesses made before, so on anything that happened before.
use korolev.Prelude.{ℕ, ◌+◌, ◌%◌, ◌^◌, List, [], ◌∷◌}

-- The answer to a read of a port, at the `t`-th access.
abbrev pub Device : Type 0
Device = (t port : ℕ) → ℕ

-- The accesses made so far, and the port and value of each write, the newest first.
pub record Io : Type 0 where
  pub clock : ℕ
  pub outs : List (ℕ × ℕ)

abbrev pub fresh_io : Io
fresh_io = record { clock = 0; outs = [] }

unfoldable pub inb : Device → ℕ → Io → ℕ × Io
inb dev port io = (dev io.clock port % 2 ^ 8, record io { clock = io.clock + 1 })

unfoldable pub outb : ℕ → ℕ → Io → Io
outb port val io = record io { clock = io.clock + 1; outs = (port, val % 2 ^ 8) ∷ io.outs }

unfoldable pub inl : Device → ℕ → Io → ℕ × Io
inl dev port io = (dev io.clock port % 2 ^ 32, record io { clock = io.clock + 1 })

unfoldable pub outl : ℕ → ℕ → Io → Io
outl port val io = record io { clock = io.clock + 1; outs = (port, val % 2 ^ 32) ∷ io.outs }

unfoldable pub outw : ℕ → ℕ → Io → Io
outw port val io = record io { clock = io.clock + 1; outs = (port, val % 2 ^ 16) ∷ io.outs }
