-- ===== src/E1000/Registers.antt =====
-- The registers of the card, whichever way they are reached.
use korolev.Prelude.{
  ℕ, ◌+◌, ◌-◌, ◌%◌, ◌^◌, ◌<◌, ◌≡◌, ◌≢◌, refl, ap, ◌∙◌, true, false, bit_or, List, [], ◌∷◌, ◌==◌,
  if◌then◌else◌, arith, Bool-cases, inl, inr,
}
use korolev.Port.{Device, inl as read_long, outl}
use korolev.E1000.{Bus, E1000Priv, e1000_writecmd, e1000_readcmd, e1000_reset}

-- The register that was selected last.
abbrev pub selected : List (ℕ × ℕ) → ℕ
selected [] = 0
selected ((port, v) ∷ rest) = v

-- The writes to registers among the writes to ports: a write to the data port goes to the register
-- selected before it.
abbrev pub port_log : ℕ → List (ℕ × ℕ) → List (ℕ × ℕ)
port_log iobase [] = []
port_log iobase ((port, v) ∷ rest) =
    if port == (iobase + 4) % 2 ^ 16
    then (selected rest, v) ∷ port_log iobase rest
    else port_log iobase rest

-- The writes to registers among the writes to memory.
abbrev pub memory_log : ℕ → List (ℕ × ℕ) → List (ℕ × ℕ)
memory_log memory [] = []
memory_log memory ((addr, v) ∷ rest) =
    ((addr + 2 ^ 32 - memory) % 2 ^ 32, v) ∷ memory_log memory rest

-- The register writes that the card has seen, the newest first.
abbrev pub log : E1000Priv → Bus → List (ℕ × ℕ)
log p b =
    if p.bar_type == 0 then memory_log (p.memory) (b.stores) else port_log (p.iobase) (b.io.outs)

module _ (p : E1000Priv) (inside : p.memory < 2 ^ 32) where
  -- A write reaches its register through the memory and through the ports.
  pub log-writecmd :
      (addr val : ℕ) (b : Bus)
      → addr < 2 ^ 16
      → log p (e1000_writecmd p addr val b) ≡ (addr, val % 2 ^ 32) ∷ log p b
  unfolding e1000_writecmd outl
  log-writecmd addr val b small = elim (Bool-cases (p.bar_type == 0)) [
    | inl memory ↦
        let e : ((p.memory + addr) % 2 ^ 32 + 2 ^ 32 - p.memory) % 2 ^ 32 ≡ addr = omega arith in
        rw (memory, e) refl
    | inr port ↦
        let second : ((p.iobase + 4) % 2 ^ 16 == (p.iobase + 4) % 2 ^ 16) ≡ true = ground arith in
        let ne : p.iobase % 2 ^ 16 ≢ (p.iobase + 4) % 2 ^ 16 = omega arith in
        let select : (p.iobase % 2 ^ 16 == (p.iobase + 4) % 2 ^ 16) ≡ false = ground arith in
        let e : addr % 2 ^ 32 ≡ addr = omega arith in rw (port, second, select, e) refl
  ]

  module _ (machine card : Device) where
    -- A read writes no register.
    pub log-readcmd : (addr : ℕ) (b : Bus) → log p (e1000_readcmd machine card p addr b).1 ≡ log p b
    unfolding e1000_readcmd outl read_long
    log-readcmd addr b = elim (Bool-cases (p.bar_type == 0)) [
      | inl memory ↦ rw memory refl
      | inr port ↦
          let ne : p.iobase % 2 ^ 16 ≢ (p.iobase + 4) % 2 ^ 16 = omega arith in
          let select : (p.iobase % 2 ^ 16 == (p.iobase + 4) % 2 ^ 16) ≡ false = ground arith in
          rw (port, select) refl
    ]

    -- Whether the registers of the card stand in memory or behind two ports, e1000_reset makes the same
    -- writes to them: it masks the interrupts, turns the receiver and the transmitter off, sets the bit
    -- for a reset in a value that it has read, and masks the interrupts again.
    pub e1000_reset_lem :
        (b : Bus)
        → (ctrl : ℕ) × (log p (e1000_reset machine card p b)
            ≡ (0x00D0, 0xffffffff)
              ∷ (0x0000, bit_or ctrl 0x4000000 % 2 ^ 32)
              ∷ (0x0400, 8)
              ∷ (0x0100, 0)
              ∷ (0x00D0, 0xffffffff)
              ∷ log p b)
    unfolding e1000_reset
    e1000_reset_lem b =
        let off =
          e1000_writecmd p 0x0400 8
            (e1000_writecmd p 0x0100 0 (e1000_writecmd p 0x00D0 0xffffffff b)) in
        let flushed = (e1000_readcmd machine card p 0x0008 off).1 in
        let read = e1000_readcmd machine card p 0x0000 flushed in
        let v = bit_or (read.0) 0x4000000 in
        (
          read.0,
          log-readcmd 0xC0 _
              ∙ log-writecmd 0x00D0 0xffffffff _ (omega arith)
              ∙ ap (λ (l : List (ℕ × ℕ)). (0x00D0, 0xffffffff) ∷ l)
                  (log-writecmd 0x0000 v (read.1) (omega arith)
                    ∙ ap (λ (l : List (ℕ × ℕ)). (0x0000, v % 2 ^ 32) ∷ l)
                        (log-readcmd 0x0000 flushed
                          ∙ log-readcmd 0x0008 off
                          ∙ log-writecmd 0x0400 8 _ (omega arith)
                          ∙ ap (λ (l : List (ℕ × ℕ)). (0x0400, 8) ∷ l)
                              (log-writecmd 0x0100 0 _ (omega arith)
                                ∙ ap (λ (l : List (ℕ × ℕ)). (0x0100, 0) ∷ l)
                                    (log-writecmd 0x00D0 0xffffffff b (omega arith))))),
        )
