-- ===== src/Ide/Tests.antt =====
-- A controller whose revision is 5, and a table of interrupts with one entry left.
use korolev.Prelude.{◌+◌, ℕ, [], ◌∷◌, none, replicate}
use korolev.Port.{Device, fresh_io}
use korolev.Timer.Ticks.{at}
use korolev.Pci.{free_entry}
use korolev.Pci.Config.{dword}
use korolev.Ide.{IdeKernel, ide_entry}

abbrev controller : Device
controller t port = dword 5 0 1 1

-- Counts the messages.
abbrev count : ℕ → ℕ
count n = n + 1

abbrev booted : IdeKernel ℕ
booted = record {
  pch_base = 0;
  pch_ctrl = 0;
  pch_bm = 0;
  entries = ide_entry count 0 1 0 ∷ free_entry ∷ [];
  handlers = replicate 256 none;
  timer = at 10;
  io = fresh_io;
}

abbrev each_tick : ℕ → ℕ → ℕ
each_tick channel k = 1
