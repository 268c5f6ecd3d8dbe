-- ===== src/Int/Tests.antt =====
-- Small descriptor tables and a handler that counts.
use korolev.Prelude.{ℕ, ◌+◌, ◌≡◌, refl, List, [], ◌∷◌, none, some, arith, get_or, replicate}
use korolev.Port.{Io, fresh_io}
use korolev.Int.{
  GdtEntry, gdt_entry, gdt_set_gate, gdt_setup, Regs, Handler, Handlers, int_regh, irq_handler,
}
use korolev.Int.Dispatch.{irq_handler_lem}

abbrev null_segment : GdtEntry
null_segment = record {
  limit = 0;
  base_low = 0;
  base_middle = 0;
  access = 0;
  granularity = 0;
  base_high = 0;
}

abbrev empty_gdt : List GdtEntry
empty_gdt = replicate 5 null_segment

setup_ends_with_user_data : get_or (gdt_setup 0x1000 empty_gdt).0 4 null_segment ≡ record {
  limit = 0xFFFF;
  base_low = 0;
  base_middle = 0;
  access = 0xF2;
  granularity = 0xCF;
  base_high = 0;
}
unfolding gdt_setup gdt_set_gate gdt_entry
setup_ends_with_user_data = refl

-- Counts the calls.
abbrev counter : Handler ℕ
counter regs (s, io) = (s + 1, io)

abbrev no_handlers : Handlers ℕ
no_handlers = replicate 256 none

abbrev mouse : Regs
mouse = record { int_no = 44; err_code = 0 }

irq_handler_lem_example :
    (io' : Io) × (irq_handler (int_regh 44 counter no_handlers) mouse (3, fresh_io) ≡ some (4, io'))
    × (io'.outs ≡ (0x20, 0x20) ∷ (0xA0, 0x20) ∷ [])
irq_handler_lem_example = irq_handler_lem no_handlers mouse 3 fresh_io counter refl (omega arith)
