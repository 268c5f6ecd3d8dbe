-- ===== src/Int.antt =====
-- kernel/int.c: the descriptor tables, the interrupt controllers and the two dispatchers. The
-- messages of the set-up routines and the loading of the tables (assembly) are left out.
pub mod Gates
pub mod Vectors
pub mod Dispatch
mod Tests
use korolev.Prelude.{
  ℕ, zero, suc, ◌+◌, ◌*◌, ◌-◌, ◌/◌, ◌%◌, ◌^◌, bit_and, bit_or, Bool, true, false, List, [], ◌∷◌,
  ◌++◌, Option, none, some, ltb, leb, ◌==◌, if◌then◌else◌, get_elem?, set, replicate,
}
use korolev.Port.{Io, outb}

-- `struct gdt_entry`
pub record GdtEntry : Type 0 where
  pub limit : ℕ
  pub base_low : ℕ
  pub base_middle : ℕ
  pub access : ℕ
  pub granularity : ℕ
  pub base_high : ℕ

-- `struct idt_entry`
pub record IdtEntry : Type 0 where
  pub off1 : ℕ
  pub sel : ℕ
  pub zero_byte : ℕ
  pub attr : ℕ
  pub off2 : ℕ

-- `struct idtd`: what the processor is told about a table
pub record TableDescriptor : Type 0 where
  pub limit : ℕ
  pub base : ℕ

abbrev pub no_gate : IdtEntry
no_gate = record { off1 = 0; sel = 0; zero_byte = 0; attr = 0; off2 = 0 }

-- The entry that gdt_set_gate writes.
pub gdt_entry : (base lim acc gran : ℕ) → GdtEntry
gdt_entry base lim acc gran = record {
  limit = lim % 2 ^ 16;
  base_low = base % 2 ^ 16;
  base_middle = base / 2 ^ 16 % 2 ^ 8;
  access = acc;
  granularity = bit_or (bit_and gran 0xF0) (lim / 2 ^ 16 % 2 ^ 4);
  base_high = base / 2 ^ 24 % 2 ^ 8;
}

pub gdt_set_gate : (i base lim acc gran : ℕ) → List GdtEntry → List GdtEntry
gdt_set_gate i base lim acc gran gdt = set gdt i (gdt_entry base lim acc gran)

-- `address` is that of the table, which the linker chooses.
pub gdt_setup : ℕ → List GdtEntry → List GdtEntry × TableDescriptor
gdt_setup address gdt = (
  gdt_set_gate 4 0 0xFFFFFFFF 0xF2 0xCF (
      gdt_set_gate 3 0 0xFFFFFFFF 0xFA 0xCF (
        gdt_set_gate 2 0 0xFFFFFFFF 0x92 0xCF
          (gdt_set_gate 1 0 0xFFFFFFFF 0x9A 0xCF (gdt_set_gate 0 0 0 0 0 gdt)))),
  record { limit = 8 * 5 - 1; base = address },
)

-- The entry that idt_set_gate writes.
pub idt_entry : (base selector flags : ℕ) → IdtEntry
idt_entry base selector flags = record {
  off1 = base % 2 ^ 16;
  sel = selector;
  zero_byte = 0;
  attr = flags;
  off2 = base / 2 ^ 16 % 2 ^ 16;
}

pub idt_set_gate : (i base selector flags : ℕ) → List IdtEntry → List IdtEntry
idt_set_gate i base selector flags idt = set idt i (idt_entry base selector flags)

-- The calls of idt_set_gate for the vectors below `n`, in order; `stub` is the address of the
-- assembly routine of a vector.
set_stubs : (ℕ → ℕ) → ℕ → List IdtEntry → List IdtEntry
set_stubs stub zero idt = idt
set_stubs stub (suc n) idt = idt_set_gate n (stub n) 0x08 0x8E (set_stubs stub n idt)

-- The set-up of the two interrupt controllers.
pub pic_setup : Io → Io
pic_setup io = outb 0xA1 0x0 (
    outb 0x21 0x0 (
      outb 0xA1 0x01 (
        outb 0x21 0x01 (
          outb 0xA1 0x02 (
            outb 0x21 0x04
              (outb 0xA1 0x28 (outb 0x21 0x20 (outb 0xA0 0x11 (outb 0x20 0x11 io)))))))))

-- The vectors are those of the exceptions, of the 16 interrupt lines, and 127.
pub idt_setup : (ℕ → ℕ) → ℕ → Io → List IdtEntry × (TableDescriptor × Io)
idt_setup stub address io = (
  idt_set_gate 127 (stub 127) 0x08 0x8E (set_stubs stub 48 (replicate 256 no_gate)),
  (record { limit = 8 * 256 - 1; base = address }, pic_setup io),
)

-- Both tables, one after the other.
pub int_setup :
    (ℕ → ℕ)
    → (gdt_address idt_address : ℕ) → List GdtEntry
    → Io
    → (List GdtEntry × TableDescriptor) × (List IdtEntry × (TableDescriptor × Io))
int_setup stub gdt_address idt_address gdt io =
    (gdt_setup gdt_address gdt, idt_setup stub idt_address io)

-- The two words of `regs_t` that the dispatchers and the handlers see.
pub record Regs : Type 0 where
  pub int_no : ℕ
  pub err_code : ℕ

-- A handler changes the kernel's state, of any type, and uses the ports.
abbrev pub Handler {ℓ} : Type ℓ → Type ℓ
Handler S = Regs → S × Io → S × Io

-- `int_handlers`; `none` stands for NULL.
abbrev pub Handlers {ℓ} : Type ℓ → Type ℓ
Handlers S = List (Option (Handler S))

-- IRQ10, IRQ14 and IRQ15: the vectors of three lines.
abbrev pub irq10 : ℕ
irq10 = 42

abbrev pub irq14 : ℕ
irq14 = 46

abbrev pub irq15 : ℕ
irq15 = 47

-- The end of the interrupt, for the second controller too from line 8 on.
pub send_eoi : ℕ → Io → Io
send_eoi vector io = outb 0x20 0x20 (if leb 40 vector then outb 0xA0 0x20 io else io)

module _ {ℓ} {S : Type ℓ} where
  unfoldable pub int_regh : ℕ → Handler S → Handlers S → Handlers S
  int_regh id handler handlers = set handlers id (some handler)

  -- `none` is a read behind the table.
  pub isr_handler : Handlers S → Regs → S × Io → Option (S × Io)
  isr_handler handlers regs s = elim (get_elem? handlers regs.int_no) [
    | none ↦ none
    | some none ↦ some s
    | some (some handler) ↦ some (if ltb regs.int_no 256 then handler regs s else s)
  ]

  pub irq_handler : Handlers S → Regs → S × Io → Option (S × Io)
  irq_handler handlers regs s = elim (get_elem? handlers regs.int_no) [
    | none ↦ none
    | some none ↦ some (s.0, send_eoi regs.int_no s.1)
    | some (some handler) ↦ let s' = handler regs s in some (s'.0, send_eoi regs.int_no s'.1)
  ]
