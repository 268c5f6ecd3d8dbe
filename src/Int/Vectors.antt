-- ===== src/Int/Vectors.antt =====
-- What idt_setup leaves: a gate for each vector that has a stub, and the controllers set up.
use korolev.Prelude.{
  ℕ, zero, suc, ◌-◌, ◌*◌, ◌≤◌, ◌≡◌, refl, ◌∙◌, ◌||◌, if◌then◌else◌, ltb, ◌==◌, List, ◌∷◌, arith,
  get_or, length, length-set, length-replicate, get_or-set, replicate,
}
use native.Mathlib.Decide.{ℕ_discrete}
use korolev.Port.{Io, outb}
use korolev.Int.{IdtEntry, no_gate, idt_entry, idt_set_gate, set_stubs, pic_setup, idt_setup}

length-set_stubs :
    (stub : ℕ → ℕ) (n : ℕ) (idt : List IdtEntry) → length (set_stubs stub n idt) ≡ length idt
unfolding set_stubs idt_set_gate
length-set_stubs stub zero idt = refl
length-set_stubs stub (suc n) idt =
    length-set (set_stubs stub n idt) n (idt_entry (stub n) 0x08 0x8E) ∙ length-set_stubs stub n idt

-- The gate of a vector with a stub: kernel code, present, an interrupt gate of 32 bits.
abbrev pub stub_gate : ℕ → IdtEntry
stub_gate target = idt_entry target 0x08 0x8E

get_or-set_stubs :
    (stub : ℕ → ℕ) (n v : ℕ) (idt : List IdtEntry)
    → n ≤ length idt
    → get_or (set_stubs stub n idt) v no_gate
      ≡ (if ltb v n then stub_gate (stub v) else get_or idt v no_gate)
unfolding set_stubs idt_set_gate
get_or-set_stubs stub zero v idt h = ground arith
get_or-set_stubs stub (suc n) v idt h =
    let rest = get_or-set_stubs stub n v idt (omega arith) in
    get_or-set (set_stubs stub n idt) n v (stub_gate (stub n)) no_gate
      (omega (arith, length-set_stubs stub n idt))
    ∙ elim (ℕ_discrete v n) [ yes e ↦ rw e (ground arith) | no ne ↦ ground (arith, rest) ]

get_or-replicate : (n i : ℕ) → get_or (replicate n no_gate) i no_gate ≡ no_gate
get_or-replicate zero i = refl
get_or-replicate (suc n) zero = refl
get_or-replicate (suc n) (suc i) = get_or-replicate n i

-- idt_setup leaves a table of 256 entries in which exactly the 32 exceptions, the 16 interrupt lines
-- and vector 127 have a gate, each to its own stub; it tells the processor the size and the place of
-- the table; and it moves the interrupt lines to the vectors from 32 on, and masks none.
pub idt_setup_lem :
    (stub : ℕ → ℕ) (address : ℕ) (io : Io) (v : ℕ)
    → let (idt, (table, io')) = idt_setup stub address io in
      (length idt ≡ 256)
      × (get_or idt v no_gate ≡ (if ltb v 48 || v == 127 then stub_gate (stub v) else no_gate))
      × (table.limit ≡ length idt * 8 - 1)
      × (table.base ≡ address)
      × (io'.outs
          ≡ (0xA1, 0)
            ∷ (0x21, 0)
            ∷ (0xA1, 0x01)
            ∷ (0x21, 0x01)
            ∷ (0xA1, 0x02)
            ∷ (0x21, 0x04)
            ∷ (0xA1, 40)
            ∷ (0x21, 32)
            ∷ (0xA0, 0x11)
            ∷ (0x20, 0x11)
            ∷ io.outs)
unfolding idt_setup pic_setup outb idt_set_gate
idt_setup_lem stub address io v =
    let start = replicate 256 no_gate in
    let stubs = set_stubs stub 48 start in
    let long : length stubs ≡ 256 = length-set_stubs stub 48 start in
    let filled = get_or-set_stubs stub 48 v start (omega (arith, length-replicate 256 no_gate)) in
    let table = rw (get_or-replicate 256 v) at filled in
    let size = length-set stubs 127 (stub_gate (stub 127)) ∙ long in
    (
      size,
      get_or-set stubs 127 v (stub_gate (stub 127)) no_gate (omega arith) ∙ vectors stubs table,
      omega (arith, size),
      refl,
      refl,
    )
  where
    vectors :
        (stubs : List IdtEntry)
        → get_or stubs v no_gate ≡ (if ltb v 48 then stub_gate (stub v) else no_gate)
        → (if v == 127 then stub_gate (stub 127) else get_or stubs v no_gate)
          ≡ (if ltb v 48 || v == 127 then stub_gate (stub v) else no_gate)
    vectors stubs h = elim (ℕ_discrete v 127) [
      | yes e ↦ rw e (ground arith)
      | no ne ↦ ground (arith, h)
    ]
