-- ===== src/Int/Gates.antt =====
-- The entries of the descriptor tables, read back the way the processor reads them.
use korolev.Prelude.{
  ℕ, ◌+◌, ◌*◌, ◌/◌, ◌%◌, ◌^◌, ◌<◌, ◌≡◌, refl, ap, if◌then◌else◌, ◌==◌, bit_and, List, arith, get_or,
  length, length-set, get_or-set_self, get_or-set,
}
use korolev.Prelude.Bits.{bit_and_digit, bit_and_low, bit_or_above}
use korolev.Int.{GdtEntry, IdtEntry, gdt_entry, gdt_set_gate, idt_entry, idt_set_gate}

high_nibble : (a : ℕ) → bit_and a 0xF0 ≡ a / 16 % 16 * 2 ^ 4
high_nibble a =
    let e : a / 2 / 2 / 2 / 2 ≡ a / 16 = omega arith in
    omega (
      arith,
      bit_and_digit a 0xF0,
      bit_and_digit (a / 2) 0x78,
      bit_and_digit (a / 2 / 2) 0x3C,
      bit_and_digit (a / 2 / 2 / 2) 0x1E,
      bit_and_low 4 (a / 2 / 2 / 2 / 2),
      ap (λ x. x % 16) e,
    )

abbrev pub segment_base : GdtEntry → ℕ
segment_base e = e.base_low + 2 ^ 16 * e.base_middle + 2 ^ 24 * e.base_high

-- The limit of 20 bits.
abbrev pub segment_limit : GdtEntry → ℕ
segment_limit e = e.limit + 2 ^ 16 * (e.granularity % 16)

-- The four flags above it.
abbrev pub segment_flags : GdtEntry → ℕ
segment_flags e = e.granularity / 16

record SegmentIs (base lim acc gran : ℕ) (e : GdtEntry) : Type 0 where
  base_is : segment_base e ≡ base
  limit_is : segment_limit e ≡ lim % 2 ^ 20
  access_is : e.access ≡ acc
  flags_are : segment_flags e ≡ gran / 16

gdt_entry_lem :
    (base lim acc gran : ℕ)
    → base < 2 ^ 32
    → lim < 2 ^ 32
    → gran < 2 ^ 8
    → SegmentIs base lim acc gran (gdt_entry base lim acc gran)
unfolding gdt_entry
gdt_entry_lem base lim acc gran b l g =
    let both = bit_or_above 4 (gran / 16 % 16) (lim / 2 ^ 16 % 2 ^ 4) (omega arith) in
    rw (high_nibble gran, both)
      (record {
        base_is = omega arith;
        limit_is = omega arith;
        access_is = refl;
        flags_are = omega arith;
      })

-- What gdt_set_gate writes at an index of the table is read back as the base, the low 20 bits of the
-- limit, the access byte and the high four bits of the flags byte; the other entries stay.
pub gdt_set_gate_lem :
    (gdt : List GdtEntry) (i j base lim acc gran : ℕ) (d : GdtEntry)
    → i < length gdt
    → base < 2 ^ 32
    → lim < 2 ^ 32
    → gran < 2 ^ 8
    → let gdt' = gdt_set_gate i base lim acc gran gdt in
      let e = get_or gdt' i d in
      (segment_base e ≡ base)
      × (segment_limit e ≡ lim % 2 ^ 20)
      × (e.access ≡ acc)
      × (segment_flags e ≡ gran / 16)
      × (length gdt' ≡ length gdt)
      × (get_or gdt' j d ≡ (if j == i then e else get_or gdt j d))
unfolding gdt_set_gate
gdt_set_gate_lem gdt i j base lim acc gran d h b l g =
    let new = gdt_entry base lim acc gran in
    let s = gdt_entry_lem base lim acc gran b l g in
    rw (get_or-set_self gdt i new d h) (
      s.base_is,
      s.limit_is,
      s.access_is,
      s.flags_are,
      length-set gdt i new,
      get_or-set gdt i j new d h,
    )

-- The address that the processor jumps to.
abbrev pub gate_target : IdtEntry → ℕ
gate_target e = e.off1 + 2 ^ 16 * e.off2

-- What idt_set_gate writes at an index of the table is read back as the address, the selector and
-- the attributes; the other entries stay.
pub idt_set_gate_lem :
    (idt : List IdtEntry) (i j base selector flags : ℕ) (d : IdtEntry)
    → i < length idt
    → base < 2 ^ 32
    → let idt' = idt_set_gate i base selector flags idt in
      let e = get_or idt' i d in
      (gate_target e ≡ base)
      × (e.sel ≡ selector)
      × (e.attr ≡ flags)
      × (length idt' ≡ length idt)
      × (get_or idt' j d ≡ (if j == i then e else get_or idt j d))
unfolding idt_set_gate idt_entry
idt_set_gate_lem idt i j base selector flags d h b =
    let new = idt_entry base selector flags in
    rw (get_or-set_self idt i new d h)
      (omega arith, refl, refl, length-set idt i new, get_or-set idt i j new d h)
