-- ===== src/Pci/Config.antt =====
-- The configuration space: which register the kernel selects, and what it reads of it.
use korolev.Prelude.{
  ℕ, ◌+◌, ◌*◌, ◌/◌, ◌%◌, ◌^◌, ◌<◌, ◌≡◌, refl, ◌∙◌, ap, bit_and, bit_or, ◌∷◌, arith, ◌==◌,
  if◌then◌else◌, Bool, false,
}
use native.Mathlib.Decide.{ℕ_discrete}
use korolev.Prelude.Bits.{bit_and_digit, bit_and_low, bit_or_above, bit_or_comm}
use korolev.Port.{Device, Io, inl, outl, outw, outb}
use korolev.Pci.{
  conf_addr, conf_data, cfg_addr, pci_cfg_readl, pci_cfg_readb, pci_cfg_readw, pci_cfg_writeb,
  pci_cfg_writew, pci_cfg_writel,
}

-- The offset of the double word that holds a register.
abbrev pub aligned : ℕ → ℕ
aligned off = off / 4 % 64 * 4

mask_low : (off : ℕ) → bit_and off 0xFC ≡ aligned off
mask_low off =
    let e : off / 2 / 2 ≡ off / 4 = omega arith in
    omega (
      arith,
      bit_and_digit off 0xFC,
      bit_and_digit (off / 2) 0x7E,
      bit_and_low 6 (off / 2 / 2),
      ap (λ (x : ℕ). x % 64) e,
    )

second_bit : (off : ℕ) → bit_and off 2 ≡ off / 2 % 2 * 2
second_bit off =
    omega (arith, bit_and_digit off 2, bit_and_digit (off / 2) 1, bit_and_low 1 (off / 2))

cfg_addr-sum :
    (bus dev func off : ℕ)
    → bus < 2 ^ 8
    → dev < 2 ^ 5
    → func < 2 ^ 3
    → cfg_addr bus dev func off
      ≡ 2 ^ 31 + ((bus * 2 ^ 5 + dev) * 2 ^ 3 + func) * 2 ^ 8 + aligned off
unfolding cfg_addr
cfg_addr-sum bus dev func off hb hd hf = rw (mask_low off, lo, mid, below, top) (omega arith)
  where
    below :
        bit_or (((bus * 2 ^ 5 + dev) * 2 ^ 3 + func) * 2 ^ 8) (aligned off)
        ≡ ((bus * 2 ^ 5 + dev) * 2 ^ 3 + func) * 2 ^ 8 + aligned off
    below = bit_or_above 8 ((bus * 2 ^ 5 + dev) * 2 ^ 3 + func) (aligned off) (omega arith)

    lo : bit_or (bus * 2 ^ 16) (dev * 2 ^ 11) ≡ (bus * 2 ^ 5 + dev) * 2 ^ 11
    lo = omega (arith, bit_or_above 16 bus (dev * 2 ^ 11))

    mid :
        bit_or ((bus * 2 ^ 5 + dev) * 2 ^ 11) (func * 2 ^ 8)
        ≡ ((bus * 2 ^ 5 + dev) * 2 ^ 3 + func) * 2 ^ 8
    mid = omega (arith, bit_or_above 11 (bus * 2 ^ 5 + dev) (func * 2 ^ 8))

    top :
        bit_or (((bus * 2 ^ 5 + dev) * 2 ^ 3 + func) * 2 ^ 8 + aligned off) 0x80000000
        ≡ 1 * 2 ^ 31 + (((bus * 2 ^ 5 + dev) * 2 ^ 3 + func) * 2 ^ 8 + aligned off)
    top =
        let low = ((bus * 2 ^ 5 + dev) * 2 ^ 3 + func) * 2 ^ 8 + aligned off in
        bit_or_comm low 0x80000000 ∙ bit_or_above 31 1 low (omega arith)

-- The word that selects a register keeps bus, device, function and offset apart: each is found in its
-- own bits, below the bit that enables the access.
pub cfg_addr_lem :
    (bus dev func off : ℕ)
    → bus < 2 ^ 8
    → dev < 2 ^ 5
    → func < 2 ^ 3
    → let a = cfg_addr bus dev func off in
      (a / 2 ^ 31 ≡ 1)
      × (a / 2 ^ 16 % 2 ^ 8 ≡ bus)
      × (a / 2 ^ 11 % 2 ^ 5 ≡ dev)
      × (a / 2 ^ 8 % 2 ^ 3 ≡ func)
      × (a % 2 ^ 8 ≡ aligned off)
cfg_addr_lem bus dev func off hb hd hf =
    let e = cfg_addr-sum bus dev func off hb hd hf in
    (omega (arith, e), omega (arith, e), omega (arith, e), omega (arith, e), omega (arith, e))

-- A double word of the configuration space, its lowest byte first.
abbrev pub dword : ℕ → ℕ → ℕ → ℕ → ℕ
dword b0 b1 b2 b3 = b0 + 2 ^ 8 * b1 + 2 ^ 16 * b2 + 2 ^ 24 * b3

-- Bit 1 of an offset: the upper half of the double word.
abbrev pub upper : ℕ → Bool
upper off = off / 2 % 2 == 1

shift_lem : (off : ℕ) → 2 ^ (bit_and off 2 * 8) ≡ (if upper off then 2 ^ 16 else 1)
shift_lem off = elim (ℕ_discrete (off / 2 % 2) 1) [
  | yes e ↦ let b : bit_and off 2 ≡ 2 = omega (arith, second_bit off) in rw (b, e) refl
  | no ne ↦
      let b : bit_and off 2 ≡ 0 = omega (arith, second_bit off) in
      let z : off / 2 % 2 ≡ 0 = omega arith in rw (b, z) refl
]

-- When the machine answers a read of the data port with the double word of the selected register, a
-- read of the configuration space selects the register and gives, of that double word: a word, the
-- half that holds the offset; a byte, the lower byte of that half, whether the offset is even or odd;
-- a long, the double word from that half on.
pub pci_cfg_read_lem :
    (device : Device) (bus dev func off b0 b1 b2 b3 : ℕ) (io : Io)
    → b0 < 2 ^ 8
    → b1 < 2 ^ 8
    → b2 < 2 ^ 8
    → b3 < 2 ^ 8
    → device (io.clock + 1) conf_data ≡ dword b0 b1 b2 b3
    → let (byte, io') = pci_cfg_readb device bus dev func off io in
      (byte ≡ (if upper off then b2 else b0))
      × ((pci_cfg_readw device bus dev func off io).0
          ≡ (if upper off then b2 + 2 ^ 8 * b3 else b0 + 2 ^ 8 * b1))
      × ((pci_cfg_readl device bus dev func off io).0
          ≡ (if upper off then b2 + 2 ^ 8 * b3 else dword b0 b1 b2 b3))
      × (io'.outs ≡ (conf_addr, cfg_addr bus dev func off % 2 ^ 32) ∷ io.outs)
unfolding pci_cfg_readb pci_cfg_readw pci_cfg_readl inl outl
pci_cfg_read_lem device bus dev func off b0 b1 b2 b3 io h0 h1 h2 h3 e =
    let half = shift_lem off in
    elim (ℕ_discrete (off / 2 % 2) 1) [
      | yes up ↦ rw (e, half, up) (omega arith, omega arith, omega arith, refl)
      | no ne ↦
          let down : upper off ≡ false = ground arith in
          rw (e, half, down) (omega arith, omega arith, omega arith, refl)
    ]

-- A write selects the register, then writes the value to the first byte of its double word: the two
-- low bits of the offset are lost.
pub pci_cfg_write_lem :
    (bus dev func off val : ℕ) (io : Io)
    → bus < 2 ^ 8
    → dev < 2 ^ 5
    → func < 2 ^ 3
    → let outs =
        (conf_addr, 2 ^ 31 + ((bus * 2 ^ 5 + dev) * 2 ^ 3 + func) * 2 ^ 8 + aligned off)
        ∷ io.outs in
      ((pci_cfg_writeb bus dev func off val io).outs ≡ (conf_data, val % 2 ^ 8) ∷ outs)
      × ((pci_cfg_writew bus dev func off val io).outs ≡ (conf_data, val % 2 ^ 16) ∷ outs)
      × ((pci_cfg_writel bus dev func off val io).outs ≡ (conf_data, val % 2 ^ 32) ∷ outs)
unfolding pci_cfg_writeb pci_cfg_writew pci_cfg_writel outb outw outl
pci_cfg_write_lem bus dev func off val io hb hd hf =
    let e = cfg_addr-sum bus dev func off hb hd hf in
    let small : cfg_addr bus dev func off % 2 ^ 32
        ≡ 2 ^ 31 + ((bus * 2 ^ 5 + dev) * 2 ^ 3 + func) * 2 ^ 8 + aligned off =
      omega (arith, e) in
    rw small (refl, refl, refl)
