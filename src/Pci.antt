-- ===== src/Pci.antt =====
-- dev/pci.c: the configuration space, the drivers' interrupt table and the enumeration of the bus.
-- io_wait only jumps. The messages are left out.
pub mod Config
pub mod Irq
pub mod Scan
mod Tests
use korolev.Prelude.{
  ℕ, zero, suc, ◌+◌, ◌*◌, ◌-◌, ◌/◌, ◌%◌, ◌^◌, bit_and, bit_or, Bool, true, false, ◌&&◌, ◌||◌, List,
  [], ◌∷◌, ◌++◌, Option, none, some, ltb, leb, ◌==◌, if◌then◌else◌,
}
use korolev.Port.{Device, Io, inl, outl, outw, outb}
use korolev.Int.{Regs}

abbrev pub conf_addr : ℕ
conf_addr = 0xCF8

abbrev pub conf_data : ℕ
conf_data = 0xCFC

-- The word that selects a register; `off & 0xFC` of a byte.
pub cfg_addr : (bus dev func off : ℕ) → ℕ
cfg_addr bus dev func off =
    bit_or
      (bit_or (bit_or (bit_or (bus * 2 ^ 16) (dev * 2 ^ 11)) (func * 2 ^ 8)) (bit_and off 0xFC))
      0x80000000

module _ (device : Device) where
  -- `inl(0xCFC) >> ((off & 2) * 8)` behind the selection of a register.
  unfoldable pub pci_cfg_readl : (bus dev func off : ℕ) → Io → ℕ × Io
  pci_cfg_readl bus dev func off io =
      let (res, io') = inl device 0xCFC (outl conf_addr (cfg_addr bus dev func off) io) in
      (res / 2 ^ (bit_and off 2 * 8), io')

  pub pci_cfg_readb : (bus dev func off : ℕ) → Io → ℕ × Io
  pci_cfg_readb bus dev func off io =
      let (res, io') = pci_cfg_readl bus dev func off io in (res % 2 ^ 8, io')

  pub pci_cfg_readw : (bus dev func off : ℕ) → Io → ℕ × Io
  pci_cfg_readw bus dev func off io =
      let (res, io') = pci_cfg_readl bus dev func off io in (res % 2 ^ 16, io')

unfoldable pub pci_cfg_writeb : (bus dev func off val : ℕ) → Io → Io
pci_cfg_writeb bus dev func off val io =
    outb conf_data val (outl conf_addr (cfg_addr bus dev func off) io)

pub pci_cfg_writew : (bus dev func off val : ℕ) → Io → Io
pci_cfg_writew bus dev func off val io =
    outw conf_data val (outl conf_addr (cfg_addr bus dev func off) io)

pub pci_cfg_writel : (bus dev func off val : ℕ) → Io → Io
pci_cfg_writel bus dev func off val io =
    outl conf_data val (outl conf_addr (cfg_addr bus dev func off) io)

-- A handler of a driver: it gets the driver's pointer, and changes the kernel's state, of any type.
abbrev pub PciHandler {ℓ} : Type ℓ → Type ℓ
PciHandler S = Regs → ℕ → S → S

-- `pci_int_entry`; a `dev` of 0 is NULL. A free entry may hold a NULL handler.
pub record PciIntEntry {ℓ} (S : Type ℓ) : Type ℓ where
  pub dev : ℕ
  pub handler : Option (PciHandler S)
  pub bus : ℕ
  pub device : ℕ
  pub function : ℕ

module _ {ℓ} {S : Type ℓ} where
  abbrev pub free_entry : PciIntEntry S
  free_entry = record { dev = 0; handler = none; bus = 0; device = 0; function = 0 }

  -- The table from an entry on; 0 when an entry was free, 1 otherwise.
  pub pci_int_request : PciIntEntry S → List (PciIntEntry S) → ℕ × List (PciIntEntry S)
  pci_int_request new [] = (1, [])
  pci_int_request new (e ∷ es) =
      let (result, es') = pci_int_request new es in
      if e.dev == 0 then (0, new ∷ es) else (result, e ∷ es')

  pub pci_int_release : ℕ → List (PciIntEntry S) → List (PciIntEntry S)
  pci_int_release dev_id [] = []
  pci_int_release dev_id (e ∷ es) =
      (if e.dev == dev_id then free_entry else e) ∷ pci_int_release dev_id es

  -- `none` is a call of NULL.
  abbrev pub call : PciIntEntry S → Regs → S → Option S
  call e regs s = elim (e.handler) [ none ↦ none | some h ↦ some (h regs (e.dev) s) ]

  pub pci_irq_handler : List (PciIntEntry S) → Regs → S → Option S
  pci_irq_handler [] regs s = some s
  pci_irq_handler (e ∷ es) regs s = elim (if e.dev == 0 then some s else call e regs s) [
    | none ↦ none
    | some s' ↦ pci_irq_handler es regs s'
  ]

-- The function that sets a device up: bus, device, function, and the kernel's state; its result only
-- chooses a message.
abbrev pub InitF {ℓ} : Type ℓ → Type ℓ
InitF S = (bus device function : ℕ) → S × Io → ℕ × (S × Io)

-- `pci_dev_t`, less its name; `none` is a driver without `initf`.
pub record PciDev {ℓ} (S : Type ℓ) : Type ℓ where
  pub initf : Option (InitF S)
  pub ids_len : ℕ
  pub ids : List (ℕ × ℕ)
  pub class_code : ℕ
  pub subclass : ℕ

-- `for (i = 0; i < n; i++)`, over the rounds left.
pub loop {ℓ} : {A : Type ℓ} → ℕ → ℕ → (ℕ → A → A) → A → A
loop zero i body s = s
loop (suc n) i body s = loop n (i + 1) body (body i s)

module _ {ℓ} {S : Type ℓ} (bus device function : ℕ) where
  pub init_device : PciDev S → S × Io → S × Io
  init_device dev s = elim (dev.initf) [ none ↦ s | some f ↦ (f bus device function s).1 ]

  -- `for (i = 0; i < dev->ids_len; i++)`, over the rounds left, with its `break`.
  pub probe_ids : PciDev S → (vendor devid : ℕ) → ℕ → List (ℕ × ℕ) → S × Io → S × Io
  probe_ids dev vendor devid zero ids s = s
  probe_ids dev vendor devid (suc n) [] s = s
  probe_ids dev vendor devid (suc n) ((v, d) ∷ ids) s =
      let next = probe_ids dev vendor devid n ids s in
      if v == vendor && d == devid then init_device dev s else next

  -- `for (j = 0; ...)`, over the drivers of `pci_devices` before its NULL. A driver whose class fits
  -- ends the loop, a driver one of whose ids fits does not.
  pub probe_drivers : (vendor devid class sclass : ℕ) → List (PciDev S) → S × Io → S × Io
  probe_drivers vendor devid class sclass [] s = s
  probe_drivers vendor devid class sclass (dev ∷ devs) s =
      let by_id = probe_ids dev vendor devid (dev.ids_len) (dev.ids) s in
      let next =
        probe_drivers vendor devid class sclass devs (if dev.ids_len == 33 then s else by_id) in
      if dev.ids_len == 33 && dev.class_code == class && dev.subclass == sclass
      then init_device dev s
      else next

module _ {ℓ} {S : Type ℓ} (machine : Device) (drivers : List (PciDev S)) where
  -- The body of the loops of pci_setup.
  pub probe : (bus device function : ℕ) → S × Io → S × Io
  probe bus device function (s, io) =
      let (vendor, io1) = pci_cfg_readw machine bus device function 0x00 io in
      let (devid, io2) = pci_cfg_readw machine bus device function 0x02 io1 in
      let (class, io3) = pci_cfg_readb machine bus device function 0x0B io2 in
      let (sclass, io4) = pci_cfg_readb machine bus device function 0x0A io3 in
      if vendor == 0xffff
      then (s, io1)
      else if devid == 0x0000 || devid == 0xffff
      then (s, io4)
      else probe_drivers bus device function vendor devid class sclass drivers (s, io4)

  -- The loops of pci_setup over buses, devices and functions.
  pub pci_enumerate : S × Io → S × Io
  pci_enumerate =
      loop 255 0 λ bus. loop 32 0 λ device. loop 8 0 λ function. probe bus device function
