-- ===== src/Ide.antt =====
-- dev/ide.c: the set-up of the disk's controller; reading and writing sectors are stubs. The messages
-- of the set-up are left out; that of the interrupt handler is a parameter, since it is all that the
-- handler does.
pub mod Native
pub mod Init
mod Tests
use korolev.Prelude.{
  ℕ, ◌+◌, ◌*◌, bit_and, bit_or, List, Option, none, some, ◌==◌, not, if◌then◌else◌,
}
use korolev.Mem.{Mem}
use korolev.Port.{Device, Io}
use korolev.Int.{irq10, irq14, irq15, Handler, Handlers, int_regh}
use korolev.Timer.{Timer, sleep}
use korolev.Pci.{
  pci_cfg_readl, pci_cfg_readb, pci_cfg_writeb, PciHandler, PciIntEntry, pci_int_request,
}

-- PCI_CFG_PIF and PCI_CFG_INT
abbrev pub cfg_pif : ℕ
cfg_pif = 0x09

abbrev pub cfg_int : ℕ
cfg_int = 0x3C

-- The pointer by which the driver knows its interrupts.
abbrev pub dev_id : ℕ
dev_id = 0xf0f0f0f0

-- `ide_pch_base`, `ide_pch_ctrl`, `ide_pch_bm`, and the kernel's state that the set-up changes.
pub record IdeKernel {ℓ} (S : Type ℓ) : Type ℓ where
  pub pch_base : ℕ
  pub pch_ctrl : ℕ
  pub pch_bm : ℕ
  pub entries : List (PciIntEntry S)
  pub handlers : Handlers S
  pub timer : Timer
  pub io : Io

-- `(channel == 2) ? 4 : 1`
abbrev pub channel_mask : ℕ → ℕ
channel_mask channel = if channel == 2 then 4 else 1

-- `arrivals` says for each channel how many interrupts of the timer come between two looks of its
-- sleep, which has the fuel; none when that runs out.
module _ (machine : Device) (arrivals : ℕ → ℕ → ℕ) (fuel : ℕ) where
  pub ide_channel_setnative :
      (bus device function channel : ℕ) → Timer → Io → Option (ℕ × (Timer × Io))
  ide_channel_setnative bus device function channel t io =
      let chmask = channel_mask channel in
      let (pif, io1) = pci_cfg_readb machine bus device function cfg_pif io in
      let io2 = pci_cfg_writeb bus device function cfg_pif (bit_or pif 1) io1 in
      let (pif', io3) = pci_cfg_readb machine bus device function cfg_pif io2 in
      let slept = sleep (arrivals channel) fuel 1 t in
      if not (bit_and pif chmask == 0)
      then some (0, (t, io1))
      else elim slept as (λ _. Option (ℕ × (Timer × Io))) [
        | none ↦ none
        | some t' ↦ some (if bit_and pif' chmask == 0 then 1 else 0, (t', io3))
      ]

-- The function has no effect for any register.
pub ide_reg_write : (reg value : ℕ) → Io → Io
ide_reg_write reg value io = io

module _ {ℓ} {S : Type ℓ} (message : S → S) where
  pub ide_handle_int : PciHandler S
  ide_handle_int regs id s = if not (id == dev_id) then s else message s

  pub ide_handle_irq : Handler S
  ide_handle_irq regs (s, io) = (ide_handle_int regs dev_id s, io)

  -- The entry that ide_enable_int asks for.
  abbrev pub ide_entry : (bus device function : ℕ) → PciIntEntry S
  ide_entry bus device function = record {
    dev = dev_id;
    handler = some ide_handle_int;
    bus = bus;
    device = device;
    function = function;
  }

  module _ (machine : Device) where
    -- The result of pci_int_request only chooses a message.
    pub ide_enable_int : (bus device function : ℕ) → IdeKernel S → IdeKernel S
    ide_enable_int bus device function k =
        let io1 = pci_cfg_writeb bus device function cfg_int 0xFE (k.io) in
        let (intl, io2) = pci_cfg_readb machine bus device function cfg_int io1 in
        let io3 = pci_cfg_writeb bus device function cfg_int irq10 io2 in
        let entries = (pci_int_request (ide_entry bus device function) (k.entries)).1 in
        if bit_and intl 0xff == 0xfe then record k { entries = entries; io = io3 } else record k {
          handlers = int_regh irq15 ide_handle_irq (int_regh irq14 ide_handle_irq (k.handlers));
          io = io2;
        }

    -- The part of ide_init behind the two calls of ide_channel_setnative. `!bar` is 1 or 0.
    pub set_registers : (bus device function : ℕ) → IdeKernel S → IdeKernel S
    set_registers bus device function k =
        let (bar0, io1) = pci_cfg_readl machine bus device function 0x10 (k.io) in
        let (bar1, io2) = pci_cfg_readl machine bus device function 0x14 io1 in
        let (bar4, io3) = pci_cfg_readl machine bus device function 0x20 io2 in
        ide_enable_int bus device function (record k {
          pch_base = bit_and bar0 0xFFFFFFFC + 0x1F0 * (if bar0 == 0 then 1 else 0);
          pch_ctrl = bit_and bar1 0xFFFFFFFC + 0x3F6 * (if bar1 == 0 then 1 else 0);
          pch_bm = bit_and bar4 0xFFFFFFFC;
          io = io3;
        })

    -- What the second channel answers is not used.
    pub ide_init :
        (ℕ → ℕ → ℕ) → ℕ → (bus device function : ℕ) → IdeKernel S → Option (ℕ × IdeKernel S)
    ide_init arrivals fuel bus device function k =
        elim (ide_channel_setnative machine arrivals fuel bus device function 1 (k.timer) (k.io))
          as (λ _. Option (ℕ × IdeKernel S)) [
            | none ↦ none
            | some (failed, (t1, io1)) ↦
                let second =
                  ide_channel_setnative machine arrivals fuel bus device function 2 t1 io1 in
                if not (failed == 0)
                then some (1, record k { timer = t1; io = io1 })
                else elim second as (λ _. Option (ℕ × IdeKernel S)) [
                  | none ↦ none
                  | some (_, (t2, io2)) ↦
                      some
                        (0, set_registers bus device function (record k { timer = t2; io = io2 }))
                ]
          ]

-- The two stubs: both tell success, and the buffer stays as it is.
pub ide_read_sector : (lba ide_buf count slavebit : ℕ) → Mem → ℕ × Mem
ide_read_sector lba ide_buf count slavebit m = (0, m)

pub ide_write_sector : (lba outarray count slavebit : ℕ) → Mem → ℕ × Mem
ide_write_sector lba outarray count slavebit m = (0, m)
