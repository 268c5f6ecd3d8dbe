-- ===== src/E1000.antt =====
-- dev/e1000.c: the driver of an Intel network card. Its registers stand in memory or behind two ports.
-- What the card answers at an address is a parameter, like what the devices answer at the ports; sleep
-- only lets time pass, and is left out like the messages.
pub mod Registers
pub mod Eeprom
pub mod Detect
pub mod Rings
pub mod Transmit
pub mod Receive
pub mod Setup
pub mod Init
mod Tests
use korolev.Prelude.{
  ℕ, zero, suc, ◌+◌, ◌-◌, ◌*◌, ◌/◌, ◌%◌, ◌^◌, Bool, true, false, not, bit_and, bit_or, List, [],
  ◌∷◌, Option, none, some, ltb, ◌==◌, if◌then◌else◌, get_or, set, replicate,
}
use korolev.Port.{Device, Io, inl as read_long, outl}
use korolev.Ethernet.{EthDev}

-- The accesses to the ports, and the writes to the card's memory, the newest first, as an address and
-- a value. Reads and writes of both kinds share the clock of `io`.
pub record Bus : Type 0 where
  pub io : Io
  pub stores : List (ℕ × ℕ)

-- A volatile read of `w` bits, and a volatile write.
pub mmio_read : Device → (w addr : ℕ) → Bus → ℕ × Bus
mmio_read card w addr b =
    let io = b.io in
    (card (io.clock) addr % 2 ^ w, record b { io = record io { clock = io.clock + 1 } })

pub mmio_write : (w addr val : ℕ) → Bus → Bus
mmio_write w addr val b =
    let io = b.io in
    record { io = record io { clock = io.clock + 1 }; stores = (addr, val % 2 ^ w) ∷ b.stores }

module _ (card : Device) where
  pub e1000_mmio_read8 : ℕ → Bus → ℕ × Bus
  e1000_mmio_read8 addr b = mmio_read card 8 addr b

  pub e1000_mmio_read16 : ℕ → Bus → ℕ × Bus
  e1000_mmio_read16 addr b = mmio_read card 16 addr b

  pub e1000_mmio_read32 : ℕ → Bus → ℕ × Bus
  unfolding mmio_read
  e1000_mmio_read32 addr b = mmio_read card 32 addr b

  pub e1000_mmio_read64 : ℕ → Bus → ℕ × Bus
  e1000_mmio_read64 addr b = mmio_read card 64 addr b

pub e1000_mmio_write8 : (addr val : ℕ) → Bus → Bus
e1000_mmio_write8 addr val b = mmio_write 8 addr val b

pub e1000_mmio_write16 : (addr val : ℕ) → Bus → Bus
e1000_mmio_write16 addr val b = mmio_write 16 addr val b

pub e1000_mmio_write32 : (addr val : ℕ) → Bus → Bus
unfolding mmio_write
e1000_mmio_write32 addr val b = mmio_write 32 addr val b

pub e1000_mmio_write64 : (addr val : ℕ) → Bus → Bus
e1000_mmio_write64 addr val b = mmio_write 64 addr val b

-- `struct e1000_rx_desc`, the fields that the driver uses.
pub record RxDesc : Type 0 where
  pub addr : ℕ
  pub status : ℕ

-- `struct e1000_tx_desc`, the fields that the driver uses.
pub record TxDesc : Type 0 where
  pub addr : ℕ
  pub length : ℕ
  pub cmd : ℕ
  pub status : ℕ

-- `struct e1000_priv`; the rings hold the descriptors that the pointers lead to.
pub record E1000Priv : Type 0 where
  pub bus : ℕ
  pub device : ℕ
  pub function : ℕ
  pub bar_type : ℕ
  pub eeprom_exists : ℕ
  pub rx_descs : List RxDesc
  pub tx_descs : List TxDesc
  pub rx_cur : ℕ
  pub tx_cur : ℕ
  pub memory : ℕ
  pub iobase : ℕ

abbrev pub reg_ctrl : ℕ
reg_ctrl = 0x0000

abbrev pub reg_status : ℕ
reg_status = 0x0008

abbrev pub reg_eeprom : ℕ
reg_eeprom = 0x0014

abbrev pub reg_imask : ℕ
reg_imask = 0x00D0

abbrev pub reg_rctrl : ℕ
reg_rctrl = 0x0100

abbrev pub reg_tctrl : ℕ
reg_tctrl = 0x0400

abbrev pub cmd_icr : ℕ
cmd_icr = 0x000C0

pub e1000_writecmd : E1000Priv → (addr val : ℕ) → Bus → Bus
unfolding e1000_mmio_write32
e1000_writecmd p addr val b =
    if p.bar_type == 0
    then e1000_mmio_write32 ((p.memory + addr) % 2 ^ 32) val b
    else record b { io = outl ((p.iobase + 4) % 2 ^ 16) val (outl (p.iobase % 2 ^ 16) addr (b.io)) }

module _ (machine card : Device) where
  pub e1000_readcmd : E1000Priv → ℕ → Bus → ℕ × Bus
  unfolding e1000_mmio_read32
  e1000_readcmd p addr b =
      let (v, io') =
        read_long machine ((p.iobase + 4) % 2 ^ 16) (outl (p.iobase % 2 ^ 16) addr (b.io)) in
      if p.bar_type == 0
      then e1000_mmio_read32 card ((p.memory + addr) % 2 ^ 32) b
      else (v, record b { io = io' })

  pub e1000_enable_int_old : E1000Priv → Bus → Bus
  e1000_enable_int_old p b =
      (e1000_readcmd p 0xc0
        (e1000_writecmd p reg_imask 0xfb (e1000_writecmd p reg_imask 0x1f6dc b))).1

  pub e1000_enable_int : E1000Priv → Bus → Bus
  e1000_enable_int p b = (e1000_readcmd p 0xc0 (e1000_writecmd p reg_imask 0x1f6dc b)).1

  -- The answer, and the device with its link status.
  pub e1000_check_link : E1000Priv → EthDev → Bus → ℕ × EthDev × Bus
  e1000_check_link p dev b =
      let (v, b') = e1000_readcmd p reg_status b in
      (bit_and v 2, record dev { link_status = bit_and v 2 }, b')

  -- RCTL_BAM, RCTL_MPE and RCTL_UPE
  pub e1000_is_broadcast : E1000Priv → Bus → ℕ × Bus
  e1000_is_broadcast p b = let (v, b') = e1000_readcmd p reg_rctrl b in (bit_and v (2 ^ 15), b')

  pub e1000_is_multicast : E1000Priv → Bus → ℕ × Bus
  e1000_is_multicast p b = let (v, b') = e1000_readcmd p reg_rctrl b in (bit_and v (2 ^ 4), b')

  pub e1000_is_promisc : E1000Priv → Bus → ℕ × Bus
  e1000_is_promisc p b = let (v, b') = e1000_readcmd p reg_rctrl b in (bit_and v (2 ^ 3), b')

  -- TCTL_PSP and ECTRL_RST; FLUSH_WRITE() reads the status.
  pub e1000_reset : E1000Priv → Bus → Bus
  e1000_reset p b =
      let off =
        e1000_writecmd p reg_tctrl (2 ^ 3)
          (e1000_writecmd p reg_rctrl 0 (e1000_writecmd p reg_imask 0xffffffff b)) in
      let (ctrl, b') = e1000_readcmd p reg_ctrl (e1000_readcmd p reg_status off).1 in
      let restarted = e1000_writecmd p reg_ctrl (bit_or ctrl 0x4000000) b' in
      (e1000_readcmd p cmd_icr (e1000_writecmd p reg_imask 0xffffffff restarted)).1
