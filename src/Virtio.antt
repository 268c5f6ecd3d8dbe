-- ===== src/Virtio.antt =====
-- dev/virtio-net.c: the driver of a virtual network card. Its registers stand behind ports. The
-- messages are left out, and malloc is taken not to fail.
pub mod Queue
pub mod Init
mod Tests
use korolev.Prelude.{
  ℕ, zero, suc, ◌+◌, ◌-◌, ◌*◌, ◌/◌, ◌%◌, ◌^◌, not, bit_and, bit_or, List, [], ◌∷◌, Option, none,
  some, ◌==◌, if◌then◌else◌, get_or, set,
}
use korolev.Port.{Device, Io, inb, outb, inl as read_long, outl}
use korolev.Alloc.{Pages, malloc}
use korolev.Ethernet.{EthDev, no_ethdev, ethernet_allocate}
use korolev.Pci.{pci_cfg_readl, pci_cfg_readw}

abbrev pub vnet_qsize : ℕ
vnet_qsize = 2

abbrev pub vnet_align : ℕ
vnet_align = 4096

abbrev pub vnet_dtable_size : ℕ → ℕ
vnet_dtable_size n = 16 * n

abbrev pub vnet_aring_size : ℕ → ℕ
vnet_aring_size n = 6 * 2 * n

abbrev pub vnet_uring_size : ℕ → ℕ
vnet_uring_size n = 6 * 4 * n

-- VNET_R_GFEAT, VNET_R_DSTAT and VNET_R_MACAD
abbrev pub r_gfeat : ℕ
r_gfeat = 0x04

abbrev pub r_dstat : ℕ
r_dstat = 0x12

abbrev pub r_macad : ℕ
r_macad = 0x14

-- VNET_S_DEVACK, VNET_S_DRVLOAD, VNET_S_FEATOK and VNET_S_DRVFAIL
abbrev pub s_devack : ℕ
s_devack = 0x01

abbrev pub s_drvload : ℕ
s_drvload = 0x02

abbrev pub s_featok : ℕ
s_featok = 0x08

abbrev pub s_drvfail : ℕ
s_drvfail = 0x80

-- `struct virtionet_desc`, less its link.
pub record VnetDesc : Type 0 where
  pub addr : ℕ
  pub len : ℕ
  pub flags : ℕ

-- `struct virtionet_priv`, the fields that the driver uses; `desc` is the descriptor that rx_desc leads
-- to.
pub record VnetPriv : Type 0 where
  pub qsize : ℕ
  pub rx_desc : ℕ
  pub rx_avail : ℕ
  pub rx_used : ℕ
  pub desc : VnetDesc
  pub iobase : ℕ

-- `for (i = 0; i < VNET_QSIZE / 2; i++)`, over the rounds left. `desc` never moves; ~VNET_DESC_WRITE is
-- cut to a WORD.
desc_loop : ℕ → VnetDesc → Pages → VnetDesc × Pages
desc_loop zero desc h = (desc, h)
desc_loop (suc n) desc h =
    let (addr, h') = malloc h 4096 in
    desc_loop n (record { addr = addr; len = 4096; flags = 2 ^ 16 - 1 - 2 }) h'

-- The rounding of `& ~(VNET_ALIGN - 1)` is written with the remainder; an entry of the ring has 2
-- bytes, and the ring stands 4 bytes into rx_avail.
pub virtionet_initialize_queue : VnetPriv → Pages → VnetPriv × Pages
virtionet_initialize_queue p h =
    let (block, h') = malloc h (
      vnet_dtable_size vnet_qsize
      + vnet_align
      + vnet_aring_size vnet_qsize
      + vnet_align
      + vnet_uring_size vnet_qsize
      + vnet_align) in
    let pmod = block % 4096 in
    let ptr = if not (pmod == 0) then block + (4096 - pmod) else block in
    let avail = ptr + vnet_dtable_size vnet_qsize in
    let end = avail + 4 + 2 * 32 + 2 + vnet_align - 1 in
    let (desc, h'') = desc_loop (vnet_qsize / 2) (p.desc) h' in
    (
      record p {
        qsize = vnet_qsize;
        rx_desc = ptr;
        rx_avail = avail;
        rx_used = end - end % vnet_align;
        desc = desc;
      },
      h'',
    )

pub virtionet_write_dstatus : VnetPriv → ℕ → Io → Io
virtionet_write_dstatus p val io = outb (p.iobase + r_dstat) val io

pub virtionet_write_features : VnetPriv → ℕ → Io → Io
virtionet_write_features p val io = outl ((p.iobase + r_gfeat) % 2 ^ 16) val io

pub virtionet_drvfail : ℕ → Io → Io
virtionet_drvfail iobase io = outb (iobase + r_dstat) s_drvfail io

-- The functions that the driver gives the device.
abbrev pub virtionet_check_link : ℕ
virtionet_check_link = 0

abbrev pub virtionet_is_broadcast : ℕ
virtionet_is_broadcast = 0

abbrev pub virtionet_is_multicast : ℕ
virtionet_is_multicast = 0

abbrev pub virtionet_is_promisc : ℕ
virtionet_is_promisc = 0

-- The features that are kept: all but VNET_F_CTRL_VQ, VNET_F_EVENT_IDX, VNET_F_GUEST_TSO4,
-- VNET_F_GUEST_TSO6, VNET_F_GUEST_UFO and VNET_F_MRG_RXBUF.
abbrev pub kept_features : ℕ
kept_features = 2 ^ 32 - 1 - (2 ^ 17 + 2 ^ 29 + 2 ^ 7 + 2 ^ 8 + 2 ^ 10 + 2 ^ 15)

-- The kernel's state that the set-up changes; `priv` is that of the device.
pub record VnetKernel : Type 0 where
  pub eth_ifs : List EthDev
  pub pages : Pages
  pub priv : VnetPriv
  pub io : Io

abbrev pub vnet_fresh_priv : ℕ → VnetPriv
vnet_fresh_priv iobase = record {
  qsize = 0;
  rx_desc = 0;
  rx_avail = 0;
  rx_used = 0;
  desc = record { addr = 0; len = 0; flags = 0 };
  iobase = iobase;
}

module _ (machine : Device) where
  pub virtionet_read_features : VnetPriv → Io → ℕ × Io
  virtionet_read_features p io = read_long machine (p.iobase % 2 ^ 16) io

  pub virtionet_read_reg : VnetPriv → ℕ → Io → ℕ × Io
  virtionet_read_reg p reg io = read_long machine ((p.iobase + reg) % 2 ^ 16) io

  -- `dev->addr[i] = inb(...)`, over the rounds left.
  macaddr_loop : (n i : ℕ) → VnetPriv → Io → List ℕ × Io
  macaddr_loop zero i p io = ([], io)
  macaddr_loop (suc n) i p io =
      let (v, io') = inb machine (p.iobase + r_macad + i) io in
      let (rest, io'') = macaddr_loop n (i + 1) p io' in (v ∷ rest, io'')

  pub virtionet_load_macaddr : VnetPriv → EthDev → Io → EthDev × Io
  virtionet_load_macaddr p dev io =
      let (addr, io') = macaddr_loop 6 0 p io in (record dev { addr = addr }, io')

  -- The part of virtionet_init up to the device's answer: whether it agrees to the features.
  negotiate : VnetPriv → Io → ℕ × Io
  negotiate p io =
      let io1 =
        virtionet_write_dstatus p (s_devack + s_drvload) (virtionet_write_dstatus p s_devack io) in
      let (feat, io2) = virtionet_read_features p io1 in
      let io3 = virtionet_write_features p (bit_or (bit_and feat kept_features) 1) io2 in
      let (status, io4) =
        virtionet_read_reg p r_dstat
          (virtionet_write_dstatus p (s_devack + s_drvload + s_featok) io3) in
      (bit_and status s_featok, io4)

  -- virtionet_init for the device `d` that it got. `return;` gives the caller whatever stands there:
  -- `unset`.
  virtionet_init_at : (unset iobase d : ℕ) → VnetKernel → ℕ × VnetKernel
  virtionet_init_at unset iobase d k =
      let (ptr, pages1) = malloc (k.pages) 52 in
      let p = vnet_fresh_priv iobase in
      let (agreed, io1) = negotiate p (k.io) in
      let (dev, io2) = virtionet_load_macaddr p (get_or (k.eth_ifs) d no_ethdev) io1 in
      let (p', pages2) = virtionet_initialize_queue p pages1 in
      let set_up : EthDev = record dev {
        is_up = some virtionet_check_link;
        is_broadcast = some virtionet_is_broadcast;
        is_multicast = some virtionet_is_multicast;
        is_promisc = some virtionet_is_promisc;
      } in
      if agreed == 0
      then (unset, record k { pages = pages1; priv = p; io = io1 })
      else (0, record { eth_ifs = set (k.eth_ifs) d set_up; pages = pages2; priv = p'; io = io2 })

  pub virtionet_init : (unset bus device function : ℕ) → VnetKernel → ℕ × VnetKernel
  virtionet_init unset bus device function k =
      let (bar, io1) = pci_cfg_readl machine bus device function 0x10 (k.io) in
      let iobase = bit_and bar 0xfffffffe in
      let (subsys, io2) = pci_cfg_readw machine bus device function 0x2E io1 in
      let failed : VnetKernel = record k { io = virtionet_drvfail iobase io2 } in
      let (got, ifs) = ethernet_allocate (k.eth_ifs) in
      if bit_and bar 1 == 0
      then (1, record k { io = io1 })
      else if not (subsys == 1)
      then (1, failed)
      else elim got as (λ _. ℕ × VnetKernel) [
        | none ↦ (1, failed)
        | some d ↦ virtionet_init_at unset iobase d (record k { eth_ifs = ifs; io = io2 })
      ]
