-- ===== src/E1000/Setup.antt =====
-- The set-up of the card and its interrupts: e1000_handler, e1000_init and e1000_init_old. A pointer to
-- the ethernet device `i` is i + 1, as 0 is NULL. malloc is taken not to fail.
use korolev.Prelude.{
  ℕ, zero, suc, ◌+◌, ◌-◌, ◌*◌, ◌^◌, not, bit_and, bit_or, List, [], Option, none, some, ◌==◌,
  if◌then◌else◌, get_or, set,
}
use korolev.Port.{Device}
use korolev.Alloc.{Pages, malloc, free}
use korolev.Ethernet.{EthDev, no_ethdev, ethernet_allocate, ethernet_free}
use korolev.Int.{irq10}
use korolev.Pci.{
  PciHandler, PciIntEntry, pci_int_request, pci_cfg_readl, pci_cfg_readw, pci_cfg_writeb,
  pci_cfg_writew,
}
use korolev.E1000.{
  Bus, E1000Priv, RxDesc, reg_ctrl, reg_rctrl, reg_tctrl, cmd_icr, e1000_writecmd, e1000_readcmd,
  e1000_enable_int, e1000_check_link,
}
use korolev.E1000.Eeprom.{e1000_detect_eeprom, e1000_read_mac}
use korolev.E1000.Rings.{e1000_rxinit, e1000_txinit, e1000_receive}

-- The kernel's state that the set-up changes; `priv` is that of the device.
pub record Kernel {ℓ} (S : Type ℓ) : Type ℓ where
  pub eth_ifs : List EthDev
  pub pages : Pages
  pub ints : List (PciIntEntry S)
  pub priv : E1000Priv
  pub bus : Bus

-- A driver's memory behind `kmemset(priv, 0, ...)`, with the place of the device and its first base
-- address. The pointers of the rings are NULL.
abbrev pub fresh_priv : (bus device function bar0 : ℕ) → E1000Priv
fresh_priv bus device function bar0 = record {
  bus = bus;
  device = device;
  function = function;
  bar_type = bit_and bar0 1;
  eeprom_exists = 0;
  rx_descs = [];
  tx_descs = [];
  rx_cur = 0;
  tx_cur = 0;
  memory = bit_and bar0 0xFFFFFFF0;
  iobase = bit_and bar0 0xFFFFFFFC;
}

module _ (machine card : Device) where
  -- For rings that are set up.
  unfoldable pub e1000_handler :
      (ℕ → List RxDesc → List RxDesc)
      → ℕ
      → E1000Priv
      → EthDev
      → Bus
      → Option (E1000Priv × EthDev × Bus)
  e1000_handler dma fuel p dev b =
      let (status, b') = e1000_readcmd machine card p cmd_icr b in
      let received =
        elim (e1000_receive dma fuel p b') as (λ _. Option (E1000Priv × EthDev × Bus)) [
          | none ↦ none
          | some (p', b'') ↦ some (p', dev, b'')
        ] in
      let (up, dev', checked) = e1000_check_link machine card p dev b' in
      if status == 0
      then some (p, dev, b')
      else if not (bit_and status 0x80 == 0)
      then received
      else if not (bit_and status 0x04 == 0)
      then some (p, dev', checked)
      else some (p, dev, b')

  module _ {ℓ} {S : Type ℓ} (handler : PciHandler S) (fuel bus device function : ℕ) where
    abbrev pub entry : ℕ → PciIntEntry S
    entry d = record {
      dev = d + 1;
      handler = some handler;
      bus = bus;
      device = device;
      function = function;
    }

    -- The part of e1000_init behind e1000_read_mac. ECTRL_SLU is 0x40.
    pub link_up : E1000Priv → Bus → Bus
    link_up p b =
        let (ctrl, b') = e1000_readcmd machine card p reg_ctrl b in
        e1000_enable_int machine card p (e1000_writecmd p reg_ctrl (bit_or ctrl 0x40) b')

    -- The rest of e1000_init for the device `d` and its memory at `ptr`, by the answer of
    -- e1000_read_mac.
    unfoldable pub after_mac :
        (d ptr : ℕ) → Kernel S → Option (ℕ × EthDev × Bus) → Option (ℕ × Kernel S)
    after_mac d ptr k none = none
    after_mac d ptr k (some (found, dev, b)) =
        if found == 0
        then some (
          1,
          record k { pages = free (k.pages) ptr; eth_ifs = ethernet_free d (k.eth_ifs); bus = b },
        )
        else some (0, record k { eth_ifs = set (k.eth_ifs) d dev; bus = link_up (k.priv) b })

    -- e1000_init for the device `d` that it got.
    unfoldable pub e1000_init_at : ℕ → Kernel S → Option (ℕ × Kernel S)
    e1000_init_at d k =
        let b = k.bus in
        let (ptr, pages1) = malloc (k.pages) 196 in
        let (bar0, io1) = pci_cfg_readl machine bus device function 0x10 (b.io) in
        let p = fresh_priv bus device function bar0 in
        let b2 : Bus = record b { io = pci_cfg_writeb bus device function 0x3C irq10 io1 } in
        let k' : Kernel S = record k {
          pages = pages1;
          priv = p;
          ints = (pci_int_request (entry d) (k.ints)).1;
        } in
        after_mac d ptr k' (e1000_read_mac machine card fuel p (get_or (k.eth_ifs) d no_ethdev) b2)

    -- `none` is a wait that outlasts the fuel.
    unfoldable pub e1000_init : Kernel S → Option (ℕ × Kernel S)
    e1000_init k =
        let (got, ifs) = ethernet_allocate (k.eth_ifs) in
        elim got as (λ _. Option (ℕ × Kernel S)) [
          | none ↦ some (1, k)
          | some d ↦ e1000_init_at d (record k { eth_ifs = ifs })
        ]

    -- `for (i = 0; i < 0x80; i++) e1000_writecmd(dev, 0x5200 + i * 4, 0);` over the rounds left.
    clear_loop : (n i : ℕ) → E1000Priv → Bus → Bus
    clear_loop zero i p b = b
    clear_loop (suc n) i p b = clear_loop n (i + 1) p (e1000_writecmd p (0x5200 + i * 4) 0 b)

    -- The part of e1000_init_old behind e1000_txinit: the masks are those of the threshold and the
    -- distance of collisions, the last values RCTL_EN, RCTL_BAM, RCTL_BSIZE_8192 and RCTL_SECRC, and
    -- ECTRL_SLU and ECTRL_ASDE.
    start_old : E1000Priv → Bus → Bus
    start_old p b =
        let (tctl, b1) = e1000_readcmd machine card p reg_tctrl b in
        let kept = bit_and tctl (0xffffffff - (0xff * 2 ^ 4 + 0x3ff * 2 ^ 12)) in
        let b2 =
          e1000_writecmd p reg_tctrl (bit_or kept (2 ^ 1 + 2 ^ 3 + 0x0f * 2 ^ 4 + 0x40 * 2 ^ 12))
            b1 in
        let (rctl, b3) = e1000_readcmd machine card p reg_rctrl b2 in
        let b4 = e1000_writecmd p reg_rctrl (2 ^ 1 + 2 ^ 15 + 2 ^ 17 + 2 ^ 25 + 2 ^ 26) b3 in
        e1000_writecmd p reg_ctrl 0x60 b4

    -- e1000_init_old for the device `d` that it got. The driver's functions, to which it sets the
    -- pointers of the device at its end, are no part of the model's devices.
    e1000_init_old_at : ℕ → Kernel S → Option (ℕ × Kernel S)
    e1000_init_old_at d k =
        let b = k.bus in
        let (ptr, pages1) = malloc (k.pages) 196 in
        let (bar0, io1) = pci_cfg_readl machine bus device function 0x10 (b.io) in
        let (cmd, io2) = pci_cfg_readw machine bus device function 0x04 io1 in
        let io3 = pci_cfg_writew bus device function 0x04 (bit_or cmd (2 ^ 2)) io2 in
        let (exists, p, b4) =
          e1000_detect_eeprom machine card (fresh_priv bus device function bar0)
            (record b { io = io3 }) in
        let k' : Kernel S = record k { pages = pages1; priv = p } in
        elim (e1000_read_mac machine card fuel p (get_or (k.eth_ifs) d no_ethdev) b4)
          as (λ _. Option (ℕ × Kernel S)) [
            | none ↦ none
            | some (found, dev, b5) ↦
                let b6 = clear_loop 0x80 0 p b5 in
                let b7 : Bus = record b6 {
                  io = pci_cfg_writeb bus device function 0x3C irq10 (b6.io);
                } in
                let (p1, pages2, b8) = e1000_rxinit p pages1 (e1000_enable_int machine card p b7) in
                let (p2, pages3, b9) = e1000_txinit p1 pages2 b8 in
                if found == 0
                then some (
                  1,
                  record k' {
                    pages = free pages1 ptr;
                    eth_ifs = ethernet_free d (k.eth_ifs);
                    bus = b5;
                  },
                )
                else some (
                  0,
                  record {
                    eth_ifs = set (k.eth_ifs) d dev;
                    pages = pages3;
                    ints = (pci_int_request (entry d) (k.ints)).1;
                    priv = p2;
                    bus = start_old p2 b9;
                  },
                )
          ]

    pub e1000_init_old : Kernel S → Option (ℕ × Kernel S)
    e1000_init_old k =
        let (got, ifs) = ethernet_allocate (k.eth_ifs) in
        elim got as (λ _. Option (ℕ × Kernel S)) [
          | none ↦ some (1, k)
          | some d ↦ e1000_init_old_at d (record k { eth_ifs = ifs })
        ]
