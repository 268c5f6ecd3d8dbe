-- ===== src/Virtio/Init.antt =====
-- How virtionet_init ends.
use korolev.Prelude.{
  ℕ, ◌+◌, ◌≡◌, ◌≢◌, List, some, ◌==◌, get_or, length, inl, bit_and, Bool, true, false, not, ◌&&◌,
  ◌%◌, ◌^◌,
}
use korolev.Port.{Device, Io, inl as read_long}
use korolev.Prelude.Slots.{passing}
use korolev.Ethernet.{EthDev, no_ethdev, is_free}
use korolev.Pci.{pci_cfg_readl, pci_cfg_readw}
use korolev.Virtio.{VnetKernel}

module _ (machine : Device) where
  -- The first base address is a port, and the subsystem is that of a network card.
  abbrev pub is_card : (bus device function : ℕ) → Io → Bool
  is_card bus device function io =
      let (bar, io1) = pci_cfg_readl machine bus device function 0x10 io in
      let subsystem = (pci_cfg_readw machine bus device function 0x2E io1).0 in
      not (bit_and bar 1 == 0) && subsystem == 1

  -- The device keeps the bit FEATURES_OK, bit 3 of its status at offset 0x12, when it is asked after the
  -- access `c`.
  abbrev pub agrees : (iobase c : ℕ) → Bool
  agrees iobase c = not (bit_and (machine (c + 5) ((iobase + 0x12) % 2 ^ 16) % 2 ^ 32) 8 == 0)

  -- The same, from the set-up's first access on.
  abbrev pub agrees_at : (bus device function : ℕ) → Io → Bool
  agrees_at bus device function io =
      let (bar, io1) = pci_cfg_readl machine bus device function 0x10 io in
      let io2 = (pci_cfg_readw machine bus device function 0x2E io1).1 in
      agrees (bit_and bar 0xfffffffe) (io2.clock)

  -- The ways in which the set-up ends, from a table of devices; `unset` stands for the result that
  -- `return;` leaves open.
  pub data Ended (card agreed : Bool) (unset : ℕ) (ifs : List EthDev)
      : ℕ × VnetKernel → Type 0 where
    no_card : (k : VnetKernel) → card ≡ false → k.eth_ifs ≡ ifs → Ended card agreed unset ifs (1, k)
    no_device :
        (k : VnetKernel)
        → card ≡ true
        → passing is_free ifs ≡ 0
        → k.eth_ifs ≡ ifs
        → Ended card agreed unset ifs (1, k)
    disagreed :
        (d : ℕ) (k : VnetKernel)
        → card ≡ true
        → agreed ≡ false
        → (get_or ifs d no_ethdev).allocated ≡ 0
        → (get_or (k.eth_ifs) d no_ethdev).allocated ≡ 1
        → (get_or (k.eth_ifs) d no_ethdev).is_up ≡ (get_or ifs d no_ethdev).is_up
        → ((j : ℕ) → j ≢ d → get_or (k.eth_ifs) j no_ethdev ≡ get_or ifs j no_ethdev)
        → Ended card agreed unset ifs (unset, k)
    ready :
        (d : ℕ) (k : VnetKernel)
        → card ≡ true
        → agreed ≡ true
        → (get_or ifs d no_ethdev).allocated ≡ 0
        → (get_or (k.eth_ifs) d no_ethdev).allocated ≡ 1
        → (get_or (k.eth_ifs) d no_ethdev).is_up ≡ some 0
        → length (get_or (k.eth_ifs) d no_ethdev).addr ≡ 6
        → ((j : ℕ) → j ≢ d → get_or (k.eth_ifs) j no_ethdev ≡ get_or ifs j no_ethdev)
        → Ended card agreed unset ifs (0, k)
