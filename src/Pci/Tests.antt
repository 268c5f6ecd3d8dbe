-- ===== src/Pci/Tests.antt =====
-- A machine with one device, and drivers that count.
use korolev.Prelude.{ℕ, ◌+◌, ◌≡◌, refl, [], ◌∷◌, some}
use korolev.Port.{Device, fresh_io, inl as read_long}
use korolev.Pci.{
  pci_cfg_readl, pci_cfg_readb, pci_cfg_readw, PciDev, InitF, probe, probe_drivers, probe_ids,
  init_device,
}

-- Revision 2, interface 0x8A, subclass 1, class 6.
abbrev machine : Device
machine t port = 0x06018A02

-- Counts the devices.
abbrev count : InitF ℕ
count bus device function (s, io) = (0, (s + 1, io))

-- A driver for bridges.
abbrev bridge : PciDev ℕ
bridge = record { initf = some count; ids_len = 33; ids = []; class_code = 6; subclass = 1 }

-- The driver of the disk has class 1 and subclass 1, and is found.
disk_is_found : (probe machine (record bridge { class_code = 1 } ∷ []) 0 1 0 (3, fresh_io)).0 ≡ 4
unfolding probe probe_drivers init_device pci_cfg_readw pci_cfg_readb pci_cfg_readl read_long
disk_is_found = refl

-- A driver by its ids does not end the search: both are asked to set the device up.
found_twice :
    (probe_drivers 0 1 0 0x8086 0x100E 2 0
      (record bridge { ids_len = 1; ids = (0x8086, 0x100E) ∷ [] }
        ∷ record bridge { class_code = 2; subclass = 0 }
        ∷ [])
      (3, fresh_io)).0
    ≡ 5
unfolding probe_drivers probe_ids init_device
found_twice = refl
