-- ===== src/Pci/Scan.antt =====
-- The enumeration of the bus.
use korolev.Prelude.{
  ℕ, zero, suc, ◌+◌, ◌*◌, ◌-◌, ◌/◌, ◌%◌, ◌^◌, ◌≡◌, ◌≢◌, refl, ◌∙◌, ap, List, [], ◌∷◌, arith, ◌==◌,
  ◌&&◌, ◌||◌, false, Bool-cases, inl, inr, length,
}
use korolev.Port.{Device, Io, inl as read_long, outl}
use korolev.Pci.{
  conf_data, pci_cfg_readl, pci_cfg_readb, pci_cfg_readw, PciDev, loop, probe_drivers, probe,
  pci_enumerate,
}

no_match :
    (n class sclass : ℕ) {x y : ℕ}
    → x ≡ y
    → class ≢ sclass
    → (n == 33 && class == x && sclass == y) ≡ false
no_match n class sclass e differ = ground arith

module _ {ℓ} {S : Type ℓ} where
  -- `c` accesses to the ports were made, half of them writes, and nothing else was done.
  pub record Idle (c : ℕ) (s : S) (io : Io) (r : S × Io) : Type ℓ where
    pub state : r.0 ≡ s
    pub clock : r.1.clock ≡ io.clock + 2 * c
    pub writes : length (r.1.outs) ≡ c + length (io.outs)

  loop-Idle :
      (n i c : ℕ) (body : ℕ → S × Io → S × Io) {s : S} (r : S × Io)
      → r.0 ≡ s
      → ((i : ℕ) (r : S × Io) → r.0 ≡ s → Idle c s (r.1) (body i r))
      → Idle (n * c) s (r.1) (loop n i body r)
  unfolding loop
  loop-Idle zero i c body r e h = record { state = e; clock = omega arith; writes = omega arith }
  loop-Idle (suc n) i c body r e h =
      let first = h i r e in
      let again = loop-Idle n (i + 1) c body (body i r) (first.state) h in
      record {
        state = again.state;
        clock = grind (arith, again.clock, first.clock);
        writes = grind (arith, again.writes, first.writes);
      }

  probe-Idle :
      (machine : Device) (drivers : List (PciDev S)) (bus device function : ℕ) {s : S} (r : S × Io)
      → ((t : ℕ) → machine t conf_data ≡ 2 ^ 32 - 1)
      → r.0 ≡ s
      → Idle 1 s (r.1) (probe machine drivers bus device function r)
  unfolding probe pci_cfg_readw pci_cfg_readl read_long outl
  probe-Idle machine drivers bus device function r absent e =
      rw (absent (r.1.clock + 1)) (record { state = e; clock = omega arith; writes = omega arith })

  -- On a machine without PCI devices (every read of the data port answers with ones), the enumeration
  -- ends after one look at each of the 8 functions of 32 devices of 255 buses, and does nothing else.
  pub pci_enumerate_lem :
      (machine : Device) (drivers : List (PciDev S)) (s : S) (io : Io)
      → ((t : ℕ) → machine t conf_data ≡ 2 ^ 32 - 1)
      → Idle (255 * (32 * (8 * 1))) s io (pci_enumerate machine drivers (s, io))
  unfolding pci_enumerate
  pci_enumerate_lem machine drivers s io absent =
      loop-Idle 255 0 (32 * (8 * 1)) _ (s, io) refl
        λ bus r e. loop-Idle 32 0 (8 * 1) _ r e λ device r e.
          loop-Idle 8 0 1 _ r e
            λ function r e. probe-Idle machine drivers bus device function r absent e

  -- A driver that goes by its class, for a class that is not equal to its subclass, never gets to set
  -- a device up, whatever stands in the configuration space, as long as that answers two reads of one
  -- register alike: the byte read as the class is the subclass.
  pub probe_class :
      (machine : Device) (driver : PciDev S) (bus device function : ℕ) (s : S) (io : Io)
      → driver.ids_len ≡ 33
      → driver.class_code ≢ driver.subclass
      → machine (io.clock + 5) conf_data ≡ machine (io.clock + 7) conf_data
      → (probe machine (driver ∷ []) bus device function (s, io)).0 ≡ s
  unfolding probe probe_drivers pci_cfg_readw pci_cfg_readb pci_cfg_readl read_long outl
  probe_class machine driver bus device function s io by_class differ stable =
      let c = io.clock in
      let read : machine (c + 1 + 1 + 1 + 1 + 1) conf_data
          ≡ machine (c + 1 + 1 + 1 + 1 + 1 + 1 + 1) conf_data =
        ap (λ (t : ℕ). machine t conf_data) (omega arith)
        ∙ stable
        ∙ ap (λ (t : ℕ). machine t conf_data) (omega arith) in
      let never =
        no_match (driver.ids_len) (driver.class_code) (driver.subclass)
          (ap (λ (v : ℕ). v % 2 ^ 32 / 2 ^ 16 % 2 ^ 8) read) differ in
      let (vendor, io1) = pci_cfg_readw machine bus device function 0x00 io in
      let devid = (pci_cfg_readw machine bus device function 0x02 io1).0 in
      elim (Bool-cases (vendor == 0xffff)) [
        | inl absent ↦ rw absent refl
        | inr present ↦ elim (Bool-cases (devid == 0x0000 || devid == 0xffff)) [
          | inl absent ↦ rw (present, absent) refl
          | inr valid ↦ rw (present, valid, never, by_class) refl
        ]
      ]
