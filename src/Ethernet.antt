-- ===== src/Ethernet.antt =====
-- net/ethernet.c: the table of the ethernet devices. A pointer to a device is its index.
pub mod Table
mod Tests
use korolev.Prelude.{
  ℕ, zero, suc, ◌+◌, ◌*◌, Bool, true, false, List, [], ◌∷◌, Option, none, some, leb, ◌==◌,
  if◌then◌else◌, get_or, set, replicate,
}
use korolev.Prelude.Slots.{first_slot}

-- `struct ethdev`, less the pointers that only its driver uses. The functions of the device take no
-- argument but the device, so each is what it answers; `none` stands for NULL.
pub record EthDev : Type 0 where
  pub allocated : ℕ
  pub addr : List ℕ
  pub link_status : ℕ
  pub mtu : ℕ
  pub is_up : Option ℕ
  pub is_broadcast : Option ℕ
  pub is_multicast : Option ℕ
  pub is_promisc : Option ℕ

abbrev pub no_ethdev : EthDev
no_ethdev = record {
  allocated = 0;
  addr = replicate 6 0;
  link_status = 0;
  mtu = 0;
  is_up = none;
  is_broadcast = none;
  is_multicast = none;
  is_promisc = none;
}

abbrev pub eth_max_ifs : ℕ
eth_max_ifs = 16

-- For a malloc that does not fail.
unfoldable pub ethernet_setup : List EthDev
ethernet_setup = replicate eth_max_ifs no_ethdev

abbrev pub is_free : EthDev → Bool
is_free dev = dev.allocated == 0

-- The index of the device, `none` for NULL, and the table.
pub ethernet_allocate : List EthDev → Option ℕ × List EthDev
ethernet_allocate eth_ifs = elim (first_slot is_free eth_ifs) [
  | none ↦ (none, eth_ifs)
  | some i ↦
      (some i, set eth_ifs i (record (get_or eth_ifs i no_ethdev) { allocated = 1; mtu = 1500 }))
]

unfoldable pub ethernet_free : ℕ → List EthDev → List EthDev
ethernet_free dev eth_ifs = set eth_ifs dev no_ethdev

-- For an index that is not negative.
unfoldable pub ethernet_getdev : ℕ → List EthDev → Option ℕ
ethernet_getdev index eth_ifs =
    if leb eth_max_ifs index
    then none
    else if (get_or eth_ifs index no_ethdev).allocated == 0
    then none
    else some index
