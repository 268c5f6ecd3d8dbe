-- ===== src/Net/Setup.antt =====
-- network_setup of net/network.c, and network_disable. What the functions is_up of the devices answer
-- is a parameter, by the device and the look; sleep only lets time pass, and is left out like the
-- messages. The interfaces are printed by netdev_print, which is in Net/Print.
pub mod Interfaces
use korolev.Prelude.{
  ℕ, zero, suc, ◌+◌, ◌-◌, ◌*◌, ◌≤◌, ◌<◌, ◌≡◌, ◌≢◌, refl, ap, sym, ◌∙◌, Bool, true, false, not, ◌||◌,
  List, [], ◌∷◌, ◌++◌, Option, none, some, ◌==◌, if◌then◌else◌, get_or, set, replicate, arith,
  length, Bool-cases, inl, inr, leb,
}
use korolev.Prelude.Slots.{first_slot}
use korolev.Ethernet.{EthDev, no_ethdev, eth_max_ifs, ethernet_getdev}
use korolev.Net.Loopback.{loopback}
use korolev.Net.{
  Netdev, no_netdev, fill_loopback, as_loopback, netdev_allocate, netdev_set, netdev_add_linklocal,
  netdev_add_ip6_address, network_create_loopback, net_if_ethernet, is_free,
}

pub network_disable : ℕ
network_disable = 1

-- `while (!pdev->is_up(pdev) && s) { sleep(10); s--; }` over `s`.
pub wait_loop : (ℕ → ℕ) → (s look : ℕ) → ℕ
wait_loop answers zero look = 0
wait_loop answers (suc s) look =
    let again = wait_loop answers s (look + 1) in if answers look == 0 then again else suc s

-- What is made of an interface for the ethernet device `d`.
abbrev pub as_ethernet : List EthDev → (ℕ → ℕ) → ℕ → Netdev → Netdev
as_ethernet eth_ifs answers d dev =
    let named = record dev {
      name = b'e' ∷ b't' ∷ b'h' ∷ [];
      iftype = net_if_ethernet;
      physical = some d;
      up = 1;
    } in
    if wait_loop answers 3 0 == 0xffffffff
    then named
    else netdev_add_linklocal (get_or eth_ifs d no_ethdev) named

-- The body of the loop for a device; `none` is a write or a call through NULL.
add_interface : List EthDev → (ℕ → ℕ) → ℕ → Option ℕ × List Netdev → Option (List Netdev)
add_interface eth_ifs answers d (none, net_ifs) = none
add_interface eth_ifs answers d (some j, net_ifs) = elim ((get_or eth_ifs d no_ethdev).is_up) [
  | none ↦ none
  | some f ↦ some (set net_ifs j (as_ethernet eth_ifs answers d (get_or net_ifs j no_netdev)))
]

-- The loop over the ethernet devices, over the rounds left.
setup_loop : List EthDev → (ℕ → ℕ → ℕ) → (n i : ℕ) → Option (List Netdev) → Option (List Netdev)
setup_loop eth_ifs answers n i none = none
setup_loop eth_ifs answers zero i (some net_ifs) = some net_ifs
setup_loop eth_ifs answers (suc n) i (some net_ifs) =
    let added = add_interface eth_ifs (answers i) i (netdev_allocate net_ifs) in
    setup_loop eth_ifs answers n (i + 1)
      (elim (ethernet_getdev i eth_ifs) [ none ↦ some net_ifs | some d ↦ added ])

abbrev pub net_max_ifs : ℕ
net_max_ifs = 16

-- For a `network__disable` of `disabled`; the interfaces from before are left as they are then.
pub network_setup : ℕ → List EthDev → (ℕ → ℕ → ℕ) → List Netdev → Option (List Netdev)
network_setup disabled eth_ifs answers old =
    let set_up =
      setup_loop eth_ifs answers eth_max_ifs 0
        (network_create_loopback (replicate net_max_ifs no_netdev)) in
    if not (disabled == 0) then some old else set_up
