-- ===== src/Net/Tests.antt =====
-- A table whose first interface is in use, and its addresses on the screen.
use korolev.Prelude.{
  ℕ, zero, suc, ◌-◌, ◌≤◌, ◌≡◌, ◌≢◌, refl, List, [], ◌∷◌, ◌++◌, none, some, replicate, arith, length,
  get_or, ◌==◌, if◌then◌else◌,
}
use korolev.Net.Setup.{network_setup}
use korolev.Net.Setup.Interfaces.{interfaces, network_setup_lem}
use korolev.Ethernet.{EthDev, no_ethdev, ethernet_getdev}
use korolev.Net.{Netdev, no_netdev, netdev_set, netdev_get_mtu, netdev_get_status, net_if_ethernet}
use korolev.Net.Loopback.{loopback}

abbrev one_used : List Netdev
one_used = record no_netdev { allocated = 1 } ∷ replicate 15 no_netdev

-- A card that is up and takes broadcasts.
abbrev card : EthDev
card = record no_ethdev {
  allocated = 1;
  addr = 0x52 ∷ 0x54 ∷ 0x00 ∷ 0x12 ∷ 0x34 ∷ 0x56 ∷ [];
  mtu = 1500;
  is_up = some 2;
  is_broadcast = some 1;
  is_multicast = some 0;
}

abbrev eth0 : Netdev
eth0 = record no_netdev { allocated = 1; iftype = net_if_ethernet; physical = some 0 }

-- UP, BROADCAST and LOWER_UP
status_of_card : netdev_get_status (card ∷ []) (netdev_set 1 eth0) ≡ 0x23
unfolding netdev_get_status netdev_set
status_of_card = refl

mtu_of_card : netdev_get_mtu (card ∷ []) eth0 ≡ 1500
unfolding netdev_get_mtu
mtu_of_card = refl

card_linked :
    (i : ℕ) → ethernet_getdev i (card ∷ []) ≢ none → (get_or (card ∷ []) i no_ethdev).is_up ≢ none
unfolding ethernet_getdev
card_linked zero there = λ e. cc
card_linked (suc i) there = absurd (there (ground arith))

few_cards : length (interfaces (card ∷ []) 16 0) ≤ 15
unfolding ethernet_getdev interfaces
few_cards = omega arith

-- One card makes eth behind lo.
network_setup_lem_example : network_setup 0 (card ∷ []) (λ d look. 0) [] ≡ (
    if 0 == 0
    then some (
        loopback no_netdev
        ∷ (interfaces (card ∷ []) 16 0
            ++ replicate (15 - length (interfaces (card ∷ []) 16 0)) no_netdev))
    else some [])
network_setup_lem_example = network_setup_lem (card ∷ []) (λ d look. 0) card_linked 0 [] few_cards
