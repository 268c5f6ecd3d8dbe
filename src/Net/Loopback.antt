-- ===== src/Net/Loopback.antt =====
-- The interfaces that are given away, and the loopback interface.
use korolev.Prelude.{
  ℕ, ◌<◌, ◌≡◌, ◌≢◌, refl, sym, ap, ◌∙◌, List, [], ◌∷◌, ◌++◌, Option, none, some, arith, get_or, set,
  length, length-set, replicate, get_or-set_ne, get_or-set_self,
}
use korolev.Prelude.Slots.{passing, Found, nowhere, at_slot, first_slot-Found}
use korolev.Net.{
  NetdevAddr, Netdev, no_netdev, is_free, netdev_allocate, netdev_set, netdev_add_ip6_address,
  prefix_mask, network_create_loopback, net_if_loopback, net_addr_ipv6, net_addr_ipv6_loop,
  as_loopback, fill_loopback,
}

-- The address ::1, each word with its low byte first, as network_create_loopback writes it.
abbrev pub loopback_addr : NetdevAddr
loopback_addr = record {
  addrtype = net_addr_ipv6;
  addr = set (replicate 16 0) 14 1;
  mask = prefix_mask 64;
  attr = net_addr_ipv6_loop;
}

-- The loopback interface in the slot of a free one, which may hold remains.
abbrev pub loopback : Netdev → Netdev
loopback old = record old {
  allocated = 1;
  name = b'l' ∷ b'o' ∷ [];
  up = 1;
  iftype = net_if_loopback;
  addresses = old.addresses ++ (loopback_addr ∷ []);
}

as_loopback-new : (old : Netdev) → as_loopback (record old { allocated = 1 }) ≡ loopback old
unfolding as_loopback netdev_add_ip6_address netdev_set
as_loopback-new old = refl

-- What network_create_loopback does with the table.
pub data Created (ifs : List Netdev) : Option (List Netdev) → Type 0 where
  full : passing is_free ifs ≡ 0 → Created ifs none
  created :
      (i : ℕ) (ifs' : List Netdev)
      → i < length ifs
      → (get_or ifs i no_netdev).allocated ≡ 0
      → get_or ifs' i no_netdev ≡ loopback (get_or ifs i no_netdev)
      → ((j : ℕ) → j ≢ i → get_or ifs' j no_netdev ≡ get_or ifs j no_netdev)
      → length ifs' ≡ length ifs
      → Created ifs (some ifs')

-- When some interface is free, network_create_loopback turns a free one into the loopback interface,
-- which is up, is named lo and has one more address, ::1 with a mask of 64 bits, and leaves the others
-- as they are. When none is free, it writes through NULL.
pub network_create_loopback_lem : (ifs : List Netdev) → Created ifs (network_create_loopback ifs)
unfolding network_create_loopback fill_loopback netdev_allocate
network_create_loopback_lem ifs = go (first_slot-Found is_free ifs)
  where
    go :
        {r : Option ℕ}
        → Found is_free ifs r
        → Created ifs (
            fill_loopback (elim r as (λ _. Option ℕ × List Netdev) [
              | none ↦ (none, ifs)
              | some i ↦ (some i, set ifs i (record (get_or ifs i no_netdev) { allocated = 1 }))
            ]))
    go (nowhere z) = full z
    go (at_slot i h t p) =
        let old = get_or ifs i no_netdev in
        let new : Netdev = record old { allocated = 1 } in
        let ifs1 = set ifs i new in
        let dev = as_loopback (get_or ifs1 i no_netdev) in
        let long = length-set ifs i new in
        created i (set ifs1 i dev) h (ground (arith, t no_netdev))
          (get_or-set_self ifs1 i dev no_netdev (omega arith)
            ∙ ap as_loopback (get_or-set_self ifs i new no_netdev h)
            ∙ as_loopback-new old)
          (λ j ne.
            get_or-set_ne ifs1 i j dev no_netdev (λ e. ne (sym e))
            ∙ get_or-set_ne ifs i j new no_netdev (λ e. ne (sym e)))
          (length-set ifs1 i dev ∙ long)
