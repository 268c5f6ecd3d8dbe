-- ===== src/Net/Print.antt =====
-- netdev_print of net/network.c.
use korolev.Prelude.{ℕ, ◌^◌, Bool, not, List, [], ◌∷◌, Option, some, ◌==◌, if◌then◌else◌, bit_and}
use korolev.Port.{Device}
use korolev.Text.{Screen, ◌>>=◌, puts, putn10}
use korolev.Ethernet.{EthDev}
use korolev.Net.{
  NetdevAddr, Netdev, net_addr_ipv6, net_addr_ipv6_local, net_addr_ipv6_loop, physical_of,
  has_physical, netdev_get_mtu, netdev_get_status, network_print_ipv6, put_hwaddr,
}

module _ (dev : Device) (fuel : ℕ) where
  abbrev print : List ℕ → Screen → Option Screen
  print = puts dev fuel

  -- `if (c) puts(text);`
  abbrev print_if : Bool → List ℕ → Screen → Option Screen
  print_if c text s = if c then print text s else some s

  -- The scope of an address; of an unknown one nothing.
  abbrev print_scope : ℕ → Screen → Option Screen
  print_scope attr s =
      if attr == 0
      then print (b'g' ∷ b'l' ∷ b'o' ∷ b'b' ∷ b'a' ∷ b'l' ∷ b'\n' ∷ []) s
      else if attr == net_addr_ipv6_local
      then print (b'l' ∷ b'o' ∷ b'c' ∷ b'a' ∷ b'l' ∷ b'\n' ∷ []) s
      else if attr == net_addr_ipv6_loop
      then print (b'h' ∷ b'o' ∷ b's' ∷ b't' ∷ b'\n' ∷ []) s
      else some s

  -- `while (addr)`
  print_addresses : List NetdevAddr → Screen → Option Screen
  print_addresses [] s = some s
  print_addresses (addr ∷ addrs) s =
      (if addr.addrtype == net_addr_ipv6
        then (print
              (b'\n' ∷ b' ' ∷ b' ' ∷ b' ' ∷ b' ' ∷ b'i' ∷ b'n' ∷ b'e' ∷ b't' ∷ b'6' ∷ b' ' ∷ []) s
            >>= network_print_ipv6 dev fuel addr
            >>= print (b' ' ∷ b's' ∷ b'c' ∷ b'o' ∷ b'p' ∷ b'e' ∷ b' ' ∷ [])
            >>= print_scope (addr.attr))
        else some s)
      >>= print_addresses addrs

  pub netdev_print : List EthDev → Netdev → Screen → Option Screen
  netdev_print eth_ifs net s =
      let status = netdev_get_status eth_ifs net in
      let is_set = λ (bit : ℕ). not (bit_and status bit == 0) in
      print (net.name) s
      >>= print (b':' ∷ b' ' ∷ b'<' ∷ [])
      >>= print_if (is_set (2 ^ 0)) (b'U' ∷ b'P' ∷ [])
      >>= print_if (is_set (2 ^ 1))
          (b',' ∷ b'B' ∷ b'R' ∷ b'O' ∷ b'A' ∷ b'D' ∷ b'C' ∷ b'A' ∷ b'S' ∷ b'T' ∷ [])
      >>= print_if (is_set (2 ^ 2))
          (b',' ∷ b'M' ∷ b'U' ∷ b'L' ∷ b'T' ∷ b'I' ∷ b'C' ∷ b'A' ∷ b'S' ∷ b'T' ∷ [])
      >>= print_if (is_set (2 ^ 3)) (b',' ∷ b'P' ∷ b'R' ∷ b'O' ∷ b'M' ∷ b'I' ∷ b'S' ∷ b'C' ∷ [])
      >>= print_if (is_set (2 ^ 4)) (b',' ∷ b'S' ∷ b'L' ∷ b'A' ∷ b'V' ∷ b'E' ∷ [])
      >>= print_if (is_set (2 ^ 5))
          (b',' ∷ b'L' ∷ b'O' ∷ b'W' ∷ b'E' ∷ b'R' ∷ b'_' ∷ b'U' ∷ b'P' ∷ [])
      >>= print (b'>' ∷ b' ' ∷ b'm' ∷ b't' ∷ b'u' ∷ b' ' ∷ [])
      >>= putn10 dev fuel (netdev_get_mtu eth_ifs net)
      >>= print (b' ' ∷ b's' ∷ b't' ∷ b'a' ∷ b't' ∷ b'e' ∷ b' ' ∷ [])
      >>= print (if is_set (2 ^ 0) then (b'U' ∷ b'P' ∷ []) else (b'D' ∷ b'O' ∷ b'W' ∷ b'N' ∷ []))
      >>= print (b'\n' ∷ b' ' ∷ b' ' ∷ b' ' ∷ b' ' ∷ b'l' ∷ b'i' ∷ b'n' ∷ b'k' ∷ b'/' ∷ [])
      >>= (λ s.
          if has_physical net
          then (print (b'e' ∷ b't' ∷ b'h' ∷ b'e' ∷ b'r' ∷ b' ' ∷ []) s
              >>= put_hwaddr dev fuel ((physical_of eth_ifs net).addr))
          else print (b'u' ∷ b'n' ∷ b'k' ∷ b'n' ∷ b'o' ∷ b'w' ∷ b'n' ∷ []) s)
      >>= print_addresses (net.addresses)
      >>= print (b'\n' ∷ [])
