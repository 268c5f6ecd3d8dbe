-- ===== src/Net.antt =====
-- net/network.c: the network interfaces, their IPv6 addresses and what is printed of them. The list
-- of the addresses of an interface is a list; malloc is taken not to fail. A pointer to an interface
-- is its index.
pub mod Loopback
pub mod Prefix
pub mod Print
pub mod Setup
mod Tests
use korolev.Prelude.{
  ℕ, zero, suc, ◌+◌, ◌*◌, ◌-◌, ◌/◌, ◌%◌, ◌^◌, bit_or, Bool, true, false, ◌&&◌, ◌||◌, not, List, [],
  ◌∷◌, ◌++◌, Option, none, some, leb, ◌==◌, if◌then◌else◌, get_or, set, replicate,
}
use korolev.Prelude.Slots.{first_slot}
use korolev.Port.{Device}
use korolev.Text.{Screen, ◌>>=◌, put, putn16, putn10}
use korolev.Ethernet.{EthDev, no_ethdev}

abbrev pub net_addr_ipv6 : ℕ
net_addr_ipv6 = 1

abbrev pub net_addr_ipv6_local : ℕ
net_addr_ipv6_local = 1

abbrev pub net_addr_ipv6_loop : ℕ
net_addr_ipv6_loop = 2

abbrev pub net_if_ethernet : ℕ
net_if_ethernet = 1

abbrev pub net_if_vswitch : ℕ
net_if_vswitch = 2

abbrev pub net_if_loopback : ℕ
net_if_loopback = 3

-- `netdev_addr`, less its link
pub record NetdevAddr : Type 0 where
  pub addrtype : ℕ
  pub addr : List ℕ
  pub mask : List ℕ
  pub attr : ℕ

-- `netdev`; `name` is the text before the NUL, `physical` the index of an ethernet device, and a
-- `master` of 0 is NULL.
pub record Netdev : Type 0 where
  pub allocated : ℕ
  pub name : List ℕ
  pub up : ℕ
  pub iftype : ℕ
  pub addresses : List NetdevAddr
  pub physical : Option ℕ
  pub master : ℕ

abbrev pub no_netdev : Netdev
no_netdev = record {
  allocated = 0;
  name = [];
  up = 0;
  iftype = 0;
  addresses = [];
  physical = none;
  master = 0;
}

-- `for (i = 0; i < fb; i++) addr->mask[i] = 0xff;` over the rounds left
pub mask_loop : ℕ → ℕ → List ℕ → List ℕ
mask_loop zero i mask = mask
mask_loop (suc n) i mask = mask_loop n (i + 1) (set mask i 0xff)

-- The mask that netdev_add_ip6_address makes.
pub prefix_mask : ℕ → List ℕ
prefix_mask prefix =
    let fb = prefix / 8 in
    let rb = prefix - fb * 8 in
    let mask = mask_loop fb 0 (replicate 16 0) in
    if rb == 0 then mask else set mask fb ((2 ^ (8 - rb) - 1) % 2 ^ 8)

-- `memcpy(addr->addr, address, 16)` is the first 16 bytes of the address, given as such.
pub netdev_add_ip6_address : Netdev → List ℕ → (prefix attr : ℕ) → Netdev
netdev_add_ip6_address dev address prefix attr =
    let new : NetdevAddr = record {
      addrtype = net_addr_ipv6;
      addr = address;
      mask = prefix_mask prefix;
      attr = attr;
    } in
    record dev { addresses = dev.addresses ++ (new ∷ []) }

pub netdev_add_linklocal : EthDev → Netdev → Netdev
netdev_add_linklocal ethdev dev =
    let b = λ (i : ℕ). get_or (ethdev.addr) i 0 in
    netdev_add_ip6_address dev
      (0x80 ∷ 0xfe ∷ 0 ∷ 0 ∷ 0 ∷ 0 ∷ 0 ∷ 0 ∷ 0 ∷ 0 ∷ b 1 ∷ b 0 ∷ b 3 ∷ b 2 ∷ b 5 ∷ b 4 ∷ []) 64
      net_addr_ipv6_local

abbrev pub is_free : Netdev → Bool
is_free dev = dev.allocated == 0

-- The index of the interface, `none` for NULL, and the table.
pub netdev_allocate : List Netdev → Option ℕ × List Netdev
netdev_allocate net_ifs = elim (first_slot is_free net_ifs) [
  | none ↦ (none, net_ifs)
  | some i ↦ (some i, set net_ifs i (record (get_or net_ifs i no_netdev) { allocated = 1 }))
]

pub netdev_set : ℕ → Netdev → Netdev
netdev_set state dev = record dev { up = state }

-- What network_create_loopback does with the interface that it got.
pub as_loopback : Netdev → Netdev
as_loopback dev =
    let named = record dev { name = b'l' ∷ b'o' ∷ [] } in
    netdev_add_ip6_address (record (netdev_set 1 named) { iftype = net_if_loopback })
      (set (replicate 16 0) 14 1) 64 net_addr_ipv6_loop

-- Without an interface the code writes through NULL: `none`.
fill_loopback : Option ℕ × List Netdev → Option (List Netdev)
fill_loopback (none, net_ifs) = none
fill_loopback (some i, net_ifs) = some (set net_ifs i (as_loopback (get_or net_ifs i no_netdev)))

pub network_create_loopback : List Netdev → Option (List Netdev)
network_create_loopback net_ifs = fill_loopback (netdev_allocate net_ifs)

-- netdev_addr_free gives every address back to free, which keeps nothing.
pub netdev_free : ℕ → List Netdev → List Netdev
netdev_free dev net_ifs = set net_ifs dev no_netdev

-- The ethernet device of an interface.
abbrev pub physical_of : List EthDev → Netdev → EthDev
physical_of eth_ifs dev = elim (dev.physical) [
  | none ↦ no_ethdev
  | some i ↦ get_or eth_ifs i no_ethdev
]

abbrev pub has_physical : Netdev → Bool
has_physical dev = dev.iftype == net_if_ethernet || dev.iftype == net_if_vswitch

pub netdev_get_mtu : List EthDev → Netdev → ℕ
netdev_get_mtu eth_ifs dev = if has_physical dev then (physical_of eth_ifs dev).mtu else 0

-- `if (f) if (f(phys)) status |= bit;`
abbrev pub flag : Option ℕ → ℕ → ℕ → ℕ
flag f bit status = elim f [
  | none ↦ status
  | some answer ↦ if answer == 0 then status else bit_or status bit
]

pub netdev_get_status : List EthDev → Netdev → ℕ
netdev_get_status eth_ifs dev =
    let phys = physical_of eth_ifs dev in
    let lower = flag (phys.is_promisc) (2 ^ 3) (
      flag (phys.is_multicast) (2 ^ 2)
        (flag (phys.is_broadcast) (2 ^ 1) (flag (phys.is_up) (2 ^ 5) 0))) in
    flag (some (dev.master)) (2 ^ 4)
      (flag (some (dev.up)) (2 ^ 0) (if has_physical dev then lower else 0))

-- `while (b) { prefix++; b >>= 1; }` for a byte
bits_loop : ℕ → ℕ → ℕ → ℕ
bits_loop zero b prefix = prefix
bits_loop (suc f) b prefix =
    let rest = bits_loop f (b / 2) (prefix + 1) in if b == 0 then prefix else rest

-- The loop of network_print_ipv6 over the mask.
pub prefix_loop : List ℕ → ℕ → ℕ
prefix_loop [] prefix = prefix
prefix_loop (m ∷ mask) prefix =
    let rest = prefix_loop mask (prefix + 8) in
    if m == 0xff then rest else if m == 0 then prefix else bits_loop 8 m prefix

-- The address as eight words, the lower byte first.
words : List ℕ → List ℕ
words [] = []
words (a ∷ []) = a ∷ []
words (a ∷ b ∷ bytes) = (a + 2 ^ 8 * b) ∷ words bytes

module _ (dev : Device) (fuel : ℕ) where
  -- The loop over the words; `omit` says whether zeros were left out.
  ipv6_loop : List ℕ → (i omit : ℕ) → Screen → Option Screen
  ipv6_loop [] i omit s = some s
  ipv6_loop (w ∷ ws) i omit s =
      let next = ipv6_loop ws (i + 1) in
      let ends = not (w == 0) && omit == 1 in
      if w == 0 && omit == 0
      then next 1 s
      else if w == 0 && omit == 1 && i == 7
      then put dev fuel b':' s
      else if w == 0 && omit == 1
      then next omit s
      else ((if ends then put dev fuel b':' s else some s)
          >>= putn16 dev fuel w
          >>= (λ s. if i == 7 then some s else put dev fuel b':' s)
          >>= next (if ends then 2 else omit))

  pub network_print_ipv6 : NetdevAddr → Screen → Option Screen
  network_print_ipv6 addr s =
      ipv6_loop (words (addr.addr)) 0 0 s
      >>= put dev fuel b'/'
      >>= putn10 dev fuel (prefix_loop (addr.mask) 0)

  -- The bytes of a hardware address from the `i`-th on.
  hwaddr_loop : ℕ → List ℕ → Screen → Option Screen
  hwaddr_loop i [] s = some s
  hwaddr_loop i (b ∷ bytes) s =
      (if b == 0 then put dev fuel b'0' s else some s)
      >>= putn16 dev fuel b
      >>= (λ s. if i == 5 then some s else put dev fuel b':' s)
      >>= hwaddr_loop (i + 1) bytes

  pub put_hwaddr : List ℕ → Screen → Option Screen
  put_hwaddr bytes s = hwaddr_loop 0 bytes s
