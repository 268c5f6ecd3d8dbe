-- ===== src/Ethernet/Table.antt =====
-- The devices that are given away.
use korolev.Prelude.{
  ℕ, ◌<◌, ◌≡◌, ◌≢◌, refl, ap, List, Option, none, some, arith, leb, false, get_or, set, length,
  length-set, get_or-set_ne, get_or-set_self, sym,
}
use korolev.Prelude.Slots.{passing, Found, nowhere, at_slot, first_slot-Found}
use korolev.Ethernet.{EthDev, no_ethdev, is_free, ethernet_allocate, ethernet_free, ethernet_getdev}

-- What ethernet_allocate does with the table.
pub data Allocated (ifs : List EthDev) : Option ℕ × List EthDev → Type 0 where
  full : passing is_free ifs ≡ 0 → Allocated ifs (none, ifs)
  given :
      (i : ℕ) (ifs' : List EthDev)
      → i < length ifs
      → (get_or ifs i no_ethdev).allocated ≡ 0
      → (get_or ifs' i no_ethdev ≡ record (get_or ifs i no_ethdev) { allocated = 1; mtu = 1500 })
      → ((j : ℕ) → j ≢ i → get_or ifs' j no_ethdev ≡ get_or ifs j no_ethdev)
      → length ifs' ≡ length ifs
      → Allocated ifs (some i, ifs')

-- ethernet_allocate gives NULL, and leaves the table as it is, exactly when no device is free.
-- Otherwise it gives a free one, which counts as allocated afterwards and has an MTU of 1500, and
-- changes nothing else.
pub ethernet_allocate_lem : (ifs : List EthDev) → Allocated ifs (ethernet_allocate ifs)
unfolding ethernet_allocate
ethernet_allocate_lem ifs = go (first_slot-Found is_free ifs)
  where
    go :
        {r : Option ℕ}
        → Found is_free ifs r
        → Allocated ifs (elim r as (λ _. Option ℕ × List EthDev) [
          | none ↦ (none, ifs)
          | some i ↦
              (some i, set ifs i (record (get_or ifs i no_ethdev) { allocated = 1; mtu = 1500 }))
        ])
    go (nowhere z) = full z
    go (at_slot i h t p) =
        let new : EthDev = record (get_or ifs i no_ethdev) { allocated = 1; mtu = 1500 } in
        given i (set ifs i new) h (ground (arith, t no_ethdev))
          (get_or-set_self ifs i new no_ethdev h)
          (λ j ne. get_or-set_ne ifs i j new no_ethdev (λ e. ne (sym e))) (length-set ifs i new)

-- A device that ethernet_allocate gives away is found by ethernet_getdev until ethernet_free takes it
-- back, and not before or after; then ethernet_allocate gives the first free device again.
pub ethernet_getdev_lem :
    (ifs : List EthDev) {i : ℕ}
    → length ifs ≡ 16
    → (ethernet_allocate ifs).0 ≡ some i
    → let ifs' = (ethernet_allocate ifs).1 in
      (ethernet_getdev i ifs ≡ none)
      × (ethernet_getdev i ifs' ≡ some i)
      × (ethernet_getdev i (ethernet_free i ifs') ≡ none)
unfolding ethernet_getdev ethernet_free
ethernet_getdev_lem ifs {i} size e = go (ethernet_allocate_lem ifs) e
  where
    go :
        {r : Option ℕ × List EthDev}
        → Allocated ifs r
        → r.0 ≡ some i
        → (ethernet_getdev i ifs ≡ none)
          × (ethernet_getdev i (r.1) ≡ some i)
          × (ethernet_getdev i (ethernet_free i (r.1)) ≡ none)
    go (full z) e = absurd (cc)
    go (given j ifs' h z new others same) e =
        let here : i ≡ j = cc in
        let small : leb 16 j ≡ false = ground arith in
        let used = ap (λ (d : EthDev). d.allocated) new in
        let free = get_or-set_self ifs' j no_ethdev no_ethdev (omega arith) in
        rw here (rw (small, z) refl, rw (small, used) refl, rw (small, free) refl)
