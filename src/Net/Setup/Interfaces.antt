-- ===== src/Net/Setup/Interfaces.antt =====
-- The interfaces that network_setup makes.
use korolev.Prelude.{
  ℕ, zero, suc, ◌+◌, ◌-◌, ◌≤◌, ◌≡◌, ◌≢◌, refl, ap, sym, ◌∙◌, true, false, List, [], ◌∷◌, ◌++◌,
  Option, none, some, ◌==◌, if◌then◌else◌, get_or, set, replicate, arith, length, Bool-cases, inl,
  inr,
}
use korolev.Prelude.Slots.{first_slot}
use korolev.Ethernet.{EthDev, no_ethdev, ethernet_getdev}
use korolev.Net.Loopback.{loopback}
use korolev.Net.{
  Netdev, no_netdev, fill_loopback, as_loopback, netdev_allocate, netdev_set, netdev_add_linklocal,
  netdev_add_ip6_address, prefix_mask, mask_loop, net_if_ethernet, net_addr_ipv6,
  net_addr_ipv6_local, network_create_loopback, is_free,
}
use korolev.Net.Setup.{wait_loop, as_ethernet, add_interface, setup_loop, network_setup}

-- No interface of the list is free.
abbrev AllUsed : List Netdev → Type 0
AllUsed [] = Unit {0}
AllUsed (x ∷ xs) = (is_free x ≡ false) × AllUsed xs

AllUsed-append :
    (xs : List Netdev) (x : Netdev) → AllUsed xs → is_free x ≡ false → AllUsed (xs ++ (x ∷ []))
AllUsed-append [] x u e = (e, tt)
AllUsed-append (y ∷ ys) x (f, u) e = (f, AllUsed-append ys x u e)

module _ {ℓ} {A : Type ℓ} where
  get_or-behind : (xs : List A) (x d : A) (ys : List A) → get_or (xs ++ (x ∷ ys)) (length xs) d ≡ x
  get_or-behind [] x d ys = refl
  get_or-behind (z ∷ zs) x d ys = get_or-behind zs x d ys

  set-behind :
      (xs : List A) (x y : A) (ys : List A) → set (xs ++ (x ∷ ys)) (length xs) y ≡ xs ++ (y ∷ ys)
  set-behind [] x y ys = refl
  set-behind (z ∷ zs) x y ys = ap (λ l. z ∷ l) (set-behind zs x y ys)

  append-cons : (xs : List A) (x : A) (ys : List A) → xs ++ (x ∷ ys) ≡ (xs ++ (x ∷ [])) ++ ys
  append-cons [] x ys = refl
  append-cons (z ∷ zs) x ys = ap (λ l. z ∷ l) (append-cons zs x ys)

first_slot-behind :
    (xs : List Netdev) (x : Netdev) (ys : List Netdev)
    → AllUsed xs
    → is_free x ≡ true
    → first_slot is_free (xs ++ (x ∷ ys)) ≡ some (length xs)
unfolding first_slot
first_slot-behind [] x ys u e = rw e refl
first_slot-behind (z ∷ zs) x ys (f, u) e = rw (f, first_slot-behind zs x ys u e) refl

abbrev taken : Netdev
taken = record no_netdev { allocated = 1 }

-- The first interface behind those in use is given away.
netdev_allocate-behind :
    (xs ys : List Netdev)
    → AllUsed xs
    → netdev_allocate (xs ++ (no_netdev ∷ ys)) ≡ (some (length xs), xs ++ (taken ∷ ys))
unfolding netdev_allocate
netdev_allocate-behind xs ys u =
    let first = first_slot-behind xs no_netdev ys u refl in
    let old = get_or-behind xs no_netdev no_netdev ys in
    let claim = λ (old : Netdev). record old { allocated = 1 } in
    ap
      (λ (r : Option ℕ). elim r as (λ _. Option ℕ × List Netdev) [
        | none ↦ (none, xs ++ (no_netdev ∷ ys))
        | some i ↦ (
          some i,
          set (xs ++ (no_netdev ∷ ys)) i (claim (get_or (xs ++ (no_netdev ∷ ys)) i no_netdev)),
        )
      ])
      first
    ∙ ap (λ (o : Netdev). (some (length xs), set (xs ++ (no_netdev ∷ ys)) (length xs) (claim o)))
        old
    ∙ ap (λ (l : List Netdev). (some (length xs), l)) (set-behind xs no_netdev taken ys)

-- The first of the free interfaces becomes the loopback.
loopback_first :
    network_create_loopback (replicate 16 no_netdev)
    ≡ some (loopback no_netdev ∷ replicate 15 no_netdev)
unfolding network_create_loopback fill_loopback netdev_allocate first_slot as_loopback netdev_set
    netdev_add_ip6_address
loopback_first = refl

-- The interface `eth` of the ethernet device `d`: it is up, and has one address, fe80:: with the six
-- bytes of the device behind (a word keeps its low byte first), under a mask of 64 bits.
abbrev pub ethernet_of : List EthDev → ℕ → Netdev
ethernet_of eth_ifs d =
    let b = λ (i : ℕ). get_or ((get_or eth_ifs d no_ethdev).addr) i 0 in
    record {
      allocated = 1;
      name = b'e' ∷ b't' ∷ b'h' ∷ [];
      up = 1;
      iftype = net_if_ethernet;
      addresses =
          record {
            addrtype = net_addr_ipv6;
            addr =
                0x80
                ∷ 0xfe
                ∷ 0
                ∷ 0
                ∷ 0
                ∷ 0
                ∷ 0
                ∷ 0
                ∷ 0
                ∷ 0
                ∷ b 1
                ∷ b 0
                ∷ b 3
                ∷ b 2
                ∷ b 5
                ∷ b 4
                ∷ [];
            mask = replicate 8 0xff ++ replicate 8 0;
            attr = net_addr_ipv6_local;
          }
          ∷ [];
      physical = some d;
      master = 0;
    }

-- The wait never reaches the value that stands for its time-out.
wait_loop-le : (answers : ℕ → ℕ) (s look : ℕ) → wait_loop answers s look ≤ s
unfolding wait_loop
wait_loop-le answers zero look = omega arith
wait_loop-le answers (suc s) look =
    let again = wait_loop-le answers s (look + 1) in
    elim (Bool-cases (answers look == 0)) [
      | inl down ↦ rw down (omega (arith, again))
      | inr up ↦ rw up (omega arith)
    ]

as_ethernet-of :
    (eth_ifs : List EthDev) (answers : ℕ → ℕ) (d : ℕ)
    → as_ethernet eth_ifs answers d taken ≡ ethernet_of eth_ifs d
unfolding netdev_add_linklocal netdev_add_ip6_address prefix_mask mask_loop
as_ethernet-of eth_ifs answers d =
    let in_time : (wait_loop answers 3 0 == 0xffffffff) ≡ false =
      ground (arith, wait_loop-le answers 3 0) in
    rw in_time refl

module _ (eth_ifs : List EthDev) where
  -- The interfaces of the devices from `i` to `i + n - 1` that are taken, in their order.
  unfoldable pub interfaces : (n i : ℕ) → List Netdev
  interfaces zero i = []
  interfaces (suc n) i = elim (ethernet_getdev i eth_ifs) as (λ _. List Netdev) [
    | none ↦ interfaces n (i + 1)
    | some d ↦ ethernet_of eth_ifs i ∷ interfaces n (i + 1)
  ]

module _ (eth_ifs : List EthDev) (answers : ℕ → ℕ → ℕ) where
  module _
      (linked : (i : ℕ)
        → ethernet_getdev i eth_ifs ≢ none
        → (get_or eth_ifs i no_ethdev).is_up ≢ none) where
    add_interface-behind :
        (i : ℕ) (xs ys : List Netdev)
        → AllUsed xs
        → ethernet_getdev i eth_ifs ≢ none
        → add_interface eth_ifs (answers i) i (netdev_allocate (xs ++ (no_netdev ∷ ys)))
          ≡ some (xs ++ (ethernet_of eth_ifs i ∷ ys))
    unfolding add_interface
    add_interface-behind i xs ys u there =
        ap (add_interface eth_ifs (answers i) i) (netdev_allocate-behind xs ys u)
        ∙ go ((get_or eth_ifs i no_ethdev).is_up) (linked i there)
      where
        new : Netdev
        new = ethernet_of eth_ifs i

        go :
            (f : Option ℕ)
            → f ≢ none
            → (elim f as (λ _. Option (List Netdev)) [
              | none ↦ none
              | some g ↦ some (
                  set (xs ++ (taken ∷ ys)) (length xs) (
                    as_ethernet eth_ifs
                      (answers i)
                      i
                      (get_or (xs ++ (taken ∷ ys)) (length xs) no_netdev)))
            ])
              ≡ some (xs ++ (new ∷ ys))
        go none ne = absurd (ne refl)
        go (some g) ne =
            ap
              (λ (o : Netdev).
                some (set (xs ++ (taken ∷ ys)) (length xs) (as_ethernet eth_ifs (answers i) i o)))
              (get_or-behind xs taken no_netdev ys)
            ∙ ap (λ (o : Netdev). some (set (xs ++ (taken ∷ ys)) (length xs) o))
                (as_ethernet-of eth_ifs (answers i) i)
            ∙ ap (λ (l : List Netdev). some l) (set-behind xs taken new ys)

    setup_loop-interfaces :
        (n i room : ℕ) (xs : List Netdev)
        → AllUsed xs
        → length (interfaces eth_ifs n i) ≤ room
        → setup_loop eth_ifs answers n i (some (xs ++ replicate room no_netdev))
          ≡ some (
              xs
              ++ (interfaces eth_ifs n i
                  ++ replicate (room - length (interfaces eth_ifs n i)) no_netdev))
    unfolding setup_loop interfaces
    setup_loop-interfaces zero i room xs u fits =
        let all_left : room ≡ room - 0 = omega arith in
        ap (λ (k : ℕ). some (xs ++ replicate k no_netdev)) all_left
    setup_loop-interfaces (suc n) i room xs u fits =
        go (λ room' xs'. setup_loop-interfaces n (i + 1) room' xs') (ethernet_getdev i eth_ifs) room
          refl fits
      where
        new : Netdev
        new = ethernet_of eth_ifs i

        all : Option ℕ → List Netdev
        all r = elim r as (λ _. List Netdev) [
          | none ↦ interfaces eth_ifs n (i + 1)
          | some d ↦ new ∷ interfaces eth_ifs n (i + 1)
        ]

        Rest : Type 0
        Rest =
            (room : ℕ) (xs : List Netdev)
            → AllUsed xs
            → length (interfaces eth_ifs n (i + 1)) ≤ room
            → setup_loop eth_ifs answers n (i + 1) (some (xs ++ replicate room no_netdev))
              ≡ some (
                  xs
                  ++ (interfaces eth_ifs n (i + 1)
                      ++ replicate (room - length (interfaces eth_ifs n (i + 1))) no_netdev))

        go :
            Rest
            → (r : Option ℕ) (room : ℕ) → ethernet_getdev i eth_ifs ≡ r
            → length (all r) ≤ room
            → setup_loop eth_ifs answers n (i + 1) (elim r as (λ _. Option (List Netdev)) [
              | none ↦ some (xs ++ replicate room no_netdev)
              | some d ↦
                  add_interface eth_ifs
                    (answers i)
                    i
                    (netdev_allocate (xs ++ replicate room no_netdev))
            ])
              ≡ some (xs ++ (all r ++ replicate (room - length (all r)) no_netdev))
        go later none room e fits = later room xs u fits
        go later (some d) zero e fits = absurd (omega arith)
        go later (some d) (suc room) e fits =
            let there : ethernet_getdev i eth_ifs ≢ none = λ z. cc in
            let rest = replicate room no_netdev in
            let left : room - length (interfaces eth_ifs n (i + 1))
                ≡ suc room - suc (length (interfaces eth_ifs n (i + 1))) =
              omega arith in
            ap (setup_loop eth_ifs answers n (i + 1)) (add_interface-behind i xs rest u there)
            ∙ ap (λ (l : List Netdev). setup_loop eth_ifs answers n (i + 1) (some l))
                (append-cons xs new rest)
            ∙ later room (xs ++ (new ∷ [])) (AllUsed-append xs new u refl) (omega arith)
            ∙ ap (λ (l : List Netdev). some l) (sym (append-cons xs new _))
            ∙ ap
                (λ (k : ℕ).
                  some (xs ++ (new ∷ (interfaces eth_ifs n (i + 1) ++ replicate k no_netdev))))
                left

    -- Unless the network is disabled, when every ethernet device that is taken has a function for its
    -- link and there are at most 15 of them, network_setup makes the loopback interface and then, in the
    -- order of the devices, one interface for each, with its address and up, whatever their links answer,
    -- and leaves the other
    -- interfaces free. When it is disabled, the interfaces stay as they are.
    pub network_setup_lem :
        (disabled : ℕ) (old : List Netdev)
        → length (interfaces eth_ifs 16 0) ≤ 15
        → network_setup disabled eth_ifs answers old ≡ (
            if disabled == 0
            then some (
                loopback no_netdev
                ∷ (interfaces eth_ifs 16 0
                    ++ replicate (15 - length (interfaces eth_ifs 16 0)) no_netdev))
            else some old)
    unfolding network_setup
    network_setup_lem disabled old few = elim (Bool-cases (disabled == 0)) [
      | inl on ↦
          rw (on, loopback_first)
            (setup_loop-interfaces 16 0 15 (loopback no_netdev ∷ []) (refl, tt) few)
      | inr off ↦ rw off refl
    ]
