-- ===== src/E1000/Init.antt =====
-- How e1000_init ends.
use korolev.Prelude.{ℕ, ◌+◌, ◌%◌, ◌^◌, ◌≡◌, ◌≢◌, List, Option, some, get_or, length, inl, bit_and}
use korolev.Prelude.Slots.{passing}
use korolev.Port.{Device, Io, inl as read_long}
use korolev.Ethernet.{EthDev, no_ethdev, is_free}
use korolev.Pci.{PciHandler, PciIntEntry, pci_int_request, pci_cfg_readl}
use korolev.E1000.{Bus}
use korolev.E1000.Setup.{Kernel, entry}

-- What e1000_read_mac does without an EEPROM, for a card whose first address word is `word`.
data MacRead (word : ℕ) (dev : EthDev) : Option (ℕ × EthDev × Bus) → Type 0 where
  absent : (b : Bus) → word ≡ 0 → MacRead word dev (some (0, dev, b))
  six :
      (bytes : List ℕ) (b : Bus)
      → word ≢ 0
      → length bytes ≡ 6
      → MacRead word dev (some (1, record dev { addr = bytes }, b))

module _ (machine card : Device) where
  -- The word at 0x5400 behind the memory of the card, when it is read as the access `c`.
  abbrev pub address_word : (memory c : ℕ) → ℕ
  address_word memory c = card c ((memory + 0x5400) % 2 ^ 32) % 2 ^ 32

  -- That word when e1000_init reads it: behind two accesses that read the first base address, which
  -- gives the memory, and two that write the interrupt line.
  abbrev pub word_at_init : (bus device function : ℕ) → Io → ℕ
  word_at_init bus device function io =
      let bar0 = (pci_cfg_readl machine bus device function 0x10 io).0 in
      address_word (bit_and bar0 0xFFFFFFF0) (io.clock + 4)

  module _ {ℓ} {S : Type ℓ} (handler : PciHandler S) (fuel bus device function : ℕ) where
    -- The ways in which the set-up ends, from a table of devices and of interrupts.
    pub data Ended (word : ℕ) (ifs : List EthDev) (ints : List (PciIntEntry S))
        : Option (ℕ × Kernel S) → Type ℓ where
      no_slot :
          (k : Kernel S)
          → passing is_free ifs ≡ 0
          → k.eth_ifs ≡ ifs
          → k.ints ≡ ints
          → Ended word ifs ints (some (1, k))
      no_address :
          (d : ℕ) (k : Kernel S)
          → word ≡ 0
          → (get_or ifs d no_ethdev).allocated ≡ 0
          → get_or (k.eth_ifs) d no_ethdev ≡ no_ethdev
          → ((j : ℕ) → j ≢ d → get_or (k.eth_ifs) j no_ethdev ≡ get_or ifs j no_ethdev)
          → k.ints
            ≡ (pci_int_request (entry machine card handler fuel bus device function d) ints).1
          → Ended word ifs ints (some (1, k))
      ready :
          (d : ℕ) (k : Kernel S)
          → word ≢ 0
          → (get_or ifs d no_ethdev).allocated ≡ 0
          → (get_or (k.eth_ifs) d no_ethdev).allocated ≡ 1
          → length (get_or (k.eth_ifs) d no_ethdev).addr ≡ 6
          → ((j : ℕ) → j ≢ d → get_or (k.eth_ifs) j no_ethdev ≡ get_or ifs j no_ethdev)
          → k.ints
            ≡ (pci_int_request (entry machine card handler fuel bus device function d) ints).1
          → Ended word ifs ints (some (0, k))
