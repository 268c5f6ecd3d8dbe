-- ===== src/E1000/Tests.antt =====
-- A card whose registers stand in memory at 0xF0000000, with rings of empty descriptors.
use korolev.Prelude.{
  ℕ, ◌≡◌, refl, arith, ◌==◌, if◌then◌else◌, [], ◌∷◌, none, some, get_or, set, replicate, length,
}
use korolev.Prelude.Slots.{first_index}
use korolev.Port.{Device, fresh_io}
use korolev.Ethernet.{no_ethdev}
use korolev.Pci.{PciHandler}
use korolev.E1000.{Bus, E1000Priv}
use korolev.E1000.Registers.{log}
use korolev.E1000.Rings.{
  no_rx_desc, no_tx_desc, sent_loop, receive_loop, e1000_write, e1000_receive,
}
use korolev.E1000.Transmit.{reported, is_some, e1000_write_lem}
use korolev.E1000.Receive.{Taken, e1000_receive_lem}
use korolev.E1000.Setup.{Kernel}

abbrev quiet : Device
quiet t port = 0

abbrev card : E1000Priv
card = record {
  bus = 0;
  device = 3;
  function = 0;
  bar_type = 0;
  eeprom_exists = 0;
  rx_descs =
      set (set (replicate 32 no_rx_desc) 31 (record no_rx_desc { status = 1 })) 0
        (record no_rx_desc { status = 1 });
  tx_descs = replicate 8 no_tx_desc;
  rx_cur = 31;
  tx_cur = 7;
  memory = 0xF0000000;
  iobase = 0;
}

abbrev idle : Bus
idle = record { io = fresh_io; stores = [] }

-- The card answers at the third look; the index goes round the ring.
abbrev third_look : ℕ → ℕ
third_look k = if k == 2 then 1 else 0

e1000_write_lem_example :
    let (r, p', b') = e1000_write third_look 0x5000 60 card idle in
    (r ≡ (if is_some (first_index (reported third_look) 100 0) then 60 else 0))
    × (p'.tx_cur ≡ 0)
    × (length (p'.tx_descs) ≡ 8)
    × ((get_or (p'.tx_descs) 7 no_tx_desc).addr ≡ 0x5000)
    × ((get_or (p'.tx_descs) 7 no_tx_desc).length ≡ 78)
    × ((i : ℕ)
        → get_or (p'.tx_descs) i no_tx_desc ≡ (
            if i == 7
            then get_or (p'.tx_descs) 7 no_tx_desc
            else get_or (card.tx_descs) i no_tx_desc))
    × (log card b' ≡ (0x3818, 0) ∷ log card idle)
e1000_write_lem_example =
    e1000_write_lem third_look 0x5000 60 card idle (omega arith) refl (omega arith)

sends : (e1000_write third_look 0x5000 60 card idle).0 ≡ 60
unfolding e1000_write sent_loop
sends = refl

e1000_receive_lem_example : Taken card idle (e1000_receive (λ k descs. descs) 33 card idle)
e1000_receive_lem_example =
    e1000_receive_lem (λ k descs. descs) (λ k descs. refl) card idle (omega arith) refl
      (omega arith)

-- Two frames, in the last descriptor and in the first.
takes_two :
    elim (e1000_receive (λ k descs. descs) 33 card idle) as (λ _. ℕ) [
      | none ↦ 99
      | some (p, b) ↦ p.rx_cur
    ]
    ≡ 1
unfolding e1000_receive receive_loop
takes_two = refl

abbrev ignores : PciHandler ℕ
ignores regs dev s = s

abbrev booted : Kernel ℕ
booted = record {
  eth_ifs = replicate 16 no_ethdev;
  pages = record { counter = 0; start = 0x100000; len = 100 };
  ints = [];
  priv = card;
  bus = idle;
}
