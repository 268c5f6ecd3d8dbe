-- ===== src/Ethernet/Tests.antt =====
-- The table after the set-up.
use korolev.Prelude.{◌≡◌, refl, some}
use korolev.Ethernet.{ethernet_setup, ethernet_allocate}
use korolev.Prelude.Slots.{first_slot}

first_after_setup : (ethernet_allocate ethernet_setup).0 ≡ some 0
unfolding ethernet_allocate ethernet_setup first_slot
first_after_setup = refl
