-- ===== src/Virtio/Tests.antt =====
-- A device at port 0xC000 that is a network card and agrees to everything.
use korolev.Prelude.{◌==◌, if◌then◌else◌, replicate, ltb, ◌^◌}
use korolev.Port.{Device, fresh_io}
use korolev.Alloc.{malloc}
use korolev.Ethernet.{no_ethdev}
use korolev.Virtio.{VnetKernel, vnet_fresh_priv, virtionet_initialize_queue}
use korolev.Virtio.Queue.{IsLaidOut, virtionet_initialize_queue_lem}

abbrev virtual_card : Device
virtual_card t port = if port == 0xCFC then (if ltb t 3 then 0xC001 else 2 ^ 16) else 0xff

abbrev booted : VnetKernel
booted = record {
  eth_ifs = replicate 16 no_ethdev;
  pages = record { counter = 0; start = 0x100800; len = 100 };
  priv = vnet_fresh_priv 0;
  io = fresh_io;
}

virtionet_initialize_queue_lem_example :
    IsLaidOut
      (malloc (booted.pages) 12392).0
      12392
      (virtionet_initialize_queue (vnet_fresh_priv 0xC000) (booted.pages)).0
virtionet_initialize_queue_lem_example =
    virtionet_initialize_queue_lem (vnet_fresh_priv 0xC000) (booted.pages)
