-- ===== src/Virtio/Queue.antt =====
-- Where virtionet_initialize_queue puts the parts of the queue.
use korolev.Prelude.{ℕ, ◌+◌, ◌*◌, ◌%◌, ◌≤◌, ◌<◌, ◌≡◌, ◌==◌, arith, Bool-cases, inl, inr}
use korolev.Alloc.{Pages, malloc}
use korolev.Virtio.{VnetPriv, virtionet_initialize_queue}

-- The layout that the device expects of a queue of two entries, in a block of memory: the descriptors
-- at the first multiple of 4096, the ring of free entries (10 bytes) right behind the two descriptors of
-- 16 bytes, and the ring of used entries (22 bytes) at the next multiple of 4096.
pub record IsLaidOut (block size : ℕ) (p : VnetPriv) : Type 0 where
  pub desc_aligned : p.rx_desc % 4096 ≡ 0
  pub desc_inside : block ≤ p.rx_desc
  pub desc_first : p.rx_desc < block + 4096
  pub avail_behind : p.rx_avail ≡ p.rx_desc + 16 * 2
  pub used_next : p.rx_used ≡ p.rx_desc + 4096
  pub used_inside : p.rx_used + 22 ≤ block + size

-- virtionet_initialize_queue puts the three parts of the queue where the device expects them in the
-- one block that it asks for: the descriptors at its first multiple of 4096, the free entries 32 bytes
-- on, and the used entries 4096 bytes on, with their end inside the block.
pub virtionet_initialize_queue_lem :
    (p : VnetPriv) (h : Pages)
    → IsLaidOut (malloc h 12392).0 12392 (virtionet_initialize_queue p h).0
unfolding virtionet_initialize_queue
virtionet_initialize_queue_lem p h = elim (Bool-cases ((malloc h 12392).0 % 4096 == 0)) [
  | inl aligned ↦
      let zero_mod : (malloc h 12392).0 % 4096 ≡ 0 = ground arith in
      rw aligned (omega (arith, zero_mod))
  | inr off ↦ rw off (ground arith)
]
