-- ===== src/Mkfs/Header.antt =====
-- The header that the tool writes, and the kernel that reads it.
use korolev.Prelude.{
  ℕ, ◌+◌, ◌-◌, ◌*◌, ltb, if◌then◌else◌, ◌^◌, ◌≤◌, ◌<◌, ◌≡◌, true, inl, inr, refl, ◌∙◌, false, arith,
}
use korolev.Kfs2.{Disk, Kfs2, kfs2_init}
use korolev.Format.{append, no_image}
use korolev.Format.Boot.{HoldsImage, long_held}
use korolev.Kfs2.Mount.{can_mount, kfs2_init_lem}
use korolev.Mkfs.{prepare}

-- When a disk that can be read holds, from the sector `lba` on, what prepare writes for a size of 32
-- bits, and no file system is set up, kfs2_init accepts it, and counts the clusters that prepare
-- returns: as many whole ones as fit behind a header of 512 bytes into the size, or, for a size below
-- 512, into 2 ^ 32 and the size, since the difference wraps. (The tool hands over the size 0 of an
-- image just emptied.)
pub kfs2_init-prepare :
    (disk : Disk) (lba size : ℕ) (k : Kfs2)
    → ((l : ℕ) → disk.broken l ≡ false)
    → lba < 2 ^ 32
    → size < 2 ^ 32
    → k.lba ≡ 0
    → let (n, img) = prepare size no_image in
      HoldsImage disk lba img
      → let (r, k') = kfs2_init disk lba k in
        let room = if ltb size 512 then 2 ^ 32 + size - 512 else size - 512 in
        (r ≡ 1) × (k'.cluster_n ≡ n) × (8192 * n ≤ room) × (room < 8192 * (n + 1))
unfolding prepare append
kfs2_init-prepare disk lba size k sound word most off holds =
    let img = (prepare size no_image).1 in
    let n = (prepare size no_image).0 in
    let sign = long_held disk sound lba img holds 0 (omega arith) (omega arith) word in
    let count = long_held disk sound lba img holds 4 (omega arith) (omega arith) word in
    let small : n < 2 ^ 32 = omega arith in
    elim (kfs2_init_lem disk lba k) [
      | inr (fails, _, _) ↦
          let mounts : can_mount disk lba k ≡ true = rw (off, sound lba, sign) refl in absurd (cc)
      | inl (_, one, _, clusters, _, _) ↦
          (one, clusters ∙ count ∙ omega (arith, small), ground arith, ground arith)
    ]
